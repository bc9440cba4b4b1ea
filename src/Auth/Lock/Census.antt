-- ===== src/Auth/Lock/Census.antt =====
-- How many threads stand where, before and after a turn.
use mlflow_integration.Shared.{
  Bool, true, false, List, [], ◌∷◌, ℕ, zero, suc, ◌+◌, ◌≤◌, map, some, ap, ◌≡◌, refl, arith,
}
use mlflow_integration.Auth.Lock.{
  Phase, idle, read_asleep, read_awake, reading, write_asleep, write_awake, writing, wake, phase_at,
  with_phase, all_idle,
}

abbrev pub one : Bool → ℕ
one true = 1
one false = 0

abbrev pub count : (Phase → Bool) → List Phase → ℕ
count test [] = 0
count test (p ∷ phases) = one (test p) + count test phases

-- One thread changes its phase.
pub count-with_phase :
    (test : Phase → Bool) (i : ℕ) (p q : Phase) (phases : List Phase)
    → phase_at i phases ≡ some p
    → count test (with_phase i q phases) + one (test p) ≡ count test phases + one (test q)
count-with_phase test i p q [] h = cc
count-with_phase test zero p q (r ∷ phases) h =
    let e : r ≡ p = cc in omega (arith, ap (λ s. one (test s)) e)
count-with_phase test (suc i) p q (r ∷ phases) h =
    omega (arith, count-with_phase test i p q phases h)

-- A thread is counted.
pub one-le-count :
    (test : Phase → Bool) (i : ℕ) (p : Phase) (phases : List Phase)
    → phase_at i phases ≡ some p
    → one (test p) ≤ count test phases
one-le-count test i p [] h = cc
one-le-count test zero p (r ∷ phases) h =
    let e : r ≡ p = cc in omega (arith, ap (λ s. one (test s)) e)
one-le-count test (suc i) p (r ∷ phases) h = omega (arith, one-le-count test i p phases h)

pub count-wake :
    (test before : Phase → Bool) (phases : List Phase)
    → ((p : Phase) → test (wake p) ≡ before p)
    → count test (map wake phases) ≡ count before phases
count-wake test before [] h = refl
count-wake test before (p ∷ phases) h = rw (h p, count-wake test before phases h) refl

pub count_none : (phases : List Phase) → count (λ p. false) phases ≡ 0
count_none [] = refl
count_none (p ∷ phases) = omega (arith, count_none phases)

pub count-idle : (test : Phase → Bool) (n : ℕ) → test idle ≡ false → count test (all_idle n) ≡ 0
count-idle test zero h = refl
count-idle test (suc n) h = rw (h, count-idle test n h) refl

-- The questions that are asked of a thread.
abbrev pub is_reading : Phase → Bool
is_reading reading = true
is_reading idle = false
is_reading read_asleep = false
is_reading read_awake = false
is_reading write_asleep = false
is_reading write_awake = false
is_reading writing = false

abbrev pub is_writing : Phase → Bool
is_writing writing = true
is_writing idle = false
is_writing read_asleep = false
is_writing read_awake = false
is_writing reading = false
is_writing write_asleep = false
is_writing write_awake = false

-- A writer that waits, asleep or awake.
abbrev pub is_waiting_writer : Phase → Bool
is_waiting_writer write_asleep = true
is_waiting_writer write_awake = true
is_waiting_writer idle = false
is_waiting_writer read_asleep = false
is_waiting_writer read_awake = false
is_waiting_writer reading = false
is_waiting_writer writing = false

abbrev pub is_sleeping_reader : Phase → Bool
is_sleeping_reader read_asleep = true
is_sleeping_reader idle = false
is_sleeping_reader read_awake = false
is_sleeping_reader reading = false
is_sleeping_reader write_asleep = false
is_sleeping_reader write_awake = false
is_sleeping_reader writing = false

abbrev pub is_sleeping_writer : Phase → Bool
is_sleeping_writer write_asleep = true
is_sleeping_writer idle = false
is_sleeping_writer read_asleep = false
is_sleeping_writer read_awake = false
is_sleeping_writer reading = false
is_sleeping_writer write_awake = false
is_sleeping_writer writing = false

-- A thread that holds the lock, or is back from `wait`.
abbrev pub is_active : Phase → Bool
is_active read_awake = true
is_active reading = true
is_active write_awake = true
is_active writing = true
is_active idle = false
is_active read_asleep = false
is_active write_asleep = false
