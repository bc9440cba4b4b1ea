-- ===== src/Auth/Lock/Turns.antt =====
-- The busy threads before and after a turn, and the turns on a free lock.
use mlflow_integration.Shared.{
  Bool, true, false, ◌||◌, some, List, [], ◌∷◌, ℕ, suc, ◌+◌, ◌-◌, ◌<◌, if_intro, ltb, map, ◌≡◌,
  refl, arith, Bool-cases, inl, inr,
}
use mlflow_integration.Auth.Lock.{
  Lock, Phase, idle, read_asleep, read_awake, reading, write_asleep, write_awake, writing, Wish,
  Turn, try_read, try_write, turn, wake, phase_at, with_phase, Threads, after, Step, take_turn,
}
use mlflow_integration.Auth.Lock.Census.{
  one, count, count-with_phase, count-wake, is_reading, is_writing, is_waiting_writer,
  is_sleeping_reader, is_sleeping_writer,
}
use mlflow_integration.Auth.Lock.Exclusion.{IsConsistent, Step-IsConsistent}

abbrev pub is_busy : Phase → Bool
is_busy idle = false
is_busy read_asleep = true
is_busy read_awake = true
is_busy reading = true
is_busy write_asleep = true
is_busy write_awake = true
is_busy writing = true

abbrev pub is_awake_reader : Phase → Bool
is_awake_reader read_awake = true
is_awake_reader idle = false
is_awake_reader read_asleep = false
is_awake_reader reading = false
is_awake_reader write_asleep = false
is_awake_reader write_awake = false
is_awake_reader writing = false

abbrev pub is_awake_writer : Phase → Bool
is_awake_writer write_awake = true
is_awake_writer idle = false
is_awake_writer read_asleep = false
is_awake_writer read_awake = false
is_awake_writer reading = false
is_awake_writer write_asleep = false
is_awake_writer writing = false

-- A thread that is counted stands somewhere.
pub find_thread :
    (test : Phase → Bool) (phases : List Phase)
    → 0 < count test phases
    → (i : ℕ) × (p : Phase) × ((phase_at i phases ≡ some p) × (test p ≡ true))
find_thread test [] h = absurd (omega (arith, h))
find_thread test (p ∷ phases) h = elim (Bool-cases (test p)) [
  | inl t ↦ (0, p, (refl, t))
  | inr f ↦ let (i, q, w) = find_thread test phases (ground (arith, f, h)) in (suc i, q, w)
]

-- The busy threads are those that hold the lock, those that sleep, and those that are awake.
pub busy_parts :
    (phases : List Phase)
    → count is_busy phases
      ≡ count is_reading phases
        + count is_writing phases
        + count is_sleeping_reader phases
        + count is_sleeping_writer phases
        + count is_awake_reader phases
        + count is_awake_writer phases
busy_parts [] = omega arith
busy_parts (idle ∷ phases) = omega (arith, busy_parts phases)
busy_parts (read_asleep ∷ phases) = omega (arith, busy_parts phases)
busy_parts (read_awake ∷ phases) = omega (arith, busy_parts phases)
busy_parts (reading ∷ phases) = omega (arith, busy_parts phases)
busy_parts (write_asleep ∷ phases) = omega (arith, busy_parts phases)
busy_parts (write_awake ∷ phases) = omega (arith, busy_parts phases)
busy_parts (writing ∷ phases) = omega (arith, busy_parts phases)

pub waiting_parts :
    (phases : List Phase)
    → count is_waiting_writer phases
      ≡ count is_sleeping_writer phases + count is_awake_writer phases
waiting_parts [] = omega arith
waiting_parts (idle ∷ phases) = omega (arith, waiting_parts phases)
waiting_parts (read_asleep ∷ phases) = omega (arith, waiting_parts phases)
waiting_parts (read_awake ∷ phases) = omega (arith, waiting_parts phases)
waiting_parts (reading ∷ phases) = omega (arith, waiting_parts phases)
waiting_parts (write_asleep ∷ phases) = omega (arith, waiting_parts phases)
waiting_parts (write_awake ∷ phases) = omega (arith, waiting_parts phases)
waiting_parts (writing ∷ phases) = omega (arith, waiting_parts phases)

busy-wake : (phases : List Phase) → count is_busy (map wake phases) ≡ count is_busy phases
busy-wake phases = count-wake is_busy is_busy phases same
  where
    same : (p : Phase) → is_busy (wake p) ≡ is_busy p
    same idle = refl
    same read_asleep = refl
    same read_awake = refl
    same reading = refl
    same write_asleep = refl
    same write_awake = refl
    same writing = refl

busy-after :
    (i : ℕ) (t : Turn) (phases : List Phase)
    → count is_busy (after i t phases).phases ≡ count is_busy (with_phase i t.phase phases)
busy-after i t phases =
    if_intro (λ kept. count is_busy kept ≡ count is_busy (with_phase i t.phase phases)) t.notifies
      (λ _. busy-wake (with_phase i t.phase phases)) (λ _. refl)

-- Where a turn leads, and how many threads are busy then.
pub turn-busy :
    (s : Threads) (i : ℕ) (p : Phase) (wish : Wish) (t : Turn)
    → IsConsistent s.lock s.phases
    → phase_at i s.phases ≡ some p
    → turn wish s.lock p ≡ some t
    → (u : Threads) × Step s u
      × (IsConsistent u.lock u.phases
          × ((u ≡ after i t s.phases)
              × (count is_busy u.phases + one (is_busy p)
                  ≡ count is_busy s.phases + one (is_busy t.phase))))
turn-busy s i p wish t inv h e = (
  after i t s.phases,
  take_turn i wish p t h e,
  (
    Step-IsConsistent (take_turn i wish p t h e) inv,
    (refl, omega (arith, busy-after i t s.phases, count-with_phase is_busy i p t.phase s.phases h)),
  ),
)

pub reading-eq : (p : Phase) → is_reading p ≡ true → p ≡ reading
reading-eq reading h = refl
reading-eq idle h = cc
reading-eq read_asleep h = cc
reading-eq read_awake h = cc
reading-eq write_asleep h = cc
reading-eq write_awake h = cc
reading-eq writing h = cc

pub writing-eq : (p : Phase) → is_writing p ≡ true → p ≡ writing
writing-eq writing h = refl
writing-eq idle h = cc
writing-eq read_asleep h = cc
writing-eq read_awake h = cc
writing-eq reading h = cc
writing-eq write_asleep h = cc
writing-eq write_awake h = cc

pub awake_reader-eq : (p : Phase) → is_awake_reader p ≡ true → p ≡ read_awake
awake_reader-eq read_awake h = refl
awake_reader-eq idle h = cc
awake_reader-eq read_asleep h = cc
awake_reader-eq reading h = cc
awake_reader-eq write_asleep h = cc
awake_reader-eq write_awake h = cc
awake_reader-eq writing h = cc

pub awake_writer-eq : (p : Phase) → is_awake_writer p ≡ true → p ≡ write_awake
awake_writer-eq write_awake h = refl
awake_writer-eq idle h = cc
awake_writer-eq read_asleep h = cc
awake_writer-eq read_awake h = cc
awake_writer-eq reading h = cc
awake_writer-eq write_asleep h = cc
awake_writer-eq writing h = cc

one-eq-zero : (b : Bool) → one b ≡ 0 → b ≡ false
one-eq-zero true h = absurd (omega (arith, h))
one-eq-zero false h = refl

abbrev pub acquired_read : Lock → Turn
acquired_read lock = record {
  lock = record lock { readers = lock.readers + 1 };
  phase = reading;
  notifies = false;
}

abbrev pub acquired_write : Lock → Turn
acquired_write lock = record {
  lock = record lock { writer = true; waiting_writers = lock.waiting_writers - 1 };
  phase = writing;
  notifies = false;
}

pub try_read-free :
    (lock : Lock)
    → one lock.writer ≡ 0
    → lock.waiting_writers ≡ 0
    → try_read lock ≡ acquired_read lock
unfolding try_read
try_read-free lock w n =
    if_intro (λ t. t ≡ acquired_read lock) (lock.writer || ltb 0 lock.waiting_writers)
      (λ busy. absurd (ground (arith, busy, w, n))) (λ _. refl)

pub try_write-free :
    (lock : Lock) → one lock.writer ≡ 0 → lock.readers ≡ 0 → try_write lock ≡ acquired_write lock
unfolding try_write
try_write-free lock w n =
    if_intro (λ t. t ≡ acquired_write lock) (lock.writer || ltb 0 lock.readers)
      (λ busy. absurd (ground (arith, busy, w, n))) (λ _. refl)
