-- ===== src/Auth/Lock.antt =====
-- auth/authorizer.py, `_ReadWriteLock`, and the threads that use it. A thread runs one `with self._condition` block, or
-- what is left of it after `wait`, in one turn; a thread that waits is asleep until it is notified.
pub mod Census
pub mod Exclusion
pub mod Turns
pub mod Progress
use mlflow_integration.Shared.{
  Bool, true, false, ◌&&◌, ◌||◌, not, Option, none, some, List, [], ◌∷◌, ℕ, zero, suc, ◌+◌, ◌-◌,
  if◌then◌else◌, ltb, nat_eqb, map, ◌≡◌,
}

-- The fields of `_ReadWriteLock`.
pub record Lock : Type 0 where
  pub readers : ℕ
  pub writer : Bool
  pub waiting_writers : ℕ

-- `_ReadWriteLock.__init__`
abbrev pub new_lock : Lock
new_lock = record { readers = 0; writer = false; waiting_writers = 0 }

-- Where a thread stands: outside, inside `wait`, back from `wait` and about to test again, or with the lock.
pub data Phase : Type 0 where
  idle read_asleep read_awake reading write_asleep write_awake writing : Phase

-- What an idle thread does next.
pub data Wish : Type 0 where
  to_read to_write : Wish

-- After a turn: the fields, the thread, and whether it called `notify_all`.
pub record Turn : Type 0 where
  pub lock : Lock
  pub phase : Phase
  pub notifies : Bool

-- The loop of `acquire_read`.
unfoldable pub try_read : Lock → Turn
try_read lock =
    if lock.writer || ltb 0 lock.waiting_writers
    then record { lock = lock; phase = read_asleep; notifies = false }
    else record {
      lock = record lock { readers = lock.readers + 1 };
      phase = reading;
      notifies = false;
    }

-- The loop of `acquire_write`, and its end.
unfoldable pub try_write : Lock → Turn
try_write lock =
    if lock.writer || ltb 0 lock.readers
    then record { lock = lock; phase = write_asleep; notifies = false }
    else record {
      lock = record lock { writer = true; waiting_writers = lock.waiting_writers - 1 };
      phase = writing;
      notifies = false;
    }

-- `release_read`
unfoldable pub release_read : Lock → Turn
release_read lock = record {
  lock = record lock { readers = lock.readers - 1 };
  phase = idle;
  notifies = nat_eqb (lock.readers - 1) 0;
}

-- `release_write`
unfoldable pub release_write : Lock → Turn
release_write lock = record { lock = record lock { writer = false }; phase = idle; notifies = true }

-- The turn of a thread; one that is asleep has none.
unfoldable pub turn : Wish → Lock → Phase → Option Turn
unfolding try_read try_write release_read release_write
turn to_read lock idle = some (try_read lock)
turn to_write lock idle =
    some (try_write (record lock { waiting_writers = lock.waiting_writers + 1 }))
turn wish lock read_asleep = none
turn wish lock read_awake = some (try_read lock)
turn wish lock reading = some (release_read lock)
turn wish lock write_asleep = none
turn wish lock write_awake = some (try_write lock)
turn wish lock writing = some (release_write lock)

-- What `notify_all` does to a thread.
abbrev pub wake : Phase → Phase
wake read_asleep = read_awake
wake write_asleep = write_awake
wake idle = idle
wake read_awake = read_awake
wake reading = reading
wake write_awake = write_awake
wake writing = writing

abbrev pub phase_at : ℕ → List Phase → Option Phase
phase_at i [] = none
phase_at zero (p ∷ threads) = some p
phase_at (suc i) (p ∷ threads) = phase_at i threads

abbrev pub with_phase : ℕ → Phase → List Phase → List Phase
with_phase i q [] = []
with_phase zero q (p ∷ threads) = q ∷ threads
with_phase (suc i) q (p ∷ threads) = p ∷ with_phase i q threads

-- The lock, and the threads.
pub record Threads : Type 0 where
  pub lock : Lock
  pub phases : List Phase

abbrev pub all_idle : ℕ → List Phase
all_idle zero = []
all_idle (suc n) = idle ∷ all_idle n

abbrev pub started : ℕ → Threads
started n = record { lock = new_lock; phases = all_idle n }

abbrev pub after : ℕ → Turn → List Phase → Threads
after i t phases = record {
  lock = t.lock;
  phases =
      if t.notifies then map wake (with_phase i t.phase phases) else with_phase i t.phase phases;
}

-- One thread has its turn.
pub data Step (s : Threads) : Threads → Type 0 where
  take_turn :
      (i : ℕ) (wish : Wish) (p : Phase) (t : Turn)
      → phase_at i s.phases ≡ some p
      → turn wish s.lock p ≡ some t
      → Step s (after i t s.phases)

-- The states that `n` threads come to, in any order of their turns.
pub data Reach (n : ℕ) : Threads → Type 0 where
  start : Reach n (started n)
  next : {s u : Threads} → Reach n s → Step s u → Reach n u
