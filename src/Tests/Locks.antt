-- ===== src/Tests/Locks.antt =====
-- Two threads and the lock: one reads, and the other waits to write.
use mlflow_integration.Shared.{false, some, [], ◌∷◌, ◌≤◌, ◌<◌, ◌≡◌, refl}
use mlflow_integration.Auth.Lock.{
  idle, read_asleep, reading, write_asleep, to_read, to_write, Turn, turn, Threads, take_turn,
  Reach, start, next,
}
use mlflow_integration.Auth.Lock.Census.{count, is_reading, is_writing}
use mlflow_integration.Auth.Lock.Exclusion.{Reach-excludes}
use mlflow_integration.Auth.Lock.Progress.{LeadsTo, IsQuiet, Reach-drains}

abbrev read_once : Turn
read_once = record {
  lock = record { readers = 1; writer = false; waiting_writers = 0 };
  phase = reading;
  notifies = false;
}

abbrev waiting_once : Turn
waiting_once = record {
  lock = record { readers = 1; writer = false; waiting_writers = 1 };
  phase = write_asleep;
  notifies = false;
}

abbrev contended : Threads
contended = record {
  lock = record { readers = 1; writer = false; waiting_writers = 1 };
  phases = reading ∷ write_asleep ∷ [];
}

contended-reached : Reach 2 contended
unfolding turn
contended-reached =
    next (next start (take_turn 0 to_read idle read_once refl refl))
      (take_turn 1 to_write idle waiting_once refl refl)

-- A reader that comes now sleeps, since a writer waits.
new_reader-sleeps :
    turn to_read contended.lock idle
    ≡ some (record { lock = contended.lock; phase = read_asleep; notifies = false })
unfolding turn
new_reader-sleeps = refl

Reach-excludes_example :
    (count is_writing contended.phases ≤ 1)
    × (0 < count is_writing contended.phases → count is_reading contended.phases ≡ 0)
Reach-excludes_example = Reach-excludes 2 contended contended-reached

Reach-drains_example : (u : Threads) × LeadsTo u contended × IsQuiet u
Reach-drains_example = Reach-drains 2 contended contended-reached
