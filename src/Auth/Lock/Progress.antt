-- ===== src/Auth/Lock/Progress.antt =====
-- The turns that are left to threads, from the states that they come to.
use mlflow_integration.Shared.{
  some, ℕ, zero, suc, ◌+◌, ◌<◌, ltb, ◌≡◌, refl, ap, ◌∙◌, arith, Bool-cases, inl, inr,
}
use mlflow_integration.Auth.Lock.{
  read_awake, reading, write_awake, writing, to_read, release_read, release_write, turn, phase_at,
  Threads, Step, Reach,
}
use mlflow_integration.Auth.Lock.Census.{
  one, count, count-with_phase, is_reading, is_writing, is_sleeping_reader, is_sleeping_writer,
}
use mlflow_integration.Auth.Lock.Exclusion.{IsConsistent, Reach-IsConsistent}
use mlflow_integration.Auth.Lock.Turns.{
  is_busy, is_awake_reader, is_awake_writer, find_thread, busy_parts, waiting_parts, turn-busy,
  reading-eq, writing-eq, awake_reader-eq, awake_writer-eq, try_read-free, try_write-free,
  acquired_read, acquired_write,
}

-- Turns lead from a state to `u`.
pub data LeadsTo (u : Threads) : Threads → Type 0 where
  done : LeadsTo u u
  first : {s t : Threads} → Step s t → LeadsTo u t → LeadsTo u s

-- Every thread is outside.
abbrev pub IsQuiet : Threads → Type 0
IsQuiet s = count is_busy s.phases ≡ 0

-- A turn after which one thread less is busy.
abbrev Released : Threads → Type 0
Released s =
    (u : Threads) × Step s u
    × (IsConsistent u.lock u.phases × (count is_busy u.phases + 1 ≡ count is_busy s.phases))

-- A turn after which the lock is held.
abbrev Acquired : Threads → Type 0
Acquired s =
    (u : Threads) × Step s u
    × (IsConsistent u.lock u.phases
        × ((count is_busy u.phases ≡ count is_busy s.phases)
            × (0 < count is_reading u.phases + count is_writing u.phases)))

module _ (s : Threads) (inv : IsConsistent s.lock s.phases) where
  release_reader : 0 < count is_reading s.phases → Released s
  unfolding turn release_read
  release_reader h =
      let (i, p, (at, e)) = find_thread is_reading s.phases h in
      let held : phase_at i s.phases ≡ some reading = at ∙ ap some (reading-eq p e) in
      let (u, st, (kept, (_, busy))) =
        turn-busy s i reading to_read (release_read s.lock) inv held refl in
      (u, st, (kept, omega (arith, busy)))

  release_writer : 0 < count is_writing s.phases → Released s
  unfolding turn release_write
  release_writer h =
      let (i, p, (at, e)) = find_thread is_writing s.phases h in
      let held : phase_at i s.phases ≡ some writing = at ∙ ap some (writing-eq p e) in
      let (u, st, (kept, (_, busy))) =
        turn-busy s i writing to_read (release_write s.lock) inv held refl in
      (u, st, (kept, omega (arith, busy)))

  release_one : 0 < count is_reading s.phases + count is_writing s.phases → Released s
  release_one h = elim (Bool-cases (ltb 0 (count is_reading s.phases))) [
    | inl r ↦ release_reader (ground (arith, r))
    | inr n ↦ release_writer (ground (arith, n, h))
  ]

  acquire_writer :
      one s.lock.writer ≡ 0 → s.lock.readers ≡ 0 → 0 < count is_awake_writer s.phases → Acquired s
  unfolding turn
  acquire_writer w r h =
      let (i, p, (at, e)) = find_thread is_awake_writer s.phases h in
      let there : phase_at i s.phases ≡ some write_awake = at ∙ ap some (awake_writer-eq p e) in
      let (u, st, (kept, (same, busy))) =
        turn-busy s i write_awake to_read (acquired_write s.lock) inv there
          (ap some (try_write-free s.lock w r)) in
      let held = count-with_phase is_writing i write_awake writing s.phases there in
      (u, st, (kept, (omega (arith, busy), rw same (omega (arith, held)))))

  acquire_reader :
      one s.lock.writer ≡ 0
      → s.lock.waiting_writers ≡ 0
      → 0 < count is_awake_reader s.phases
      → Acquired s
  unfolding turn
  acquire_reader w r h =
      let (i, p, (at, e)) = find_thread is_awake_reader s.phases h in
      let there : phase_at i s.phases ≡ some read_awake = at ∙ ap some (awake_reader-eq p e) in
      let (u, st, (kept, (same, busy))) =
        turn-busy s i read_awake to_read (acquired_read s.lock) inv there
          (ap some (try_read-free s.lock w r)) in
      let held = count-with_phase is_reading i read_awake reading s.phases there in
      (u, st, (kept, (omega (arith, busy), rw same (omega (arith, held)))))

  acquire_one :
      count is_reading s.phases + count is_writing s.phases ≡ 0
      → 0 < count is_busy s.phases
      → Acquired s
  acquire_one none_holds h =
      let w : one s.lock.writer ≡ 0 = omega (arith, inv.writer, none_holds) in
      let r : s.lock.readers ≡ 0 = omega (arith, inv.readers, none_holds) in
      elim (Bool-cases (ltb 0 (count is_awake_writer s.phases))) [
        | inl a ↦ acquire_writer w r (ground (arith, a))
        | inr n ↦
            let q : count is_awake_writer s.phases ≡ 0 = ground (arith, n) in
            let sw : count is_sleeping_writer s.phases ≡ 0 = by_sleep _ w r inv.writers_sleep in
            let m : s.lock.waiting_writers ≡ 0 =
              omega (arith, inv.waiting, waiting_parts s.phases, q, sw) in
            let sr : count is_sleeping_reader s.phases ≡ 0 = by_sleep _ w m inv.readers_sleep in
            acquire_reader w m (omega (arith, busy_parts s.phases, h, none_holds, q, sw, sr))
      ]
    where
      by_sleep :
          (n : ℕ) {k : ℕ}
          → one s.lock.writer ≡ 0
          → k ≡ 0
          → (0 < n → 0 < one s.lock.writer + k)
          → n ≡ 0
      by_sleep zero w r f = refl
      by_sleep (suc n) w r f = absurd (omega (arith, w, r, f (omega arith)))

-- From a consistent state, as many releases as there are busy threads, each after an acquisition if nobody holds the
-- lock, leave every thread outside.
drain :
    (n : ℕ) (s : Threads)
    → IsConsistent s.lock s.phases
    → count is_busy s.phases ≡ n
    → (u : Threads) × LeadsTo u s × IsQuiet u
drain zero s inv h = (s, done, h)
drain (suc n) s inv h =
    elim (Bool-cases (ltb 0 (count is_reading s.phases + count is_writing s.phases))) [
      | inl held ↦
          let (t, st, (kept, less)) = release_one s inv (ground (arith, held)) in
          let (u, path, quiet) = drain n t kept (omega (arith, less, h)) in
          (u, first st path, quiet)
      | inr free ↦
          let (t, st, (kept, (same, held))) =
            acquire_one s inv (ground (arith, free)) (omega (arith, h)) in
          let (v, st', (kept', less)) = release_one t kept held in
          let (u, path, quiet) = drain n v kept' (omega (arith, less, same, h)) in
          (u, first st (first st' path), quiet)
    ]

-- From every state that threads come to, in whatever order they had their turns, some further turns lead to a state in
-- which no thread holds the lock or waits for it.
pub Reach-drains : (n : ℕ) (s : Threads) → Reach n s → (u : Threads) × LeadsTo u s × IsQuiet u
Reach-drains n s r = drain (count is_busy s.phases) s (Reach-IsConsistent r) refl
