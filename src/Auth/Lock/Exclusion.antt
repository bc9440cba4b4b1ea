-- ===== src/Auth/Lock/Exclusion.antt =====
-- Readers and writers, and the fields of the lock, in the states that threads come to.
use mlflow_integration.Shared.{
  false, ◌||◌, Option, none, some, List, ℕ, ◌+◌, ◌-◌, ◌≤◌, ◌<◌, if_intro, ltb, nat_eqb, map, ◌≡◌,
  refl, subst, arith,
}
use mlflow_integration.Auth.Lock.{
  Lock, new_lock, Phase, idle, read_asleep, read_awake, reading, write_asleep, write_awake, writing,
  Wish, to_read, to_write, Turn, try_read, try_write, release_read, release_write, turn, wake,
  phase_at, with_phase, Threads, all_idle, after, Step, take_turn, Reach, start, next,
}
use mlflow_integration.Auth.Lock.Census.{
  one, count, count-with_phase, one-le-count, count-wake, count_none, count-idle, is_reading,
  is_writing, is_waiting_writer, is_sleeping_reader, is_sleeping_writer,
}

pub record IsConsistent (lock : Lock) (phases : List Phase) : Type 0 where
  pub readers : lock.readers ≡ count is_reading phases
  pub waiting : lock.waiting_writers ≡ count is_waiting_writer phases
  pub writer : one lock.writer ≡ count is_writing phases
  pub exclusive : 0 < one lock.writer → lock.readers ≡ 0
  pub readers_sleep :
      0 < count is_sleeping_reader phases → 0 < one lock.writer + lock.waiting_writers
  pub writers_sleep : 0 < count is_sleeping_writer phases → 0 < one lock.writer + lock.readers

-- All threads are woken: only what the awake ones say of the fields matters.
wake-IsConsistent :
    (lock : Lock) (phases : List Phase)
    → lock.readers ≡ count is_reading phases
    → lock.waiting_writers ≡ count is_waiting_writer phases
    → one lock.writer ≡ count is_writing phases
    → (0 < one lock.writer → lock.readers ≡ 0)
    → IsConsistent lock (map wake phases)
wake-IsConsistent lock phases r w x e = record {
  readers = rw (count-wake is_reading is_reading phases same_reading) r;
  waiting = rw (count-wake is_waiting_writer is_waiting_writer phases same_waiting) w;
  writer = rw (count-wake is_writing is_writing phases same_writing) x;
  exclusive = e;
  readers_sleep = λ h. absurd (omega (arith, no_reader, h));
  writers_sleep = λ h. absurd (omega (arith, no_writer, h));
}
  where
    same_reading : (p : Phase) → is_reading (wake p) ≡ is_reading p
    same_reading idle = refl
    same_reading read_asleep = refl
    same_reading read_awake = refl
    same_reading reading = refl
    same_reading write_asleep = refl
    same_reading write_awake = refl
    same_reading writing = refl

    same_waiting : (p : Phase) → is_waiting_writer (wake p) ≡ is_waiting_writer p
    same_waiting idle = refl
    same_waiting read_asleep = refl
    same_waiting read_awake = refl
    same_waiting reading = refl
    same_waiting write_asleep = refl
    same_waiting write_awake = refl
    same_waiting writing = refl

    same_writing : (p : Phase) → is_writing (wake p) ≡ is_writing p
    same_writing idle = refl
    same_writing read_asleep = refl
    same_writing read_awake = refl
    same_writing reading = refl
    same_writing write_asleep = refl
    same_writing write_awake = refl
    same_writing writing = refl

    no_sleeping_reader : (p : Phase) → is_sleeping_reader (wake p) ≡ false
    no_sleeping_reader idle = refl
    no_sleeping_reader read_asleep = refl
    no_sleeping_reader read_awake = refl
    no_sleeping_reader reading = refl
    no_sleeping_reader write_asleep = refl
    no_sleeping_reader write_awake = refl
    no_sleeping_reader writing = refl

    no_sleeping_writer : (p : Phase) → is_sleeping_writer (wake p) ≡ false
    no_sleeping_writer idle = refl
    no_sleeping_writer read_asleep = refl
    no_sleeping_writer read_awake = refl
    no_sleeping_writer reading = refl
    no_sleeping_writer write_asleep = refl
    no_sleeping_writer write_awake = refl
    no_sleeping_writer writing = refl

    no_reader : count is_sleeping_reader (map wake phases) ≡ 0
    no_reader =
        rw (count-wake is_sleeping_reader (λ p. false) phases no_sleeping_reader)
          (count_none phases)

    no_writer : count is_sleeping_writer (map wake phases) ≡ 0
    no_writer =
        rw (count-wake is_sleeping_writer (λ p. false) phases no_sleeping_writer)
          (count_none phases)

module _ (i : ℕ) (lock : Lock) (phases : List Phase) (inv : IsConsistent lock phases) where
  abbrev Consistent : Turn → Type 0
  Consistent t = IsConsistent t.lock (after i t phases).phases

  -- A thread that neither holds the lock nor waits as a writer.
  abbrev IsOutside : Phase → Type 0
  IsOutside p =
      (is_reading p ≡ false)
      × (is_writing p ≡ false)
      × (is_waiting_writer p ≡ false)
      × (is_sleeping_writer p ≡ false)
      × (is_sleeping_reader p ≡ false)

  try_read-Consistent :
      (p : Phase) → phase_at i phases ≡ some p → IsOutside p → Consistent (try_read lock)
  unfolding try_read
  try_read-Consistent p h (a, b, c, d, e) =
      if_intro Consistent (lock.writer || ltb 0 lock.waiting_writers)
        (λ busy.
          let n1 = count-with_phase is_reading i p read_asleep phases h in
          let n2 = count-with_phase is_waiting_writer i p read_asleep phases h in
          let n3 = count-with_phase is_writing i p read_asleep phases h in
          let n4 = count-with_phase is_sleeping_writer i p read_asleep phases h in
          record {
            readers = ground (arith, inv.readers, a, n1);
            waiting = ground (arith, inv.waiting, c, n2);
            writer = ground (arith, inv.writer, b, n3);
            exclusive = inv.exclusive;
            readers_sleep = λ q. ground (arith, busy);
            writers_sleep = λ q. inv.writers_sleep (ground (arith, d, n4, q));
          })
        (λ free.
          let n1 = count-with_phase is_reading i p reading phases h in
          let n2 = count-with_phase is_waiting_writer i p reading phases h in
          let n3 = count-with_phase is_writing i p reading phases h in
          let n4 = count-with_phase is_sleeping_reader i p reading phases h in
          record {
            readers = ground (arith, inv.readers, a, n1);
            waiting = ground (arith, inv.waiting, c, n2);
            writer = ground (arith, inv.writer, b, n3);
            exclusive = λ q. ground (arith, free, q);
            readers_sleep =
                λ q. absurd (ground (arith, free, inv.readers_sleep (ground (arith, e, n4, q))));
            writers_sleep = λ q. ground (arith);
          })

  release_read-Consistent : phase_at i phases ≡ some reading → Consistent (release_read lock)
  unfolding release_read
  release_read-Consistent h =
      let n1 = count-with_phase is_reading i reading idle phases h in
      let n2 = count-with_phase is_waiting_writer i reading idle phases h in
      let n3 = count-with_phase is_writing i reading idle phases h in
      let n4 = count-with_phase is_sleeping_reader i reading idle phases h in
      let n5 = count-with_phase is_sleeping_writer i reading idle phases h in
      if_intro (IsConsistent (record lock { readers = lock.readers - 1 }))
        (nat_eqb (lock.readers - 1) 0)
        (λ last.
          wake-IsConsistent (record lock { readers = lock.readers - 1 }) (with_phase i idle phases)
            (omega (arith, inv.readers, n1)) (omega (arith, inv.waiting, n2))
            (omega (arith, inv.writer, n3)) (λ q. omega (arith, inv.exclusive q)))
        (λ more. record {
          readers = omega (arith, inv.readers, n1);
          waiting = omega (arith, inv.waiting, n2);
          writer = omega (arith, inv.writer, n3);
          exclusive = λ q. omega (arith, inv.exclusive q);
          readers_sleep = λ q. inv.readers_sleep (omega (arith, n4, q));
          writers_sleep = λ q. ground (arith, more);
        })

  release_write-Consistent : phase_at i phases ≡ some writing → Consistent (release_write lock)
  unfolding release_write
  release_write-Consistent h =
      let n1 = count-with_phase is_reading i writing idle phases h in
      let n2 = count-with_phase is_waiting_writer i writing idle phases h in
      let n3 = count-with_phase is_writing i writing idle phases h in
      wake-IsConsistent (record lock { writer = false }) (with_phase i idle phases)
        (omega (arith, inv.readers, n1)) (omega (arith, inv.waiting, n2))
        (ground (arith, inv.writer, n3)) (λ q. absurd (omega (arith, q)))

-- `acquire_write`, by a writer that is counted among those that wait: whether it was so before the turn or not, the
-- other threads are as they were.
module _ (i : ℕ) (lock : Lock) (phases : List Phase) (p : Phase)
    (h : phase_at i phases ≡ some p) where
  try_write-Consistent :
      lock.readers ≡ count is_reading phases
      → lock.waiting_writers + one (is_waiting_writer p) ≡ count is_waiting_writer phases + 1
      → one lock.writer ≡ count is_writing phases
      → (0 < one lock.writer → lock.readers ≡ 0)
      → (0 < count is_sleeping_writer phases → 0 < one lock.writer + lock.readers)
      → is_reading p ≡ false
      → is_writing p ≡ false
      → is_sleeping_writer p ≡ false
      → IsConsistent (try_write lock).lock (after i (try_write lock) phases).phases
  unfolding try_write
  try_write-Consistent r w x ex s a b d =
      if_intro (λ t. IsConsistent t.lock (after i t phases).phases)
        (lock.writer || ltb 0 lock.readers)
        (λ busy.
          let n1 = count-with_phase is_reading i p write_asleep phases h in
          let n2 = count-with_phase is_waiting_writer i p write_asleep phases h in
          let n3 = count-with_phase is_writing i p write_asleep phases h in
          record {
            readers = ground (arith, r, a, n1);
            waiting = ground (arith, w, n2);
            writer = ground (arith, x, b, n3);
            exclusive = ex;
            readers_sleep = λ q. omega (arith, w, one-le-count is_waiting_writer i p phases h);
            writers_sleep = λ q. ground (arith, busy);
          })
        (λ free.
          let n1 = count-with_phase is_reading i p writing phases h in
          let n2 = count-with_phase is_waiting_writer i p writing phases h in
          let n3 = count-with_phase is_writing i p writing phases h in
          record {
            readers = ground (arith, r, a, n1);
            waiting = ground (arith, w, n2);
            writer = ground (arith, x, b, n3, free);
            exclusive = λ q. ground (arith, free);
            readers_sleep = λ q. omega (arith);
            writers_sleep = λ q. omega (arith);
          })

abbrev OnTurn : (Turn → Type 0) → Option Turn → Type 0
OnTurn P none = Unit
OnTurn P (some t) = P t

turn-IsConsistent :
    (i : ℕ) (wish : Wish) (lock : Lock) (phases : List Phase) (p : Phase)
    → IsConsistent lock phases
    → phase_at i phases ≡ some p
    → OnTurn (λ t. IsConsistent t.lock (after i t phases).phases) (turn wish lock p)
unfolding turn
turn-IsConsistent i to_read lock phases idle inv h =
    try_read-Consistent i lock phases inv idle h (refl, refl, refl, refl, refl)
turn-IsConsistent i to_write lock phases idle inv h =
    try_write-Consistent i (record lock { waiting_writers = lock.waiting_writers + 1 }) phases idle
      h inv.readers (omega (arith, inv.waiting)) inv.writer inv.exclusive inv.writers_sleep refl
      refl refl
turn-IsConsistent i wish lock phases read_asleep inv h = tt
turn-IsConsistent i wish lock phases read_awake inv h =
    try_read-Consistent i lock phases inv read_awake h (refl, refl, refl, refl, refl)
turn-IsConsistent i wish lock phases reading inv h = release_read-Consistent i lock phases inv h
turn-IsConsistent i wish lock phases write_asleep inv h = tt
turn-IsConsistent i wish lock phases write_awake inv h =
    try_write-Consistent i lock phases write_awake h inv.readers (omega (arith, inv.waiting))
      inv.writer inv.exclusive inv.writers_sleep refl refl refl
turn-IsConsistent i wish lock phases writing inv h = release_write-Consistent i lock phases inv h

pub Step-IsConsistent :
    {s u : Threads} → Step s u → IsConsistent s.lock s.phases → IsConsistent u.lock u.phases
Step-IsConsistent {s} (take_turn i wish p t h e) inv =
    subst (OnTurn (λ t. IsConsistent t.lock (after i t s.phases).phases)) e
      (turn-IsConsistent i wish s.lock s.phases p inv h)

started-IsConsistent : (n : ℕ) → IsConsistent new_lock (all_idle n)
started-IsConsistent n = record {
  readers = omega (arith, count-idle is_reading n refl);
  waiting = omega (arith, count-idle is_waiting_writer n refl);
  writer = omega (arith, count-idle is_writing n refl);
  exclusive = λ q. refl;
  readers_sleep = λ q. absurd (omega (arith, count-idle is_sleeping_reader n refl, q));
  writers_sleep = λ q. absurd (omega (arith, count-idle is_sleeping_writer n refl, q));
}

-- In every state that threads come to, the fields of the lock count the threads that read, write and wait to write;
-- while one writes nobody reads; and a thread that sleeps waits for somebody.
pub Reach-IsConsistent : {n : ℕ} {s : Threads} → Reach n s → IsConsistent s.lock s.phases
Reach-IsConsistent {n} start = started-IsConsistent n
Reach-IsConsistent (next r st) = Step-IsConsistent st (Reach-IsConsistent r)

-- Whatever the order in which threads have their turns, at most one of them writes, and while it does none reads.
pub Reach-excludes :
    (n : ℕ) (s : Threads)
    → Reach n s
    → (count is_writing s.phases ≤ 1)
      × (0 < count is_writing s.phases → count is_reading s.phases ≡ 0)
Reach-excludes n s r =
    let inv = Reach-IsConsistent r in
    (
      ground (arith, inv.writer),
      λ q. omega (arith, inv.readers, inv.exclusive (omega (arith, inv.writer, q))),
    )
