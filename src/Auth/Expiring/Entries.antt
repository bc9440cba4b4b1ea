-- ===== src/Auth/Expiring/Entries.antt =====
-- The number of entries of the cache, and their keys.
use mlflow_integration.Shared.{
  Option, none, some, List, [], ◌∷◌, ℕ, zero, suc, ◌+◌, ◌≤◌, leb, length, Eq, Outcome, ok, raised,
  ◌≡◌, refl, arith, if_intro,
}
use mlflow_integration.Shared.Dict.{
  find, pop, IsFresh, IsDistinct, pop-IsDistinct, put-IsDistinct, length-put, length-pop,
}
use mlflow_integration.Auth.Expiring.{
  Stored, purge, evict, store, set, discard, discard_found, Phase, setting, discarding, run_phase,
  run,
}

module _ {K V : Type 0} ⦃e : Eq K⦄ where
  -- Every key has one entry, and there are at most `max_entries`.
  pub record IsBounded (max_entries : ℕ) (entries : Stored K V) : Type 0 where
    pub distinct : IsDistinct entries
    pub bounded : length entries ≤ max_entries

  pub purge-IsFresh :
      (now : ℕ) (key : K) (entries : Stored K V)
      → IsFresh key entries
      → IsFresh key (purge now entries)
  unfolding purge
  purge-IsFresh now key [] h = tt
  purge-IsFresh now key ((j, (w, t)) ∷ entries) h =
      ground (arith, purge-IsFresh now key entries h.1)

  pub purge-IsDistinct :
      (now : ℕ) (entries : Stored K V) → IsDistinct entries → IsDistinct (purge now entries)
  unfolding purge
  purge-IsDistinct now [] h = tt
  purge-IsDistinct now ((j, (w, t)) ∷ entries) h =
      ground (arith, purge-IsDistinct now entries h.1, purge-IsFresh now j entries h.0)

  pub evict-IsDistinct :
      (max_entries : ℕ) (entries : Stored K V)
      → IsDistinct entries
      → IsDistinct (evict max_entries entries).1
  unfolding evict
  evict-IsDistinct m [] h =
      if_intro (λ (r : Outcome (Unit {0}) × Stored K V). IsDistinct r.1) (leb m zero) (λ _. tt)
        (λ _. tt)
  evict-IsDistinct m (entry ∷ entries) h =
      if_intro (λ (r : Outcome (Unit {0}) × Stored K V). IsDistinct r.1)
        (leb m (length (entry ∷ entries))) (λ _. evict-IsDistinct m entries h.1) (λ _. h)

  -- With room for one entry, the loop ends without an exception, and leaves room for one more.
  pub evict-room :
      (max_entries : ℕ) (entries : Stored K V)
      → 1 ≤ max_entries
      → ((evict max_entries entries).0 ≡ ok tt)
        × (suc (length (evict max_entries entries).1) ≤ max_entries)
  unfolding evict
  evict-room m [] h = ground arith
  evict-room m (entry ∷ entries) h = ground (arith, evict-room m entries h)

  -- `set` returns, and the new entry fits.
  pub set-IsBounded :
      (ttl max_entries : ℕ) (key : K) (value : V) (now : ℕ) (entries : Stored K V)
      → 1 ≤ max_entries
      → IsDistinct entries
      → ((set ttl max_entries key value now entries).0 ≡ ok tt)
        × IsBounded max_entries (set ttl max_entries key value now entries).1
  unfolding set
  set-IsBounded ttl m key value now entries h d =
      let left = pop key (purge now entries) in
      by_evicted (evict m left) (evict-room m left h)
        (evict-IsDistinct m left (pop-IsDistinct key _ (purge-IsDistinct now entries d)))
    where
      by_evicted :
          (r : Outcome (Unit {0}) × Stored K V)
          → (r.0 ≡ ok tt) × (suc (length r.1) ≤ m)
          → IsDistinct r.1
          → ((store key (value, now + ttl) r).0 ≡ ok tt)
            × IsBounded m (store key (value, now + ttl) r).1
      by_evicted (ok _, kept) room w = (
        refl,
        record {
          distinct = put-IsDistinct key (value, now + ttl) kept w;
          bounded = omega (arith, room.1, length-put key (value, now + ttl) kept);
        },
      )
      by_evicted (raised f, kept) room w = absurd (cc room.0)

  discard_found-IsBounded :
      (m : ℕ) (key : K) (observed : ℕ) (o : Option (V × ℕ)) (entries : Stored K V)
      → IsBounded m entries
      → IsBounded m (discard_found key observed o entries)
  unfolding discard_found
  discard_found-IsBounded m key observed none entries v = v
  discard_found-IsBounded m key observed (some (value, t)) entries v =
      if_intro (IsBounded m) (leb t observed)
        (λ _. record {
          distinct = pop-IsDistinct key entries v.distinct;
          bounded = omega (arith, v.bounded, length-pop key entries);
        })
        (λ _. v)

  phase-IsBounded :
      (ttl m : ℕ) (phase : Phase K V) (entries : Stored K V)
      → 1 ≤ m
      → IsBounded m entries
      → IsBounded m (run_phase ttl m phase entries)
  unfolding run_phase discard
  phase-IsBounded ttl m (setting key value now) entries h v =
      (set-IsBounded ttl m key value now entries h v.distinct).1
  phase-IsBounded ttl m (discarding key observed) entries h v =
      discard_found-IsBounded m key observed (find key entries) entries v

  -- However the phases of the threads' `get` and `set` calls interleave, at whatever times, the cache
  -- keeps one entry for a key and at most `max_entries` entries, if that is at least one.
  pub run-IsBounded :
      (ttl max_entries : ℕ) (phases : List (Phase K V)) (entries : Stored K V)
      → 1 ≤ max_entries
      → IsBounded max_entries entries
      → IsBounded max_entries (run ttl max_entries phases entries)
  unfolding run
  run-IsBounded ttl m [] entries h v = v
  run-IsBounded ttl m (phase ∷ phases) entries h v =
      run-IsBounded ttl m phases (run_phase ttl m phase entries) h
        (phase-IsBounded ttl m phase entries h v)
