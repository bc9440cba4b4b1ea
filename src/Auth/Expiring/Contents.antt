-- ===== src/Auth/Expiring/Contents.antt =====
-- Properties of the entries of the cache, and of what it returns.
use mlflow_integration.Shared.{
  Option, none, some, [], ◌∷◌, ℕ, zero, ◌+◌, leb, length, Eq, Outcome, ok, raised, ◌≡◌, arith,
  if_intro,
}
use mlflow_integration.Shared.Dict.{find, pop, Entries, put-Entries, pop-Entries, find-Entries}
use mlflow_integration.Auth.Expiring.{
  Stored, live, judge, probe, purge, evict, store, set, discard, discard_found,
}

module _ {K V : Type 0} ⦃e : Eq K⦄ (P : K → V × ℕ → Type 0) where
  purge-Entries :
      (now : ℕ) (entries : Stored K V) → Entries P entries → Entries P (purge now entries)
  unfolding purge
  purge-Entries now [] h = tt
  purge-Entries now ((j, (w, t)) ∷ entries) h = ground (arith, purge-Entries now entries h.1)

  evict-Entries : (m : ℕ) (entries : Stored K V) → Entries P entries → Entries P (evict m entries).1
  unfolding evict
  evict-Entries m [] h =
      if_intro (λ (r : Outcome (Unit {0}) × Stored K V). Entries P r.1) (leb m zero) (λ _. tt)
        (λ _. tt)
  evict-Entries m (entry ∷ entries) h =
      if_intro (λ (r : Outcome (Unit {0}) × Stored K V). Entries P r.1)
        (leb m (length (entry ∷ entries))) (λ _. evict-Entries m entries h.1) (λ _. h)

  store-Entries :
      (key : K) (value : V × ℕ) (r : Outcome (Unit {0}) × Stored K V)
      → P key value
      → Entries P r.1
      → Entries P (store key value r).1
  unfolding store
  store-Entries key value (ok _, entries) p h = put-Entries P key value entries p h
  store-Entries key value (raised f, entries) p h = h

  -- `set` keeps what holds of every entry, if it holds of the new one.
  pub set-Entries :
      (ttl m : ℕ) (key : K) (value : V) (now : ℕ) (entries : Stored K V)
      → P key (value, now + ttl)
      → Entries P entries
      → Entries P (set ttl m key value now entries).1
  unfolding set
  set-Entries ttl m key value now entries p h =
      store-Entries key (value, now + ttl) (evict m (pop key (purge now entries))) p
        (evict-Entries m _ (pop-Entries P key _ (purge-Entries now entries h)))

  discard_found-Entries :
      (key : K) (observed : ℕ) (o : Option (V × ℕ)) (entries : Stored K V)
      → Entries P entries
      → Entries P (discard_found key observed o entries)
  unfolding discard_found
  discard_found-Entries key observed none entries h = h
  discard_found-Entries key observed (some (value, t)) entries h =
      if_intro (Entries P) (leb t observed) (λ _. pop-Entries P key entries h) (λ _. h)

  pub discard-Entries :
      (key : K) (observed : ℕ) (entries : Stored K V)
      → Entries P entries
      → Entries P (discard key observed entries)
  unfolding discard
  discard-Entries key observed entries h =
      discard_found-Entries key observed (find key entries) entries h

  judge-live :
      (now : ℕ) (o : Option (V × ℕ)) (value : V)
      → judge now o ≡ live value
      → (t : ℕ) × (o ≡ some (value, t))
  unfolding judge
  judge-live now none value h = cc
  judge-live now (some (w, t)) value h = (t, ground arith)

  -- A value that `get` returns is that of an entry.
  pub probe-Entries :
      (key : K) (now : ℕ) (entries : Stored K V) (value : V)
      → Entries P entries
      → probe key now entries ≡ live value
      → (t : ℕ) × P key (value, t)
  unfolding probe
  probe-Entries key now entries value h p =
      let (t, found) = judge-live now (find key entries) value p in
      (t, find-Entries P key entries h found)
