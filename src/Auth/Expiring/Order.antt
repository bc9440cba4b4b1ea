-- ===== src/Auth/Expiring/Order.antt =====
-- What a reader of the cache may see after other threads' calls.
use mlflow_integration.Shared.{
  false, Option, some, [], ◌∷◌, ℕ, ◌+◌, ◌≤◌, ◌<◌, if◌then◌else◌, Eq, ◌==◌, Outcome, ok, raised, ◌≡◌,
  arith, ◌∙◌,
}
use mlflow_integration.Shared.Dict.{
  find, pop, IsDistinct, pop-IsDistinct, find-put, find-pop, find-IsFresh,
}
use mlflow_integration.Auth.Expiring.{
  Stored, live, judge, probe, purge, evict, store, set, discard, discard_found,
}
use mlflow_integration.Auth.Expiring.Entries.{purge-IsDistinct, evict-room, purge-IsFresh}

-- What is left of an entry under a key: the entry, or nothing.
abbrev IsLess : {V : Type 0} → Option (V × ℕ) → Option (V × ℕ) → Type 0
IsLess {V} after before = (x : V × ℕ) → after ≡ some x → before ≡ some x

-- What `set` may leave under another key: nothing, or the entry, if it has not expired.
abbrev pub IsKept : {V : Type 0} → ℕ → Option (V × ℕ) → Option (V × ℕ) → Type 0
IsKept {V} now after before = (x : V × ℕ) → after ≡ some x → (before ≡ some x) × (now < x.1)

module _ {K V : Type 0} ⦃e : Eq K⦄ where
  purge-IsLess :
      (now : ℕ) (j : K) (entries : Stored K V)
      → IsDistinct entries
      → IsLess (find j (purge now entries)) (find j entries)
  unfolding purge find
  purge-IsLess now j [] d x h = cc
  purge-IsLess now j ((i, (w, t)) ∷ entries) d x h = ground (
    arith,
    e.equal_iff i j,
    purge-IsLess now j entries d.1 x,
    find-IsFresh i (purge now entries) (purge-IsFresh now i entries d.0),
  )

  evict-IsLess :
      (m : ℕ) (j : K) (entries : Stored K V)
      → IsDistinct entries
      → IsLess (find j (evict m entries).1) (find j entries)
  unfolding evict find
  evict-IsLess m j [] d x h = ground arith
  evict-IsLess m j ((i, w) ∷ entries) d x h =
      ground (arith, e.equal_iff i j, evict-IsLess m j entries d.1 x, find-IsFresh i entries d.0)

  purge-unexpired :
      (now : ℕ) (j : K) (entries : Stored K V)
      → (x : V × ℕ) → find j (purge now entries) ≡ some x
      → now < x.1
  unfolding purge find
  purge-unexpired now j [] x h = cc
  purge-unexpired now j ((i, (w, t)) ∷ entries) x h =
      ground (arith, e.equal_iff i j, purge-unexpired now j entries x)

  stored-find :
      (key j : K) (value : V × ℕ) (r : Outcome (Unit {0}) × Stored K V)
      → r.0 ≡ ok tt
      → find j (store key value r).1 ≡ (if key == j then some value else find j r.1)
  unfolding store
  stored-find key j value (ok _, entries) h = find-put key j value entries
  stored-find key j value (raised f, entries) h = cc

  -- After `set` on a cache for at least one entry, in which no key has two, the key has the new value
  -- with the time to live, and under any other key there is nothing, or the entry that was there
  -- before, which has not expired.
  pub set-find :
      (ttl max_entries : ℕ) (key : K) (value : V) (now : ℕ) (entries : Stored K V)
      → 1 ≤ max_entries
      → IsDistinct entries
      → let after = (set ttl max_entries key value now entries).1 in
        (find key after ≡ some (value, now + ttl))
        × ((j : K) → (key == j) ≡ false → IsKept now (find j after) (find j entries))
  unfolding set
  set-find ttl m key value now entries h d =
      let left = pop key (purge now entries) in
      let purged = purge-IsDistinct now entries d in
      let room = (evict-room m left h).0 in
      (
        stored-find key key (value, now + ttl) (evict m left) room
            ∙ ground (arith, e.equal_iff key key),
        λ j other x k.
            let in_left =
              evict-IsLess m j left (pop-IsDistinct key _ purged) x
                (ground (arith, stored-find key j (value, now + ttl) (evict m left) room)) in
            let in_purged : find j (purge now entries) ≡ some x =
              ground (arith, find-pop key j (purge now entries)) in
            (purge-IsLess now j entries d x in_purged, purge-unexpired now j entries x in_purged),
      )

  -- What is live under any key when the second phase of `get` runs stays live, if the expiry that the
  -- first phase observed is not later: a value that another thread renewed is not removed.
  pub discard-live :
      (key j : K) (observed now : ℕ) (value : V) (entries : Stored K V)
      → observed ≤ now
      → probe j now entries ≡ live value
      → probe j now (discard key observed entries) ≡ live value
  unfolding probe discard discard_found judge
  discard-live key j observed now value entries h p =
      ground (arith, e.equal_iff key j, find-pop key j entries)
