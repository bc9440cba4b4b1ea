-- ===== src/Auth/Expiring.antt =====
-- auth/authorizer.py, `_ExpiringCache`: an `OrderedDict` from keys to values with the time at which
-- they expire. A time is a number of clock ticks. Each phase below runs under one of the two locks,
-- and other threads may run phases in between.
pub mod Entries
pub mod Order
pub mod Contents
use mlflow_integration.Shared.{
  Bool, true, false, Option, none, some, List, [], ◌∷◌, ℕ, zero, ◌+◌, if◌then◌else◌, ltb, leb,
  length, Eq, Outcome, ok, raised, unexpected,
}
use mlflow_integration.Shared.Dict.{Dict, find, put, pop}

-- What the phase of `get` under the read lock found: no entry, the value of an entry that has not
-- expired, or the time at which the entry expired.
pub data Probe (V : Type 0) : Type 0 where
  absent : Probe V
  live : V → Probe V
  expired : ℕ → Probe V

abbrev pub Stored : Type 0 → Type 0 → Type 0
Stored K V = Dict K (V × ℕ)

-- What threads do to the entries, phase by phase.
pub data Phase (K V : Type 0) : Type 0 where
  setting : K → V → ℕ → Phase K V
  discarding : K → ℕ → Phase K V

pub judge : {V : Type 0} → ℕ → Option (V × ℕ) → Probe V
judge now none = absent
judge now (some (value, expires_at)) = if ltb now expires_at then live value else expired expires_at

module _ {K V : Type 0} where
  -- The removal of `expired_keys`.
  unfoldable pub purge : ℕ → Stored K V → Stored K V
  purge now [] = []
  purge now ((key, (value, expires_at)) ∷ entries) =
      let rest = purge now entries in
      if leb expires_at now then rest else (key, (value, expires_at)) ∷ rest

  -- The `while` loop; `popitem` raises where there is no entry.
  unfoldable pub evict : ℕ → Stored K V → Outcome (Unit {0}) × Stored K V
  evict max_entries [] = if leb max_entries zero then (raised unexpected, []) else (ok tt, [])
  evict max_entries (entry ∷ entries) =
      let rest = evict max_entries entries in
      if leb max_entries (length (entry ∷ entries)) then rest else (ok tt, entry ∷ entries)

module _ {K V : Type 0} ⦃e : Eq K⦄ where
  -- `get`, the phase under the read lock.
  unfoldable pub probe : K → ℕ → Stored K V → Probe V
  unfolding judge
  probe key now entries = judge now (find key entries)

  pub discard_found : K → ℕ → Option (V × ℕ) → Stored K V → Stored K V
  discard_found key observed none entries = entries
  discard_found key observed (some (value, current)) entries =
      if leb current observed then pop key entries else entries

  -- `get`, the phase under the write lock: the entry may have been renewed meanwhile.
  unfoldable pub discard : K → ℕ → Stored K V → Stored K V
  unfolding discard_found
  discard key observed entries = discard_found key observed (find key entries) entries

  pub store : K → V × ℕ → Outcome (Unit {0}) × Stored K V → Outcome (Unit {0}) × Stored K V
  store key value (ok _, entries) = (ok tt, put key value entries)
  store key value (raised failure, entries) = (raised failure, entries)

  -- `set`, at a time `now`.
  unfoldable pub set : ℕ → ℕ → K → V → ℕ → Stored K V → Outcome (Unit {0}) × Stored K V
  unfolding evict store
  set ttl max_entries key value now entries =
      store key (value, now + ttl) (evict max_entries (pop key (purge now entries)))

  unfoldable pub run_phase : ℕ → ℕ → Phase K V → Stored K V → Stored K V
  run_phase ttl max_entries (setting key value now) entries =
      (set ttl max_entries key value now entries).1
  run_phase ttl max_entries (discarding key observed) entries = discard key observed entries

  unfoldable pub run : ℕ → ℕ → List (Phase K V) → Stored K V → Stored K V
  unfolding run_phase
  run ttl max_entries [] entries = entries
  run ttl max_entries (phase ∷ phases) entries =
      run ttl max_entries phases (run_phase ttl max_entries phase entries)
