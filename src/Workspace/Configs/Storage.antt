-- ===== src/Workspace/Configs/Storage.antt =====
-- The answer `None` of `MlflowConfigCache.get_config`.
use mlflow_integration.Shared.{
  String, Bool, true, false, Option, none, some, List, [], ℕ, if◌then◌else◌, string_eq, nat_eqb,
  Outcome, ok, raised, api, http, Failure, ◌≡◌, refl, subst, arith, if_intro, Bool-cases, inl, inr,
  ◌⊎◌,
}
use mlflow_integration.Shared.Dict.{Dict, find}
use mlflow_integration.Shared.Json.{Fields}
use mlflow_integration.Shared.Action.{Action, ◌>>=◌, pure, lift, gets, continue-eq-ok}
use mlflow_integration.Shared.{ok_injective}
use mlflow_integration.Workspace.Manifest.{Listing}
use mlflow_integration.Workspace.Configs.{
  ConfigInfo, ConfigCache, ensure_if, ensure_secret_cache, refresh_full, refresh_failed,
  lookup_configs, lookup_from, try_reload,
}
use mlflow_integration.Workspace.Configs.Requests.{
  Answers, wait_until_ready, verify_config, or_else, cached, miss_config, get_config, wants_secret,
}

-- A reload that found the CRD unavailable: it is absent, or it may not be listed.
abbrev pub IsDenied : Outcome (Listing Fields) → Type 0
IsDenied answer = (answer ≡ raised (api 404)) ⊎ (answer ≡ raised (api 403))

-- A lookup that found nothing: the CRD is absent, or the returned list holds no such configuration.
abbrev pub IsUnlisted : String → Outcome (List Fields) → Type 0
IsUnlisted namespace answer =
    (answer ≡ raised (api 404))
    ⊎ ((items : List Fields) × (answer ≡ ok items)
        × (find namespace (lookup_from (some namespace) [] items) ≡ none))

status_is :
    {A : Type 0} (status n : ℕ)
    → nat_eqb status n ≡ true
    → ◌≡◌ {A = Outcome A} (raised (api status)) (raised (api n))
status_is status n h = ground arith

lookup-IsUnlisted :
    (namespace : String) (answer : Outcome (List Fields)) (configs : Dict String ConfigInfo)
    → lookup_configs (some namespace) answer ≡ ok configs
    → find namespace configs ≡ none
    → IsUnlisted namespace answer
unfolding lookup_configs
lookup-IsUnlisted namespace (ok items) configs h m = inr (items, refl, rw (ok_injective h) m)
lookup-IsUnlisted namespace (raised (api status)) configs h m =
    elim (Bool-cases (nat_eqb status 404)) [
      | inl absent ↦ inl (status_is status 404 absent)
      | inr other ↦ absurd (ground arith)
    ]
lookup-IsUnlisted namespace (raised http) configs h m = cc
lookup-IsUnlisted namespace (raised _) configs h m = cc

verify-IsUnlisted :
    (answers : Answers) (namespace : String) (c : ConfigCache)
    → (verify_config answers namespace c).0 ≡ ok none
    → IsUnlisted namespace (answers.lookup (some namespace))
unfolding verify_config
verify-IsUnlisted answers namespace c h =
    let (configs, found, rest) =
      continue-eq-ok _ (lift (lookup_configs (some namespace) (answers.lookup (some namespace))) c)
        h in
    let (u, ensured, last) =
      continue-eq-ok _ (ensure_if (wants_secret (find namespace configs)) answers.create c) rest in
    lookup-IsUnlisted namespace (answers.lookup (some namespace)) configs found (ok_injective last)

refresh_failed-IsDenied :
    (failure : Failure) (c : ConfigCache) (b : Bool)
    → (refresh_failed true failure c).0 ≡ ok b
    → IsDenied (raised failure)
unfolding refresh_failed
refresh_failed-IsDenied (api status) c b h = elim (Bool-cases (nat_eqb status 404)) [
  | inl absent ↦ inl (status_is status 404 absent)
  | inr present ↦ elim (Bool-cases (nat_eqb status 403)) [
    | inl denied ↦ inr (status_is status 403 denied)
    | inr other ↦ absurd (ground arith)
  ]
]
refresh_failed-IsDenied _ c b h = cc

refreshed-available :
    (response : Listing Fields) (create : Outcome (Unit {0})) (c : ConfigCache) (b : Bool)
    → (refresh_full true (ok response) create c).0 ≡ ok b
    → (refresh_full true (ok response) create c).1.crd_available ≡ true
unfolding refresh_full ensure_secret_cache
refreshed-available response create c b h = ground arith

-- A reload says that the CRD is unavailable only if the API answered 404 or 403.
try_reload-IsDenied :
    (answer : Outcome (Listing Fields)) (create : Outcome (Unit {0})) (c : ConfigCache)
    → (try_reload answer create c).0 ≡ ok false
    → IsDenied answer
unfolding try_reload
try_reload-IsDenied (raised failure) create c h =
    let (b, returned, rest) = continue-eq-ok _ (refresh_full true (raised failure) create c) h in
    refresh_failed-IsDenied failure c b (unfold refresh_full in returned)
try_reload-IsDenied (ok response) create c h =
    let (b, returned, rest) = continue-eq-ok _ (refresh_full true (ok response) create c) h in
    absurd (cc (refreshed-available response create c b returned, rest))

miss-reason :
    (answers : Answers) (namespace : String) (available : Bool) (c : ConfigCache)
    → (miss_config answers namespace available c).0 ≡ ok none
    → ((available ≡ false) × IsDenied answers.reload)
      ⊎ IsUnlisted namespace (answers.lookup (some namespace))
unfolding miss_config
miss-reason answers namespace true c h = inr (verify-IsUnlisted answers namespace c h)
miss-reason answers namespace false c h =
    let (found, returned, rest) = continue-eq-ok _ (try_reload answers.reload answers.create c) h in
    by_found found returned rest
  where
    after : Action ConfigCache (Option ConfigInfo)
    after = gets (cached namespace) >>= λ info. or_else info (verify_config answers namespace)

    looked :
        (d : ConfigCache) (o : Option ConfigInfo)
        → (or_else o (verify_config answers namespace) d).0 ≡ ok none
        → IsUnlisted namespace (answers.lookup (some namespace))
    looked d none k = verify-IsUnlisted answers namespace d k
    looked d (some info) k = cc

    by_found :
        (found : Bool)
        → (try_reload answers.reload answers.create c).0 ≡ ok found
        → ((if found then after else pure none) (try_reload answers.reload answers.create c).1).0
          ≡ ok none
        → ((false ≡ false) × IsDenied answers.reload)
          ⊎ IsUnlisted namespace (answers.lookup (some namespace))
    by_found true returned rest = inr (looked _ _ rest)
    by_found false returned rest =
        inl (refl, try_reload-IsDenied answers.reload answers.create c returned)

wait_same : (c : ConfigCache) → (wait_until_ready c).1 ≡ c
wait_same c =
    if_intro (λ (r : Outcome (Unit {0}) × ConfigCache). r.1 ≡ c) c.ready (λ _. refl) (λ _. refl)

-- `get_config` returns `None`, which selects the default storage, only if the namespace is not
-- cached and Kubernetes has said so: the CRD was unavailable and a reload met a 404 or a 403, or a
-- lookup of the namespace met a 404 or a list without it.
pub get_config-none :
    (answers : Answers) (namespace : String) (c : ConfigCache)
    → (get_config answers namespace c).0 ≡ ok none
    → (find namespace c.configs ≡ none)
      × (((c.crd_available ≡ false) × IsDenied answers.reload)
          ⊎ IsUnlisted namespace (answers.lookup (some namespace)))
unfolding get_config
get_config-none answers namespace c h =
    let (u, waited, rest) = continue-eq-ok _ (wait_until_ready c) h in
    by_cache (find namespace c.configs) (subst After (wait_same c) rest)
  where
    After : ConfigCache → Type 0
    After d =
        (or_else (cached namespace d) (miss_config answers namespace d.crd_available) d).0 ≡ ok none

    by_cache :
        (o : Option ConfigInfo)
        → (or_else o (miss_config answers namespace c.crd_available) c).0 ≡ ok none
        → (o ≡ none)
          × (((c.crd_available ≡ false) × IsDenied answers.reload)
              ⊎ IsUnlisted namespace (answers.lookup (some namespace)))
    by_cache none k = (refl, miss-reason answers namespace c.crd_available c k)
    by_cache (some info) k = cc
