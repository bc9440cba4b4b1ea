-- ===== src/Workspace/Configs/Requests.antt =====
-- caches.py, `MlflowConfigCache.get_config` and `get_configs`. A request runs as one step: what other
-- threads do to the cache in between is not modelled.
use mlflow_integration.Shared.{
  String, Bool, true, false, Option, none, some, List, [], ◌∷◌, if◌then◌else◌, string_eq, Outcome,
  ok, raised, mlflow, internal_error, contains, all, any, is_some,
}
use mlflow_integration.Shared.Action.{Action, ◌>>=◌, ◌>>◌, pure, lift, gets}
use mlflow_integration.Shared.Dict.{Dict, find}
use mlflow_integration.Shared.Json.{Fields}
use mlflow_integration.Workspace.Manifest.{Listing}
use mlflow_integration.Workspace.Configs.{
  ConfigInfo, ConfigCache, uses_secret, ensure_if, try_reload, lookup_configs,
}

-- What the environment answers to one request: the list calls of a reload, of a lookup with and
-- without a namespace, and the creation of the secret cache.
pub record Answers : Type 0 where
  pub reload : Outcome (Listing Fields)
  pub lookup : Option String → Outcome (List Fields)
  pub create : Outcome (Unit {0})

-- `_wait_until_ready`
abbrev pub wait_until_ready : Action ConfigCache (Unit {0})
wait_until_ready c = if c.ready then (ok tt, c) else (raised (mlflow internal_error), c)

-- `info is not None and self._uses_artifact_connection_secret(info)`
abbrev pub wants_secret : Option ConfigInfo → Bool
wants_secret none = false
wants_secret (some info) = uses_secret info

-- The end of `get_config`: ask Kubernetes about the one namespace.
unfoldable pub verify_config : Answers → String → Action ConfigCache (Option ConfigInfo)
verify_config answers namespace = do
  configs ← lift (lookup_configs (some namespace) (answers.lookup (some namespace)))
  ensure_if (wants_secret (find namespace configs)) answers.create
  pure (find namespace configs)

-- `if info is not None: return info`
abbrev pub or_else :
    Option ConfigInfo
    → Action ConfigCache (Option ConfigInfo)
    → Action ConfigCache (Option ConfigInfo)
or_else (some info) m = pure (some info)
or_else none m = m

abbrev pub cached : String → ConfigCache → Option ConfigInfo
cached namespace c = find namespace c.configs

-- `get_config`, where the namespace was not in the cache.
unfoldable pub miss_config : Answers → String → Bool → Action ConfigCache (Option ConfigInfo)
miss_config answers namespace true = verify_config answers namespace
miss_config answers namespace false = do
  available ← try_reload answers.reload answers.create
  if available
      then (do info ← gets (cached namespace); or_else info (verify_config answers namespace))
      else pure none

-- `get_config`
unfoldable pub get_config : Answers → String → Action ConfigCache (Option ConfigInfo)
get_config answers namespace = do
  wait_until_ready
  info ← gets (cached namespace)
  available ← gets (λ c. c.crd_available)
  or_else info (miss_config answers namespace available)

-- `{name: info for name, info in configs.items() if name in requested}`
unfoldable pub restrict : List String → Dict String ConfigInfo → Dict String ConfigInfo
restrict requested [] = []
restrict requested ((name, info) ∷ configs) =
    let rest = restrict requested configs in
    if contains requested name then (name, info) ∷ rest else rest

-- `requested.issubset(configs)`
abbrev pub covers : List String → Dict String ConfigInfo → Bool
covers requested configs = all (λ name. is_some (find name configs)) requested

-- The end of `get_configs`: one cluster-wide list.
unfoldable pub verify_configs : Answers → List String → Action ConfigCache (Dict String ConfigInfo)
verify_configs answers requested = do
  listed ← lift (lookup_configs none (answers.lookup none))
  ensure_if (any (λ entry. uses_secret entry.1) (restrict requested listed)) answers.create
  pure (restrict requested listed)

-- `get_configs`, where a requested namespace was not in the cache.
unfoldable pub miss_configs :
    Answers → List String → Bool → Action ConfigCache (Dict String ConfigInfo)
miss_configs answers requested true = verify_configs answers requested
miss_configs answers requested false = do
  available ← try_reload answers.reload answers.create
  if available then gets (λ c. restrict requested c.configs) else pure []

-- `get_configs`
unfoldable pub get_configs : Answers → List String → Action ConfigCache (Dict String ConfigInfo)
get_configs answers requested = do
  wait_until_ready
  configs ← gets (λ c. restrict requested c.configs)
  available ← gets (λ c. c.crd_available)
  if covers requested configs then pure configs else miss_configs answers requested available
