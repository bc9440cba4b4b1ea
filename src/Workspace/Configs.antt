-- ===== src/Workspace/Configs.antt =====
-- caches.py, `MlflowConfigCache`: the MLflowConfig objects by namespace. The CRD is optional: while
-- it is absent or may not be listed, the cache is empty and `crd_available` is false.
-- What the API answers to a call is a parameter of the call. So is what the owner's callback does
-- when it has to create the shared SecretCache; `secret_cache` says whether it runs.
pub mod Requests
pub mod Invariant
pub mod Storage
pub mod Agreement
pub mod Watch
use mlflow_integration.Shared.{
  String, Bool, true, false, ◌&&◌, ◌||◌, not, Option, none, some, List, [], ◌∷◌, ℕ, if◌then◌else◌,
  string_eq, nat_eqb, ◌==◌, Outcome, ok, raised, mlflow, api, http, ErrorCode, internal_error,
  permission_denied, unauthenticated, Failure, contains, all, any, is_some,
}
use mlflow_integration.Shared.Action.{Action, ◌>>=◌, ◌>>◌, pure, raise, lift, gets, modify}
use mlflow_integration.Shared.Dict.{Dict, find, put, pop}
use mlflow_integration.Shared.Text.{nonempty}
use mlflow_integration.Shared.Json
use mlflow_integration.Shared.Json.{
  Json, null, boolean, number, text, array, object, as_text, as_object, Fields, end,
}
use mlflow_integration.Workspace.Manifest.{
  EventType, added, modified, deleted, bookmark, error, other, Listing,
}

abbrev pub connection_secret : String
connection_secret = "mlflow-artifact-connection"

pub record ConfigInfo : Type 0 where
  pub namespace : String
  pub artifact_root_path : Option String
  pub artifact_root_secret : Option String

pub record ConfigCache : Type 0 where
  pub configs : Dict String ConfigInfo
  pub resource_version : Option String
  pub ready : Bool
  pub stopped : Bool
  pub retry : Bool
  pub crd_available : Bool
  pub crd_missing_logged : Bool
  pub secret_cache : Bool

-- `_uses_artifact_connection_secret`
unfoldable pub uses_secret : ConfigInfo → Bool
uses_secret info = elim info.artifact_root_secret [ none ↦ false | some s ↦ s == connection_secret ]

-- `isinstance(v, str) and v`
nonempty_text : Option Json → Option String
unfolding nonempty
nonempty_text (some (text s)) = if nonempty s then some s else none
nonempty_text v = none

abbrev pub or_end : Option Fields → Fields
or_end none = end
or_end (some fields) = fields

config_info : Fields → Option String → Option ConfigInfo
config_info item none = none
config_info item (some namespace) =
    let spec = or_end (as_object (Json.get "spec" item)) in
    some (record {
      namespace = namespace;
      artifact_root_path = as_text (Json.get "artifactRootPath" spec);
      artifact_root_secret = as_text (Json.get "artifactRootSecret" spec);
    })

-- obj["metadata"], if it is a JSON object
abbrev pub metadata_of : Fields → Option Fields
metadata_of item = as_object (Json.get "metadata" item)

pub namespace_of : Option Fields → Option String
unfolding nonempty_text
namespace_of none = none
namespace_of (some metadata) = nonempty_text (Json.get "namespace" metadata)

-- `_extract_info`
unfoldable pub extract_info : Fields → Option ConfigInfo
unfolding config_info namespace_of
extract_info item = config_info item (namespace_of (metadata_of item))

-- `_ensure_secret_cache`, and `KubernetesWorkspaceProvider._ensure_secret_cache` behind it: the
-- cache is created once, and creating it may raise.
unfoldable pub ensure_secret_cache : Outcome (Unit {0}) → Action ConfigCache (Unit {0})
ensure_secret_cache create c = if c.secret_cache then (ok tt, c) else elim create [
  | ok _ ↦ (ok tt, record c { secret_cache = true })
  | raised failure ↦ (raised failure, c)
]

-- `if should_ensure_secret_cache: self._ensure_secret_cache()`
abbrev pub ensure_if : Bool → Outcome (Unit {0}) → Action ConfigCache (Unit {0})
ensure_if wanted create = if wanted then ensure_secret_cache create else pure tt

pub file_info : Option ConfigInfo → Dict String ConfigInfo → Dict String ConfigInfo
file_info none configs = configs
file_info (some info) configs = put info.namespace info configs

-- The loops of `_refresh_full` and `_lookup_configs` over all items.
unfoldable pub snapshot_from : Dict String ConfigInfo → List Fields → Dict String ConfigInfo
unfolding file_info
snapshot_from configs [] = configs
snapshot_from configs (item ∷ rest) = snapshot_from (file_info (extract_info item) configs) rest

-- `should_ensure_secret_cache` after the loop of `_refresh_full`.
unfoldable pub any_uses_secret : List Fields → Bool
any_uses_secret [] = false
any_uses_secret (item ∷ rest) =
    elim (extract_info item) [ none ↦ false | some info ↦ uses_secret info ] || any_uses_secret rest

-- `_storage_lookup_error`
unfoldable pub storage_code : Failure → ErrorCode
storage_code (api status) =
    if nat_eqb status 401
    then unauthenticated
    else if nat_eqb status 403
    then permission_denied
    else internal_error
storage_code failure = internal_error

-- The CRD is absent, or may not be listed. Only an absent CRD is noted as logged.
abbrev pub withdraw : Bool → ConfigCache → ConfigCache
withdraw logged c = record c {
  crd_missing_logged = logged;
  crd_available = false;
  configs = [];
  resource_version = none;
}

abbrev pub set_ready : ConfigCache → ConfigCache
set_ready c = record c { ready = true }

-- The `except` clauses of `_refresh_full`.
unfoldable pub refresh_failed : Bool → Failure → Action ConfigCache Bool
unfolding storage_code
refresh_failed raise_on_error (api status) c =
    if nat_eqb status 404
    then (ok false, set_ready (withdraw true c))
    else if nat_eqb status 403
    then (ok false, set_ready (withdraw c.crd_missing_logged c))
    else if raise_on_error
    then (raised (mlflow (storage_code (api status))), c)
    else (ok false, set_ready c)
refresh_failed raise_on_error failure c =
    if raise_on_error then (raised (mlflow (storage_code failure)), c) else (ok false, set_ready c)

-- The part of `_refresh_full` under the lock.
abbrev pub take_snapshot : Listing Fields → ConfigCache → ConfigCache
take_snapshot response c = record c {
  configs = snapshot_from [] response.items;
  resource_version = response.resource_version;
  crd_available = true;
  crd_missing_logged = false;
}

-- `_refresh_full`
unfoldable pub refresh_full :
    Bool → Outcome (Listing Fields) → Outcome (Unit {0}) → Action ConfigCache Bool
unfolding refresh_failed any_uses_secret
refresh_full raise_on_error (raised failure) create = refresh_failed raise_on_error failure
refresh_full raise_on_error (ok response) create = do
  modify (take_snapshot response)
  ensure_if (any_uses_secret response.items) create
  modify set_ready
  pure true

-- `_try_reload`
unfoldable pub try_reload : Outcome (Listing Fields) → Outcome (Unit {0}) → Action ConfigCache Bool
try_reload reload create = do
  refreshed ← refresh_full true reload create
  modify (λ c. record c { retry = true })
  gets (λ c. c.crd_available)

-- `namespace is None or info.namespace == namespace`
unfoldable pub kept_info : Option String → Option ConfigInfo → Option ConfigInfo
kept_info none o = o
kept_info (some name) none = none
kept_info (some name) (some info) = if info.namespace == name then some info else none

-- The loop of `_lookup_configs`; with a namespace, other namespaces are left out.
unfoldable pub lookup_from :
    Option String → Dict String ConfigInfo → List Fields → Dict String ConfigInfo
unfolding file_info kept_info
lookup_from namespace configs [] = configs
lookup_from namespace configs (item ∷ rest) =
    lookup_from namespace (file_info (kept_info namespace (extract_info item)) configs) rest

-- `_lookup_configs`: a 404 says that the CRD is absent.
unfoldable pub lookup_configs :
    Option String → Outcome (List Fields) → Outcome (Dict String ConfigInfo)
unfolding lookup_from storage_code
lookup_configs namespace (ok items) = ok (lookup_from namespace [] items)
lookup_configs namespace (raised (api status)) =
    if nat_eqb status 404 then ok [] else raised (mlflow (storage_code (api status)))
lookup_configs namespace (raised http) = raised (mlflow (storage_code http))
lookup_configs namespace (raised failure) = raised failure
