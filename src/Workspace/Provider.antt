-- ===== src/Workspace/Provider.antt =====
-- provider.py, `KubernetesWorkspaceProvider`: workspaces from the three caches. MLflow's
-- `append_to_uri_path` and the decoding of a Secret are parameters.
pub mod Bucket
pub mod Storage
pub mod Workspaces
use mlflow_integration.Shared.{
  String, Bool, true, false, ◌&&◌, ◌||◌, not, Option, none, some, List, [], ◌∷◌, if◌then◌else◌,
  string_eq, ◌==◌, Outcome, ok, raised, mlflow, invalid_parameter_value, internal_error,
  permission_denied, unauthenticated, invalid_state, endpoint_not_found, resource_does_not_exist,
  Failure, not_implemented, is_some, map, ErrorCode,
}
use mlflow_integration.Shared.Action.{Action, ◌>>=◌, ◌>>◌, pure, raise, lift, gets}
use mlflow_integration.Shared.Dict.{Dict, find}
use mlflow_integration.Shared.Text.{nonempty, truthy, strip}
use mlflow_integration.Shared.Json.{Fields}
use mlflow_integration.Workspace.Config.{ProviderConfig}
use mlflow_integration.Workspace.Manifest.{Manifest, Listing}
use mlflow_integration.Workspace.Namespaces.{
  NamespaceCache, NamespaceInfo, NamespaceApi, list_namespaces, get_namespace,
}
use mlflow_integration.Workspace.Configs.{ConfigInfo, ConfigCache, connection_secret}
use mlflow_integration.Workspace.Configs.Requests
use mlflow_integration.Workspace.Configs.Requests.{get_config, get_configs}
use mlflow_integration.Workspace.Secrets.{SecretCache, SecretInfo, get_secret}
use mlflow_integration.Workspace.Secrets.Watch.{init}
use mlflow_integration.Workspace.Paths.{validate_artifact_path}

pub record Provider : Type 0 where
  pub config : ProviderConfig
  pub namespaces : NamespaceCache
  pub configs : ConfigCache
  pub secrets : Option SecretCache

-- What Kubernetes answers while one request runs.
pub record Cluster : Type 0 where
  pub namespaces : NamespaceApi
  pub configs : Outcome (Listing Fields)
  pub lookup : Option String → Outcome (List Fields)
  pub all_secrets : Outcome (Listing Manifest)
  pub secrets : String → Outcome (List Manifest)

pub record Workspace : Type 0 where
  pub name : String
  pub description : Option String
  pub default_artifact_root : Option String

abbrev pub is_done {ℓ} : {A : Type ℓ} → Outcome A → Outcome (Unit {0})
is_done (ok a) = ok tt
is_done (raised e) = raised e

abbrev pub or_created : Option SecretCache → Outcome SecretCache → Option SecretCache
or_created (some c) created = some c
or_created none (ok c) = some c
or_created none (raised e) = none

-- `truthy(info.artifact_root_secret)` of a configuration that may be absent
abbrev pub secret_name : Option ConfigInfo → Option String
secret_name none = none
secret_name (some info) = info.artifact_root_secret

abbrev pub root_path : Option ConfigInfo → Option String
root_path none = none
root_path (some info) = info.artifact_root_path

abbrev pub bucket_of : Option SecretInfo → Option String
bucket_of none = none
bucket_of (some info) = info.bucket_uri

module _ (decode : String → Option String) (append_to_uri_path : String → String → String) where
  -- A method of the config cache; its callback is `_ensure_secret_cache` of the provider.
  unfoldable pub with_configs : {A : Type 0} → Cluster → Action ConfigCache A → Action Provider A
  with_configs cluster m p =
      let (r, c) = m (record p.configs { secret_cache = is_some p.secrets }) in
      (
        r,
        record p {
          configs = c;
          secrets =
              if c.secret_cache
              then or_created p.secrets (init decode cluster.all_secrets)
              else p.secrets;
        },
      )

  abbrev pub answers : Cluster → Requests.Answers
  answers cluster = record {
    reload = cluster.configs;
    lookup = cluster.lookup;
    create = is_done (init decode cluster.all_secrets);
  }

  keep_secrets : Provider → Outcome SecretCache → Outcome SecretCache × Provider
  keep_secrets p (ok c) = (ok c, record p { secrets = some c })
  keep_secrets p (raised failure) = (raised failure, p)

  reuse_or_create : Cluster → Option SecretCache → Action Provider SecretCache
  unfolding keep_secrets
  reuse_or_create cluster (some c) p = (ok c, p)
  reuse_or_create cluster none p = keep_secrets p (init decode cluster.all_secrets)

  -- `_ensure_secret_cache`: created once, then reused.
  unfoldable pub ensure_secret_cache : Cluster → Action Provider SecretCache
  unfolding reuse_or_create
  ensure_secret_cache cluster p = reuse_or_create cluster p.secrets p

  pub below : String → Option String → String
  below bucket none = bucket
  below bucket (some path) = append_to_uri_path bucket path

  -- `path = ….strip()`, and what follows
  root_at : String → String → Action Provider (Option String × Bool)
  unfolding below
  root_at bucket path =
      if not (nonempty path)
      then pure (some bucket, false)
      else lift (validate_artifact_path path) >>= λ valid. pure (some (below bucket valid), false)

  -- `if mlflow_config.artifact_root_path`
  pub artifact_root : String → Option String → Action Provider (Option String × Bool)
  unfolding root_at
  artifact_root bucket none = pure (some bucket, false)
  artifact_root bucket (some path) =
      if nonempty path then root_at bucket (strip path) else pure (some bucket, false)

  -- `if not bucket_uri: raise …`
  bucket_root : Option String → Option String → Action Provider (Option String × Bool)
  unfolding artifact_root
  bucket_root path none = raise (mlflow invalid_parameter_value)
  bucket_root path (some bucket) =
      if nonempty bucket then artifact_root bucket path else raise (mlflow invalid_parameter_value)

  -- The override of a configuration that names a secret.
  override : Cluster → String → Option String → String → Action Provider (Option String × Bool)
  unfolding bucket_root ensure_secret_cache
  override cluster workspace path secret =
      if not (secret == connection_secret) then raise (mlflow invalid_parameter_value) else do
        secrets ← ensure_secret_cache cluster
        info ← lift (get_secret decode cluster.secrets workspace secrets)
        bucket_root path (bucket_of info)

  -- By the secret that the configuration names, if there is one.
  resolve_named :
      Cluster
      → Option String
      → String
      → Option String
      → Option String
      → Action Provider (Option String × Bool)
  unfolding override
  resolve_named cluster default_root workspace path none = pure (default_root, true)
  resolve_named cluster default_root workspace path (some secret) =
      if nonempty secret then override cluster workspace path secret else pure (default_root, true)

  -- `_resolve_artifact_root_from_config`
  unfoldable pub resolve_from_config :
      Cluster → Option String → String → Option ConfigInfo → Action Provider (Option String × Bool)
  unfolding resolve_named
  resolve_from_config cluster default_root workspace config =
      resolve_named cluster default_root workspace (root_path config) (secret_name config)

  -- `resolve_artifact_root`
  unfoldable pub resolve_artifact_root :
      Cluster → Option String → String → Action Provider (Option String × Bool)
  unfolding with_configs
  resolve_artifact_root cluster default_root workspace =
      if not (nonempty workspace) then pure (default_root, true) else do
        config ← with_configs cluster (get_config (answers cluster) workspace)
        resolve_from_config cluster default_root workspace config

  -- `exc.error_code == INVALID_PARAMETER_VALUE`
  is_invalid : Failure → Bool
  is_invalid (mlflow invalid_parameter_value) = true
  is_invalid (mlflow _) = false
  is_invalid _ = false

  -- The end of `_resolve_workspace_artifact_root`: a broken configuration has no root, and neither
  -- has a default one.
  best_effort : Outcome (Option String × Bool) × Provider → Outcome (Option String) × Provider
  unfolding is_invalid
  best_effort (ok (root, should_append), p) = (ok (if should_append then none else root), p)
  best_effort (raised failure, p) = (if is_invalid failure then ok none else raised failure, p)

  -- `_resolve_workspace_artifact_root`, without configurations and with those of a listing
  unfoldable pub workspace_root : Cluster → String → Action Provider (Option String)
  unfolding best_effort
  workspace_root cluster workspace p = best_effort (resolve_artifact_root cluster none workspace p)

  unfoldable pub workspace_root_from :
      Cluster → Dict String ConfigInfo → String → Action Provider (Option String)
  unfolding best_effort
  workspace_root_from cluster configs workspace p =
      best_effort (resolve_from_config cluster none workspace (find workspace configs) p)

  abbrev pub make_workspace : NamespaceInfo → Option String → Workspace
  make_workspace info root = record {
    name = info.name;
    description = info.description;
    default_artifact_root = root;
  }

  -- The list comprehension of `list_workspaces`.
  unfoldable pub make_workspaces :
      Cluster → Dict String ConfigInfo → List NamespaceInfo → Action Provider (List Workspace)
  make_workspaces cluster configs [] = pure []
  make_workspaces cluster configs (info ∷ infos) = do
    root ← workspace_root_from cluster configs info.name
    rest ← make_workspaces cluster configs infos
    pure (make_workspace info root ∷ rest)

  -- `list_workspaces`
  unfoldable pub list_workspaces : Cluster → Action Provider (List Workspace)
  list_workspaces cluster p =
      (do
        infos ← lift (list_namespaces p.namespaces)
        configs ←
            with_configs cluster (get_configs (answers cluster) (map (λ info. info.name) infos))
        make_workspaces cluster configs infos)
        p

  found_workspace : Cluster → Option NamespaceInfo → Action Provider Workspace
  found_workspace cluster none = raise (mlflow resource_does_not_exist)
  found_workspace cluster (some info) = do
    root ← workspace_root cluster info.name
    pure (make_workspace info root)

  -- `get_workspace`
  unfoldable pub get_workspace : Cluster → String → Action Provider Workspace
  unfolding found_workspace
  get_workspace cluster name p =
      (do
        info ← lift (get_namespace cluster.namespaces name p.namespaces)
        found_workspace cluster info)
        p

  -- `get_default_workspace`
  unfoldable pub get_default_workspace : Cluster → Action Provider Workspace
  get_default_workspace cluster p = elim p.config.default_workspace [
    | none ↦ (raised not_implemented, p)
    | some name ↦
        if nonempty name then get_workspace cluster name p else (raised not_implemented, p)
  ]

  -- `create_workspace`, `update_workspace`, `delete_workspace`
  unfoldable pub change_workspace : Action Provider Workspace
  change_workspace = raise not_implemented
