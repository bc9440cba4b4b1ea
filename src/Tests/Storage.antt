-- ===== src/Tests/Storage.antt =====
-- The configurations, the Secrets and the provider.
use mlflow_integration.Shared.{
  String, true, false, Option, none, some, List, [], ◌∷◌, Outcome, ok, raised, api, http, mlflow,
  invalid_parameter_value, ◌≡◌, ◌⊎◌, refl, ◌>>=◌, Ensures, map, string_eq,
}
use mlflow_integration.Shared.Dict.{find, put, pop}
use mlflow_integration.Shared.Text.{nonempty, strip}
use mlflow_integration.Shared.Json.{text, object, Fields, end, field, get}
use mlflow_integration.Shared.Action.{Returns}
use mlflow_integration.Workspace.Manifest.{Manifest, added, deleted, Listing, exhausted, failed}
use mlflow_integration.Shared.Fnmatch.{fnmatchcase}
use mlflow_integration.Workspace.Globs.{default_namespace_exclude_globs, is_excluded}
use mlflow_integration.Workspace.Namespaces.{NamespaceCache, NamespaceInfo}
use mlflow_integration.Workspace.Namespaces
use mlflow_integration.Workspace.Configs
use mlflow_integration.Workspace.Configs.{ConfigInfo, ConfigCache, snapshot_from, lookup_from}
use mlflow_integration.Workspace.Configs.Requests.{
  Answers, get_config, miss_config, verify_config, restrict,
}
use mlflow_integration.Workspace.Configs.Storage.{IsDenied, IsUnlisted, get_config-none}
use mlflow_integration.Workspace.Configs.Agreement.{lookups_agree}
use mlflow_integration.Workspace.Configs.Watch.Reachable.{configs_run-IsValid}
use mlflow_integration.Workspace.Secrets
use mlflow_integration.Workspace.Secrets.{SecretCache, get_secret}
use mlflow_integration.Workspace.Secrets.Reads.{IsFound, get_secret-after_run}
use mlflow_integration.Workspace.Paths.{validate_artifact_path}
use mlflow_integration.Workspace.Paths.Safety.{IsBelow, validate_artifact_path-IsBelow}
use mlflow_integration.Workspace.Provider.{
  Provider, Cluster, root_path, resolve_from_config, list_workspaces, get_workspace,
}
use mlflow_integration.Workspace.Provider.Storage.{
  HasValidSecrets, IsNamed, resolve_from_config-IsNamed,
}
use mlflow_integration.Workspace.Provider.Workspaces.{
  names_of, list_workspaces-names, get_workspace-name,
}
use mathlib.Core.Bool.{xor}
use Prim.Native.String

-- The objects.
abbrev config_of : String → String → Fields
config_of namespace path =
    field "metadata"
      (object (field "namespace" (text namespace) (field "resourceVersion" (text "8") end)))
      (field "spec"
        (object (
          field "artifactRootPath" (text path)
            (field "artifactRootSecret" (text "mlflow-artifact-connection") end)))
        end)

abbrev secret_of : String → Manifest
secret_of namespace = record {
  metadata = some (record {
    name = some "mlflow-artifact-connection";
    namespace = some namespace;
    resource_version = some "9";
    annotations = [];
  });
  contents = ("AWS_S3_BUCKET", "bucket") ∷ [];
}

abbrev info_of : String → ConfigInfo
info_of namespace = record {
  namespace = namespace;
  artifact_root_path = some "x/./y";
  artifact_root_secret = some "mlflow-artifact-connection";
}

abbrev configs : ConfigCache
configs = record {
  configs = ("team-a", info_of "team-a") ∷ [];
  resource_version = none;
  ready = true;
  stopped = false;
  retry = false;
  crd_available = true;
  crd_missing_logged = false;
  secret_cache = true;
}

configs-IsValid : Configs.Invariant.IsValid configs
unfolding nonempty find
configs-IsValid = record {
  entries = (record { filed = refl; named = refl }, tt);
  distinct = (tt, tt);
}

abbrev rounds : List Configs.Watch.Round
rounds =
    record {
      relist = ok (record { items = config_of "team-b" "b" ∷ []; resource_version = some "4" });
      create = raised http;
      ticks =
          Configs.Watch.event (record { type = added; payload = object (config_of "team-c" "c") })
            (ok tt)
          ∷ Configs.Watch.event
              (record { type = deleted; payload = object (config_of "team-b" "b") }) (ok tt)
          ∷ Configs.Watch.stop
          ∷ [];
      ending = failed (api 410);
    }
    ∷ []

run_configs : Configs.Watch.run rounds configs ≡ record configs {
  configs =
      (
        "team-c",
        record {
          namespace = "team-c";
          artifact_root_path = some "c";
          artifact_root_secret = some "mlflow-artifact-connection";
        },
      )
      ∷ [];
  stopped = true;
  retry = true;
}
unfolding Configs.Watch.run nonempty find put pop get Configs.extract_info Configs.uses_secret
    Configs.ensure_secret_cache snapshot_from
run_configs = refl

configs_run-IsValid_example : Configs.Invariant.IsValid (Configs.Watch.run rounds configs)
configs_run-IsValid_example = configs_run-IsValid rounds configs configs-IsValid

abbrev gone : Answers
gone = record { reload = raised http; lookup = λ _. raised (api 404); create = raised http }

gone-none : (get_config gone "team-b" configs).0 ≡ ok none
unfolding get_config find miss_config verify_config Configs.lookup_configs
gone-none = refl

get_config-none_example :
    (find "team-b" configs.configs ≡ none)
    × (((true ≡ false) × IsDenied (raised http)) ⊎ IsUnlisted "team-b" (raised (api 404)))
get_config-none_example = get_config-none gone "team-b" configs gone-none

abbrev items : List Fields
items = config_of "team-a" "1" ∷ config_of "team-b" "2" ∷ config_of "team-a" "3" ∷ []

lookups_agree_example :
    (find "team-a" (snapshot_from [] items) ≡ find "team-a" (lookup_from (some "team-a") [] items))
    × (find "team-a" (restrict ("team-a" ∷ []) (lookup_from none [] items))
        ≡ find "team-a" (lookup_from (some "team-a") [] items))
lookups_agree_example = lookups_agree items ("team-a" ∷ []) "team-a" refl

-- The Secrets: `decode` takes each text for its own encoding.
abbrev decode : String → Option String
decode s = some s

abbrev append : String → String → String
append uri path = String.◌++◌ uri (String.◌++◌ "/" path)

abbrev all_secrets : Outcome (Listing Manifest)
all_secrets = ok (record { items = secret_of "team-a" ∷ []; resource_version = some "9" })

abbrev secret_rounds : List Secrets.Watch.Round
secret_rounds = record { relist = raised http; ticks = []; ending = exhausted } ∷ []

abbrev listed : String → Outcome (List Manifest)
listed namespace = ok (secret_of namespace ∷ [])

get_secret-after_run_example : Ensures (IsFound "team-b") (
    Secrets.Watch.init decode all_secrets >>= λ c.
    get_secret decode listed "team-b" (Secrets.Watch.run decode secret_rounds c))
get_secret-after_run_example = get_secret-after_run decode all_secrets secret_rounds listed "team-b"

paths :
    (validate_artifact_path "a//b/./c/../d/" ≡ ok (some "a/b/d"))
    × (validate_artifact_path "a/../../d/" ≡ raised (mlflow invalid_parameter_value))
    × (validate_artifact_path "a/.." ≡ ok none)
    × (validate_artifact_path "a\\b" ≡ raised (mlflow invalid_parameter_value))
    × (validate_artifact_path "/a" ≡ raised (mlflow invalid_parameter_value))
unfolding validate_artifact_path xor
paths = (refl, refl, refl, refl, refl)

validate_artifact_path-IsBelow_example : Ensures IsBelow (validate_artifact_path "a/../b")
validate_artifact_path-IsBelow_example = validate_artifact_path-IsBelow "a/../b"

-- A provider that has yet to create its secret cache.
abbrev team_a : NamespaceInfo
team_a = record { name = "team-a"; description = none }

abbrev provider : Provider
provider = record {
  config = record {
    label_selector = none;
    default_workspace = none;
    namespace_exclude_globs = default_namespace_exclude_globs;
  };
  namespaces = record {
    exclude_globs = default_namespace_exclude_globs;
    label_selector = none;
    namespaces = ("team-a", team_a) ∷ [];
    resource_version = none;
    ready = true;
    stopped = false;
  };
  configs = configs;
  secrets = none;
}

namespaces-IsValid :
    Namespaces.Invariant.IsValid default_namespace_exclude_globs provider.namespaces
unfolding nonempty find is_excluded xor fnmatchcase
namespaces-IsValid = record {
  kept = refl;
  entries = (record { filed = refl; named = refl; allowed = refl }, tt);
  distinct = (tt, tt);
}

abbrev cluster : Cluster
cluster = record {
  namespaces = λ _ _. raised (api 404);
  configs = raised (api 404);
  lookup = λ _. raised (api 404);
  all_secrets = all_secrets;
  secrets = listed;
}

no_secrets : HasValidSecrets provider
no_secrets = λ c e. cc

resolve_from_config-IsNamed_example :
    Returns
      (λ l _.
        IsNamed decode append cluster provider
          (some "/root")
          "team-a"
          (root_path (some (info_of "team-a")))
          (some "mlflow-artifact-connection")
          l)
      (resolve_from_config decode append cluster
        (some "/root")
        "team-a"
        (some (info_of "team-a"))
        provider)
resolve_from_config-IsNamed_example =
    resolve_from_config-IsNamed decode append cluster (some "/root") "team-a"
      (some (info_of "team-a")) provider no_secrets

-- The path of the configuration is put below the bucket of the Secret.
located :
    (resolve_from_config decode append cluster
      (some "/root")
      "team-a"
      (some (info_of "team-a"))
      provider).0
    ≡ ok (some "s3://bucket/x/y", false)
unfolding resolve_from_config validate_artifact_path get_secret find strip nonempty put
    Secrets.Watch.init Secrets.extract_info xor Secrets.refresh_full Secrets.decode_bucket_uri
located = refl

list_workspaces-names_example :
    Returns
      (λ ws _. map (λ w. w.name) ws ≡ names_of provider.namespaces)
      (list_workspaces decode append cluster provider)
list_workspaces-names_example = list_workspaces-names decode append cluster provider

get_workspace-name_example :
    Returns
      (λ w _. (w.name ≡ "team-a") × (is_excluded default_namespace_exclude_globs "team-a" ≡ false))
      (get_workspace decode append cluster "team-a" provider)
get_workspace-name_example =
    get_workspace-name decode append cluster "team-a" provider namespaces-IsValid
