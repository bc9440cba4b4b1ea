-- ===== src/Workspace/Config.antt =====
-- provider.py: the configuration of the workspace provider, from keyword arguments, the
-- environment and the query of the workspace URI. `urlparse` and `parse_qs` are not modelled: the
-- query is given as the dictionary that they return.
pub mod Exclusion
use mlflow_integration.Shared.{
  String, Option, none, some, List, [], ◌∷◌, if◌then◌else◌, string_eq, Bool,
}
use mlflow_integration.Shared.Dict.{Dict, find}
use mlflow_integration.Shared.Text.{nonempty, strip, truthy}
use mlflow_integration.Workspace.Globs.{
  GlobInput, text, tokens, parse_glob_input, merge_globs, default_namespace_exclude_globs,
}

-- `KubernetesWorkspaceProviderConfig`
pub record ProviderConfig : Type 0 where
  pub label_selector : Option String
  pub default_workspace : Option String
  pub namespace_exclude_globs : List String

-- `a or b`
abbrev pub or_text : Option String → Option String → Option String
or_text a b = if truthy a then a else b

-- `parse(...) or ()`
abbrev pub or_empty : Option (List String) → List String
or_empty none = []
or_empty (some ps) = ps

unfoldable pub glob_source : Option GlobInput → Option (List String) → List String
unfolding parse_glob_input
glob_source (some globs) env_globs = or_empty (parse_glob_input (some globs))
glob_source none (some globs) = globs
glob_source none none = []

abbrev pub as_input : Option String → Option GlobInput
as_input none = none
as_input (some s) = some (text s)

-- The globs of `from_sources` beside the defaults: the argument, or else the environment.
unfoldable pub configured_globs : Dict String String → Option GlobInput → List String
unfolding glob_source parse_glob_input find
configured_globs env globs =
    glob_source globs (parse_glob_input (as_input (find "MLFLOW_K8S_NAMESPACE_EXCLUDE_GLOBS" env)))

-- `KubernetesWorkspaceProviderConfig.from_sources`
unfoldable pub from_sources :
    Dict String String → Option String → Option String → Option GlobInput → ProviderConfig
unfolding configured_globs merge_globs find nonempty
from_sources env label_selector default_workspace globs = record {
  label_selector = or_text label_selector (find "MLFLOW_K8S_WORKSPACE_LABEL_SELECTOR" env);
  default_workspace = or_text default_workspace (find "MLFLOW_K8S_DEFAULT_WORKSPACE" env);
  namespace_exclude_globs =
      merge_globs (some default_namespace_exclude_globs ∷ some (configured_globs env globs) ∷ []);
}

-- `values[-1]`
last : List String → Option String
last [] = none
last (v ∷ []) = some v
last (v ∷ w ∷ vs) = last (w ∷ vs)

nonempty_or_none : String → Option String
unfolding nonempty
nonempty_or_none s = if nonempty s then some s else none

-- `_get_param` of `_parse_workspace_uri_options`
unfoldable pub get_param : Dict String (List String) → String → Option String
unfolding find last nonempty_or_none strip
get_param query name = elim (last (elim (find name query) [ none ↦ [] | some vs ↦ vs ])) [
  | none ↦ none
  | some value ↦ nonempty_or_none (strip value)
]

pub record Options : Type 0 where
  pub label_selector : Option String
  pub default_workspace : Option String
  pub namespace_exclude_globs : Option GlobInput

-- `_parse_workspace_uri_options`, on the parsed query.
unfoldable pub parse_workspace_uri_options : Dict String (List String) → Options
unfolding get_param parse_glob_input
parse_workspace_uri_options query = record {
  label_selector = get_param query "label_selector";
  default_workspace = get_param query "default_workspace";
  namespace_exclude_globs = elim (get_param query "namespace_exclude_globs") [
    | none ↦ none
    | some param ↦ some (tokens (or_empty (parse_glob_input (some (text param)))))
  ];
}

-- The configuration of `create_kubernetes_workspace_store`.
unfoldable pub store_config : Dict String String → Dict String (List String) → ProviderConfig
unfolding from_sources parse_workspace_uri_options
store_config env query =
    let options = parse_workspace_uri_options query in
    from_sources env options.label_selector options.default_workspace
      options.namespace_exclude_globs
