-- ===== src/Workspace/Config/Exclusion.antt =====
-- The globs of a configuration that comes from the environment and the query.
use mlflow_integration.Shared.{String, true, some, List, [], ◌∷◌, ◌≡◌, arith, contains, string_eq}
use mlflow_integration.Shared.Dict.{Dict}
use mlflow_integration.Workspace.Globs.{merge_globs, is_excluded, default_namespace_exclude_globs}
use mlflow_integration.Workspace.Globs.Merging.{merge_globs_lem, is_excluded_mono, is_distinct}
use mlflow_integration.Workspace.Config.{
  configured_globs, store_config, parse_workspace_uri_options,
}

-- The list that `from_sources` merges, for any globs of the user.
abbrev merged_with : List String → List String
merged_with ys = merge_globs (some default_namespace_exclude_globs ∷ some ys ∷ [])

keeps_defaults :
    (ys : List String) (p : String)
    → contains default_namespace_exclude_globs p ≡ true
    → contains (merged_with ys) p ≡ true
keeps_defaults ys p h =
    ground (arith, (merge_globs_lem (some default_namespace_exclude_globs ∷ some ys ∷ [])).1 p)

excludes_defaults :
    (ys : List String)
    → (is_distinct (merged_with ys) ≡ true)
      × ((name : String)
          → is_excluded default_namespace_exclude_globs name ≡ true
          → is_excluded (merged_with ys) name ≡ true)
excludes_defaults ys = (
  (merge_globs_lem (some default_namespace_exclude_globs ∷ some ys ∷ [])).0,
  λ name.
      is_excluded_mono default_namespace_exclude_globs (merged_with ys) name (keeps_defaults ys),
)

-- Whatever the environment and the query of the workspace URI, the store's configuration excludes
-- each name that a default pattern excludes, and holds no pattern twice.
pub store_config-excludes_defaults :
    (env : Dict String String) (query : Dict String (List String))
    → (is_distinct (store_config env query).namespace_exclude_globs ≡ true)
      × ((name : String)
          → is_excluded default_namespace_exclude_globs name ≡ true
          → is_excluded (store_config env query).namespace_exclude_globs name ≡ true)
unfolding store_config
store_config-excludes_defaults env query =
    excludes_defaults
      (configured_globs env (parse_workspace_uri_options query).namespace_exclude_globs)
