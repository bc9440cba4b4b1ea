-- ===== src/Workspace/Globs.antt =====
-- provider.py: the glob patterns that exclude namespaces, and how they are merged.
pub mod Merging
use mlflow_integration.Shared.{
  String, Bool, true, false, ◌&&◌, Option, none, some, List, [], ◌∷◌, ◌++◌, map, if◌then◌else◌,
  contains, string_eq, filter_by, any,
}
use mlflow_integration.Shared.Text.{nonempty, strip, split}
use mlflow_integration.Shared.Fnmatch.{fnmatchcase}

abbrev pub default_namespace_exclude_globs : List String
default_namespace_exclude_globs =
    "dedicated-admin" ∷ "kube-*" ∷ "nvidia-gpu-operator" ∷ "open-cluster-management"
    ∷ "open-cluster-management-*" ∷ "openshift-*" ∷ "openshift" ∷ "redhat-ods-*" ∷ []

-- `Iterable[str] | str`
pub data GlobInput : Type 0 where
  text : String → GlobInput
  tokens : List String → GlobInput

candidates : GlobInput → List String
candidates (text s) = split b',' s
candidates (tokens ts) = ts

-- `_parse_glob_input`
unfoldable pub parse_glob_input : Option GlobInput → Option (List String)
unfolding candidates nonempty
parse_glob_input none = none
parse_glob_input (some value) =
    some
      (map strip (filter_by (λ token. nonempty token && nonempty (strip token)) (candidates value)))

-- The two variables of `_merge_globs`.
pub record Merge : Type 0 where
  pub seen : List String
  pub merged : List String

-- The body of the inner loop.
unfoldable pub add_pattern : Merge → String → Merge
add_pattern m pattern =
    if contains m.seen pattern
    then m
    else record { seen = pattern ∷ m.seen; merged = m.merged ++ pattern ∷ [] }

unfoldable pub add_patterns : Merge → List String → Merge
unfolding add_pattern
add_patterns m [] = m
add_patterns m (pattern ∷ rest) = add_patterns (add_pattern m pattern) rest

-- The outer loop; `not glob_list` holds of `None` and of the empty tuple.
unfoldable pub add_lists : Merge → List (Option (List String)) → Merge
unfolding add_patterns
add_lists m [] = m
add_lists m (none ∷ rest) = add_lists m rest
add_lists m (some [] ∷ rest) = add_lists m rest
add_lists m (some (pattern ∷ patterns) ∷ rest) =
    add_lists (add_patterns m (pattern ∷ patterns)) rest

-- `_merge_globs`
unfoldable pub merge_globs : List (Option (List String)) → List String
unfolding add_lists
merge_globs glob_lists = (add_lists (record { seen = []; merged = [] }) glob_lists).merged

-- caches.py, `_is_excluded`
unfoldable pub is_excluded : List String → String → Bool
is_excluded globs name = any (fnmatchcase name) globs
