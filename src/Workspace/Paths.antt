-- ===== src/Workspace/Paths.antt =====
-- provider.py, `_validate_artifact_path`, with `posixpath.normpath` of the standard library.
pub mod Stack
pub mod Safety
use mlflow_integration.Shared.{
  String, Bool, true, false, ◌&&◌, ◌||◌, not, Option, none, some, List, [], ◌∷◌, if◌then◌else◌,
  string_eq, ◌==◌, Outcome, ok, raised, mlflow, invalid_parameter_value,
}
use mlflow_integration.Shared.Text.{starts_with, has_infix, split, join}
use mathlib.Core.List.{reverse, tail}
use Prim.Native.String

-- `new_comps and new_comps[-1] == ".."`; the list is kept with its end first.
pub top_is_up : List String → Bool
top_is_up [] = false
top_is_up (comp ∷ comps) = comp == ".."

abbrev pub is_empty : List String → Bool
is_empty [] = true
is_empty (comp ∷ comps) = false

-- The loop body of `normpath`; popping an empty list does nothing.
unfoldable pub push_comp : Bool → List String → String → List String
unfolding top_is_up
push_comp absolute comps comp =
    if comp == "" || comp == "."
    then comps
    else if not (comp == "..") || (not absolute && is_empty comps) || top_is_up comps
    then comp ∷ comps
    else tail comps

unfoldable pub push_comps : Bool → List String → List String → List String
unfolding push_comp
push_comps absolute comps [] = comps
push_comps absolute comps (comp ∷ rest) = push_comps absolute (push_comp absolute comps comp) rest

-- POSIX keeps two leading slashes, and makes three or more into one.
unfoldable pub initial_slashes : String → String
unfolding starts_with
initial_slashes path =
    if starts_with path "//" && not (starts_with path "///")
    then "//"
    else if starts_with path "/"
    then "/"
    else ""

abbrev pub or_dot : String → String
or_dot s = if s == "" then "." else s

unfoldable pub normpath : String → String
unfolding initial_slashes push_comps starts_with split join
normpath path =
    if path == ""
    then "."
    else or_dot (
        String.◌++◌ (initial_slashes path)
          (join "/" (reverse (push_comps (starts_with path "/") [] (split b'/' path)))))

-- `_validate_artifact_path`
unfoldable pub validate_artifact_path : String → Outcome (Option String)
unfolding normpath has_infix starts_with
validate_artifact_path path =
    let normalized = normpath path in
    if has_infix path "\\"
    then raised (mlflow invalid_parameter_value)
    else if starts_with normalized "/"
    then raised (mlflow invalid_parameter_value)
    else if normalized == ".." || starts_with normalized "../" || has_infix normalized "/../"
    then raised (mlflow invalid_parameter_value)
    else if normalized == "."
    then ok none
    else ok (some normalized)
