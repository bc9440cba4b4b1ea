-- ===== src/Auth/Fastapi.antt =====
-- auth/compiler.py, `_validate_fastapi_route_authorization`, and `_fastapi_path_to_template` of auth/core.py.
pub mod Validation
pub mod Templates
use mlflow_integration.Shared.{
  String, Bool, true, false, ◌||◌, not, Option, none, some, List, [], ◌∷◌, ◌++◌, if◌then◌else◌,
  nat_eqb, contains, string_eq, Outcome, ok, raised, mlflow, internal_error,
}
use mlflow_integration.Shared.Text.{nonempty, has_infix}
use mlflow_integration.Shared.Dict.{find}
use mlflow_integration.Auth.Credentials.{canonicalize_path, is_unprotected_path}
use mlflow_integration.Auth.Tables.{Route, route_eq, PathTable}
use mlflow_integration.Auth.Compiler.{canonical, has_path_rules}
use Prim.Native.Char.{Char, code}
use Prim.Native.String
use Prim.Native.String.{[], ◌∷◌}

-- name, converter = token.split(":", 1)
before_colon : String → String
before_colon [] = ""
before_colon (c ∷ s) = let rest = before_colon s in if nat_eqb (code c) b':' then "" else c ∷ rest

after_colon : String → String
after_colon [] = ""
after_colon (c ∷ s) = let rest = after_colon s in if nat_eqb (code c) b':' then s else rest

-- `_replace_token`; an empty pair of braces is no match.
replace_token : String → String
unfolding has_infix before_colon after_colon
replace_token [] = "{}"
replace_token (c ∷ token) =
    if has_infix (c ∷ token) ":"
    then String.◌++◌ "<" (
        String.◌++◌ (after_colon (c ∷ token))
          (String.◌++◌ ":" (String.◌++◌ (before_colon (c ∷ token)) ">")))
    else String.◌++◌ "<" (String.◌++◌ (c ∷ token) ">")

-- Between two matches of `{([^}]+)}`, or behind a `{` with what came since.
pub data Place : Type 0 where
  beside : Place
  behind : String → Place

advance : Place → Char → Place × String
unfolding replace_token
advance beside c = if nat_eqb (code c) b'{' then (behind "", "") else (beside, c ∷ "")
advance (behind token) c =
    if nat_eqb (code c) b'}'
    then (beside, replace_token token)
    else (behind (String.◌++◌ token (c ∷ "")), "")

template_from : Place → String → String
unfolding advance
template_from beside [] = ""
template_from (behind token) [] = String.◌++◌ "{" token
template_from place (c ∷ s) =
    let (place', out) = advance place c in String.◌++◌ out (template_from place' s)

-- `_fastapi_path_to_template`
unfoldable pub fastapi_path_to_template : String → String
unfolding template_from
fastapi_path_to_template path = template_from beside path

-- An entry of `fastapi_app.routes`.
pub record FastapiRoute : Type 0 where
  pub is_api_route : Bool
  pub path : String
  pub methods : List String

-- The body of the loop over the methods.
unfoldable pub missing_methods : PathTable → String → String → List String → List Route
unfolding find
missing_methods path_rules template_path canonical_path [] = []
missing_methods path_rules template_path canonical_path (method ∷ methods) =
    let rest = missing_methods path_rules template_path canonical_path methods in
    if contains ("HEAD" ∷ "OPTIONS" ∷ []) method
    then rest
    else if has_path_rules path_rules (template_path, method)
    then rest
    else (method, canonical_path) ∷ rest

-- The body of the loop over the routes.
unfoldable pub missing_of : Option String → PathTable → FastapiRoute → List Route
unfolding missing_methods nonempty is_unprotected_path canonicalize_path fastapi_path_to_template
missing_of static_prefix path_rules route =
    if not route.is_api_route
    then []
    else if not (nonempty (canonical static_prefix route.path))
        || is_unprotected_path (canonical static_prefix route.path)
    then []
    else missing_methods path_rules (fastapi_path_to_template (canonical static_prefix route.path))
        (canonical static_prefix route.path) route.methods

unfoldable pub all_missing : Option String → PathTable → List FastapiRoute → List Route
unfolding missing_of
all_missing static_prefix path_rules [] = []
all_missing static_prefix path_rules (route ∷ routes) =
    missing_of static_prefix path_rules route ++ all_missing static_prefix path_rules routes

abbrev pub reported : List Route → Outcome (Unit {0})
reported [] = ok tt
reported (route ∷ missing) = raised (mlflow internal_error)

-- `_validate_fastapi_route_authorization`
unfoldable pub validate_fastapi_route_authorization :
    Option String → PathTable → List FastapiRoute → Outcome (Unit {0})
unfolding all_missing
validate_fastapi_route_authorization static_prefix path_rules routes =
    reported (all_missing static_prefix path_rules routes)
