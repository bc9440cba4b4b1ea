-- ===== src/Auth/Compiler.antt =====
-- auth/compiler.py: which rules a path and a method have. What MLflow registers is
-- an argument: request classes with their handlers, endpoints, and the routes of its Flask application. A handler is
-- named by what is left of it when its wrappers are off.
pub mod Coverage
pub mod Endpoints
pub mod Serving
pub mod Lookup
use mlflow_integration.Shared.{
  String, Bool, true, false, ◌&&◌, ◌||◌, not, Option, none, some, List, [], ◌∷◌, ◌++◌, ℕ,
  if◌then◌else◌, is_some, all, map, filter_by, contains, nat_eqb, Eq, string_eq, ◌==◌, Outcome, ok,
  raised, mlflow, internal_error,
}
use mlflow_integration.Shared.Text.{nonempty, has_infix, starts_with, ends_with}
use mlflow_integration.Shared.Dict.{Dict, find, put}
use mlflow_integration.Auth.Templates.{PathToken, re_compile_path, fullmatch}
use mlflow_integration.Auth.Credentials.{canonicalize_path, is_unprotected_path}
use mlflow_integration.Auth.Rules.{AuthorizationRule}
use mlflow_integration.Auth.Tables.{Route, route_eq, RequestTable, PathTable}
use mathlib.Core.List.{reverse}
use Prim.Native.Char.{Char, code}
use Prim.Native.String.{[], ◌∷◌}

-- An entry of `_AUTH_REGEX_RULES`.
pub record RegexRule : Type 0 where
  pub pattern : List PathToken
  pub verb : String
  pub rules : List AuthorizationRule

-- `exact_rules`, `regex_rules` and `uncovered` of `_compile_authorization_rules`
pub record Compiled : Type 0 where
  pub exact : PathTable
  pub regex : List RegexRule
  pub uncovered : List Route

abbrev pub nothing_compiled : Compiled
nothing_compiled = record { exact = []; regex = []; uncovered = [] }

-- `"<" in path`
unfoldable pub is_templated : String → Bool
unfolding has_infix
is_templated path = has_infix path "<"

-- The rules of a path and a method.
unfoldable pub add_rules : String → String → List AuthorizationRule → Compiled → Compiled
unfolding is_templated re_compile_path put
add_rules path method rules c =
    if is_templated path
    then record c {
      regex =
          c.regex ++ record { pattern = re_compile_path path; verb = method; rules = rules } ∷ [];
    }
    else record c { exact = put (path, method) rules c.exact }

unfoldable pub add_methods : String → List AuthorizationRule → List String → Compiled → Compiled
unfolding add_rules
add_methods path rules [] c = c
add_methods path rules (method ∷ methods) c =
    add_methods path rules methods (add_rules path method rules c)

abbrev pub routes_of : String → List String → List Route
routes_of path methods = map (λ method. (path, method)) methods

-- `PATH_AUTHORIZATION_RULES.get((path, method)) is not None`
abbrev pub has_path_rules : PathTable → Route → Bool
unfolding find
has_path_rules path_rules route = is_some (find route path_rules)

-- The routes that have no rules of their own.
unfoldable pub missing : PathTable → List Route → List Route
unfolding find
missing path_rules [] = []
missing path_rules (route ∷ routes) =
    let rest = missing path_rules routes in
    if has_path_rules path_rules route then rest else route ∷ rest

-- An entry of `get_endpoints`, or a rule of the Flask application, with the handler that serves it.
pub record Endpoint (H : Type 0) : Type 0 where
  pub path : String
  pub handler : H
  pub methods : List String

-- `_canonicalize_path(raw_path=path)`
abbrev pub canonical : Option String → String → String
unfolding canonicalize_path
canonical static_prefix path = canonicalize_path static_prefix path none none none none

-- An endpoint whose canonical path is protected: with the rules of its handler, or without.
pub by_handler :
    PathTable → String → List String → Option (List AuthorizationRule) → Compiled → Compiled
unfolding missing add_methods
by_handler path_rules path methods none c =
    if all (λ method. has_path_rules path_rules (path, method)) methods
    then c
    else record c { uncovered = c.uncovered ++ routes_of path methods }
by_handler path_rules path methods (some rules) c = add_methods path rules methods c

-- `m not in {"HEAD", "OPTIONS"}`
abbrev pub checked_methods : List String → List String
checked_methods methods = filter_by (λ m. not (contains ("HEAD" ∷ "OPTIONS" ∷ []) m)) methods

module _ {H : Type 0} ⦃e : Eq H⦄ where
  abbrev record_rules :
      Option H
      → Option (List AuthorizationRule)
      → Dict H (List AuthorizationRule)
      → Dict H (List AuthorizationRule)
  unfolding put
  record_rules none rules d = d
  record_rules (some handler) none d = d
  record_rules (some handler) (some rules) d = put handler rules d

  -- `_get_request_authorization_handler`, for each request class: `_HANDLER_RULES`
  unfoldable pub handler_rules :
      (String → Option H)
      → RequestTable
      → List String
      → Dict H (List AuthorizationRule)
      → Dict H (List AuthorizationRule)
  unfolding find record_rules
  handler_rules handler_of request_rules [] d = d
  handler_rules handler_of request_rules (request ∷ requests) d =
      handler_rules handler_of request_rules requests
        (record_rules (handler_of request) (find request request_rules) d)

  -- The body of the loop over `get_endpoints`.
  unfoldable pub add_endpoint :
      Option String → Dict H (List AuthorizationRule) → PathTable → Endpoint H → Compiled → Compiled
  unfolding by_handler nonempty find is_unprotected_path canonicalize_path
  add_endpoint static_prefix handlers path_rules endpoint c =
      if not (nonempty endpoint.path)
      then c
      else if is_unprotected_path (canonical static_prefix endpoint.path)
      then c
      else by_handler path_rules (canonical static_prefix endpoint.path) endpoint.methods
          (find endpoint.handler handlers) c

  -- The body of the loop over the routes of the Flask application. The named patterns of path parameters are left out.
  unfoldable pub add_route :
      Option String → Dict H (List AuthorizationRule) → PathTable → Endpoint H → Compiled → Compiled
  unfolding find missing is_unprotected_path canonicalize_path
  add_route static_prefix handlers path_rules route c =
      if is_unprotected_path (canonical static_prefix route.path)
      then c
      else if is_some (find route.handler handlers)
      then c
      else record c {
        uncovered =
            c.uncovered
            ++ missing path_rules
                (routes_of (canonical static_prefix route.path) (checked_methods route.methods));
      }

  unfoldable pub add_endpoints :
      Option String
      → Dict H (List AuthorizationRule)
      → PathTable
      → List (Endpoint H)
      → Compiled
      → Compiled
  unfolding add_endpoint
  add_endpoints static_prefix handlers path_rules [] c = c
  add_endpoints static_prefix handlers path_rules (endpoint ∷ endpoints) c =
      add_endpoints static_prefix handlers path_rules endpoints
        (add_endpoint static_prefix handlers path_rules endpoint c)

  unfoldable pub add_routes :
      Option String
      → Dict H (List AuthorizationRule)
      → PathTable
      → List (Endpoint H)
      → Compiled
      → Compiled
  unfolding add_route
  add_routes static_prefix handlers path_rules [] c = c
  add_routes static_prefix handlers path_rules (route ∷ routes) c =
      add_routes static_prefix handlers path_rules routes
        (add_route static_prefix handlers path_rules route c)

-- The loop over `PATH_AUTHORIZATION_RULES`.
unfoldable pub add_path_rules : PathTable → Compiled → Compiled
unfolding add_rules
add_path_rules [] c = c
add_path_rules (((path, method), rules) ∷ table) c =
    add_path_rules table (add_rules path method rules c)

-- The end of `_compile_authorization_rules`
abbrev pub covered : List Route → Compiled → Outcome Compiled
covered [] c = ok c
covered (route ∷ routes) c = raised (mlflow internal_error)

module _ {H : Type 0} ⦃e : Eq H⦄ where
  -- `_compile_authorization_rules`
  unfoldable pub compile_authorization_rules :
      Option String
      → (String → Option H)
      → List String
      → List (Endpoint H)
      → List (Endpoint H)
      → RequestTable
      → PathTable
      → Outcome Compiled
  unfolding handler_rules add_endpoints add_routes add_path_rules
  compile_authorization_rules static_prefix handler_of requests endpoints routes request_rules
        path_rules =
      let handlers = handler_rules handler_of request_rules requests [] in
      let c = add_path_rules path_rules (
        add_routes static_prefix handlers path_rules routes
          (add_endpoints static_prefix handlers path_rules endpoints nothing_compiled)) in
      covered c.uncovered c

-- The first entry of `_AUTH_REGEX_RULES` that fits.
unfoldable pub first_match : List RegexRule → String → String → Option (List AuthorizationRule)
unfolding fullmatch
first_match [] path method = none
first_match (entry ∷ entries) path method =
    let rest = first_match entries path method in
    if entry.verb == method && fullmatch entry.pattern path then some entry.rules else rest

abbrev pub looked_up :
    Compiled
    → String
    → String
    → Option (List AuthorizationRule)
    → Outcome (Option (List AuthorizationRule))
    → Outcome (Option (List AuthorizationRule))
unfolding ends_with first_match
looked_up c path method none graphql = ok (first_match c.regex path method)
looked_up c path method (some rules) graphql =
    if ends_with path "/graphql" then graphql else ok (some rules)

-- `_find_authorization_rules`. What the query of a GraphQL request needs is an argument.
unfoldable pub find_authorization_rules :
    Option String
    → Compiled
    → Outcome (Option (List AuthorizationRule))
    → String
    → String
    → Outcome (Option (List AuthorizationRule))
unfolding find first_match ends_with canonicalize_path
find_authorization_rules static_prefix c graphql request_path method =
    let path = canonical static_prefix request_path in
    looked_up c path method (find (path, method) c.exact) graphql
