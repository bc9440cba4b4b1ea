-- ===== src/Tests/Lookups.antt =====
-- Compiled paths, and the rules of a small application.
use mlflow_integration.Shared.{
  String, true, false, Option, none, some, List, [], ◌∷◌, string_eq, ok, raised, mlflow,
  internal_error, All, ◌≡◌, refl, inl, inr,
}
use mlflow_integration.Shared.Text.{nonempty, has_infix, starts_with, ends_with}
use mlflow_integration.Auth.Credentials.{canonicalize_path}
use mlflow_integration.Auth.Rules.{AuthorizationRule, experiments_rule, registered_models_rule}
use mlflow_integration.Auth.Tables.{route_eq, RequestTable, PathTable}
use mlflow_integration.Auth.Templates.{re_compile_path, fullmatch}
use mlflow_integration.Auth.Compiler.{
  Compiled, Endpoint, handler_rules, is_templated, compile_authorization_rules,
  find_authorization_rules, canonical,
}
use mlflow_integration.Auth.Templates.Pieces.{Piece, plain_text, one_segment, many_segments}
use mlflow_integration.Auth.Compiler.Coverage.{HasEntry}
use mlflow_integration.Auth.Compiler.Serving.{
  IsServed, IsRouteServed, compile_authorization_rules-serves,
}
use mlflow_integration.Auth.Compiler.Lookup.{find_authorization_rules-served}

within_segment : fullmatch (re_compile_path "/runs/<id>/get") "/runs/7/get" ≡ true
unfolding re_compile_path fullmatch
within_segment = refl

two_segments : fullmatch (re_compile_path "/runs/<id>/get") "/runs/7/8/get" ≡ false
unfolding re_compile_path fullmatch
two_segments = refl

whole_path : fullmatch (re_compile_path "/files/<path:p>") "/files/a/b" ≡ true
unfolding re_compile_path fullmatch
whole_path = refl

-- /v1.0/<id>/<path:p>
abbrev pieces : List Piece
pieces = plain_text "/v1.0/" ∷ one_segment "id" ∷ plain_text "/" ∷ many_segments "p" ∷ []

abbrev pub handler_of : String → Option String
handler_of request = some request

abbrev pub requests : RequestTable
requests = ("GetRun", experiments_rule "get" ∷ []) ∷ []

abbrev pub paths : PathTable
paths = (("/files/<path:p>", "GET"), registered_models_rule "get" ∷ []) ∷ []

abbrev pub endpoints : List (Endpoint String)
endpoints = record { path = "/runs/<id>"; handler = "GetRun"; methods = "GET" ∷ [] } ∷ []

abbrev pub routes : List (Endpoint String)
routes = record { path = "/files/<path:p>"; handler = "files"; methods = "GET" ∷ "HEAD" ∷ [] } ∷ []

pub compiled : Compiled
unfolding re_compile_path
compiled = record {
  exact = [];
  regex =
      record {
        pattern = re_compile_path "/runs/<id>";
        verb = "GET";
        rules = experiments_rule "get" ∷ [];
      }
      ∷ record {
        pattern = re_compile_path "/files/<path:p>";
        verb = "GET";
        rules = registered_models_rule "get" ∷ [];
      }
      ∷ [];
  uncovered = [];
}

pub compiles :
    compile_authorization_rules none handler_of ("GetRun" ∷ []) endpoints routes requests paths
    ≡ ok compiled
unfolding compile_authorization_rules compiled nonempty has_infix starts_with
compiles = refl

-- A route with another method has no rules.
uncovered_route :
    compile_authorization_rules none handler_of
      ("GetRun" ∷ [])
      endpoints
      (record { path = "/files/<path:p>"; handler = "files"; methods = "POST" ∷ [] } ∷ [])
      requests
      paths
    ≡ raised (mlflow internal_error)
unfolding compile_authorization_rules nonempty has_infix starts_with
uncovered_route = refl

compile_authorization_rules-serves_example :
    All
      (IsServed none (handler_rules handler_of requests ("GetRun" ∷ []) []) paths compiled)
      endpoints
    × All
        (IsRouteServed none (handler_rules handler_of requests ("GetRun" ∷ []) []) paths compiled)
        routes
compile_authorization_rules-serves_example =
    compile_authorization_rules-serves none handler_of ("GetRun" ∷ []) endpoints routes requests
      paths compiled compiles

has_run_entry : HasEntry compiled "/runs/<id>" "GET"
unfolding compiled is_templated starts_with
has_run_entry = ((λ h. cc), λ h. inl (refl, refl))

run_path-fits : fullmatch (re_compile_path "/runs/<id>") (canonical none "/runs/7") ≡ true
unfolding re_compile_path fullmatch canonicalize_path starts_with nonempty
run_path-fits = refl

not_graphql : ends_with (canonical none "/runs/7") "/graphql" ≡ false
unfolding ends_with canonicalize_path starts_with nonempty
not_graphql = refl

run_path-templated : is_templated "/runs/<id>" ≡ true
unfolding is_templated starts_with
run_path-templated = refl

find_authorization_rules-served_example :
    (rules : List AuthorizationRule) × (find_authorization_rules none compiled
        (ok none)
        "/runs/7"
        "GET"
      ≡ ok (some rules))
find_authorization_rules-served_example =
    find_authorization_rules-served none compiled (ok none) "/runs/<id>" "/runs/7" "GET"
      has_run_entry (inr (run_path-templated, run_path-fits)) not_graphql
