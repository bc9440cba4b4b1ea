-- ===== src/Tests/Fastapi.antt =====
-- Templates of FastAPI paths, and the check of some routes.
use mlflow_integration.Shared.{
  true, none, List, [], ◌∷◌, ok, raised, mlflow, internal_error, All, ◌≡◌, refl, string_eq, ◌↔◌,
  ◌⊎◌,
}
use mlflow_integration.Shared.Text.{nonempty, has_infix, starts_with}
use mlflow_integration.Shared.Dict.{find}
use mlflow_integration.Auth.Templates.Pieces.{Piece, plain_text, one_segment, many_segments}
use mlflow_integration.Auth.Fastapi.Templates.{IsBraced, fastapi_path_to_template-braced}
use mlflow_integration.Auth.Fastapi.{
  FastapiRoute, fastapi_path_to_template, validate_fastapi_route_authorization,
}
use mlflow_integration.Auth.Fastapi.Validation.{
  HasRules, IsCompiled, validate_fastapi_route_authorization-ok_iff,
  validate_fastapi_route_authorization-IsCompiled,
}
use mlflow_integration.Tests.Lookups.{
  handler_of, requests, paths, endpoints, routes, compiled, compiles,
}

template : fastapi_path_to_template "/a/{b}/{c:path}/{}" ≡ "/a/<b>/<path:c>/{}"
unfolding fastapi_path_to_template has_infix starts_with
template = refl

abbrev fastapi_routes : List FastapiRoute
fastapi_routes =
    record { is_api_route = true; path = "/files/{p:path}"; methods = "GET" ∷ "HEAD" ∷ [] } ∷ []

checks : validate_fastapi_route_authorization none paths fastapi_routes ≡ ok tt
unfolding validate_fastapi_route_authorization find has_infix starts_with nonempty
checks = refl

-- No rules for the method.
refuses :
    validate_fastapi_route_authorization none paths
      (record { is_api_route = true; path = "/files/{p:path}"; methods = "POST" ∷ [] } ∷ [])
    ≡ raised (mlflow internal_error)
unfolding validate_fastapi_route_authorization find has_infix starts_with nonempty
refuses = refl

validate_fastapi_route_authorization-ok_iff_example :
    ((validate_fastapi_route_authorization none paths fastapi_routes ≡ ok tt)
      ↔ All (HasRules none paths) fastapi_routes)
    × ((validate_fastapi_route_authorization none paths fastapi_routes ≡ ok tt)
        ⊎ (validate_fastapi_route_authorization none paths fastapi_routes
            ≡ raised (mlflow internal_error)))
validate_fastapi_route_authorization-ok_iff_example =
    validate_fastapi_route_authorization-ok_iff none paths fastapi_routes

validate_fastapi_route_authorization-IsCompiled_example :
    All (IsCompiled none paths compiled) fastapi_routes
validate_fastapi_route_authorization-IsCompiled_example =
    validate_fastapi_route_authorization-IsCompiled none handler_of ("GetRun" ∷ []) endpoints routes
      requests paths compiled fastapi_routes compiles checks

-- /a/{b}/{c:path}
abbrev pieces : List Piece
pieces = plain_text "/a/" ∷ one_segment "b" ∷ plain_text "/" ∷ many_segments "c" ∷ []

pieces-IsBraced : IsBraced pieces
unfolding nonempty
pieces-IsBraced = (
  (refl, (refl, (refl, tt))),
  (refl, (refl, tt), (refl, tt), ((refl, tt), (refl, (refl, tt), (refl, tt), tt))),
)

fastapi_path_to_template-braced_example :
    fastapi_path_to_template "/a/{b}/{c:path}" ≡ "/a/<b>/<path:c>"
fastapi_path_to_template-braced_example = fastapi_path_to_template-braced pieces pieces-IsBraced
