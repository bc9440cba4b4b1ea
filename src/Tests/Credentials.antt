-- ===== src/Tests/Credentials.antt =====
-- Tokens, groups and paths of requests.
use mlflow_integration.Shared.{
  true, false, none, some, [], ◌∷◌, ok, raised, mlflow, unauthenticated, invalid_parameter_value,
  ◌≡◌, ◌⊎◌, refl, All,
}
use mlflow_integration.Shared.Text.{nonempty}
use mlflow_integration.Auth.Credentials.{
  resolve_bearer_token, parse_remote_groups, canonicalize_path, is_unprotected_path, or_path,
}
use mlflow_integration.Auth.Settings.{parse_bool_env}
use mlflow_integration.Auth.Credentials.Tokens.{
  IsToken, resolve_bearer_token-IsToken, parse_remote_groups-nonempty,
}
use mlflow_integration.Auth.Credentials.Canonical.{IsAbsolute, canonicalize_path-IsAbsolute}

tokens :
    (resolve_bearer_token (some "BEARER x y") none ≡ ok "x y")
    × (resolve_bearer_token (some "Basic x") (some " bearer  z ") ≡ ok "z")
    × (resolve_bearer_token none (some "Bearer ") ≡ ok "Bearer")
    × (resolve_bearer_token (some "Bearer") none ≡ raised (mlflow unauthenticated))
unfolding resolve_bearer_token
tokens = (refl, refl, refl, refl)

groups :
    (parse_remote_groups (some " a || b|") "|" ≡ "a" ∷ "b" ∷ [])
    × (parse_remote_groups (some "a, b;, c") ";," ≡ "a, b" ∷ "c" ∷ [])
unfolding parse_remote_groups
groups = (refl, refl)

paths :
    (canonicalize_path (some "/mlflow/") "" (some "/mlflow/api/2.0/x") none none none
      ≡ "/api/2.0/x")
    × (canonicalize_path (some "/mlflow") "/mlflow/other" none none none none ≡ "/mlflow/other")
    × (canonicalize_path none "" none (some "root/graphql") (some " root/ ") none ≡ "/graphql")
    × (is_unprotected_path "/healthy" ≡ true)
    × (is_unprotected_path "/api/2.0/x" ≡ false)
unfolding canonicalize_path is_unprotected_path
paths = (refl, refl, refl, refl, refl)

flags :
    (parse_bool_env (some " On ") false ≡ ok true)
    × (parse_bool_env (some "0") true ≡ ok false)
    × (parse_bool_env none true ≡ ok true)
    × (parse_bool_env (some "") true ≡ raised (mlflow invalid_parameter_value))
unfolding parse_bool_env
flags = (refl, refl, refl, refl)

resolve_bearer_token-IsToken_example : IsToken (resolve_bearer_token (some "Bearer x") none)
resolve_bearer_token-IsToken_example = resolve_bearer_token-IsToken (some "Bearer x") none

parse_remote_groups-nonempty_example :
    All (λ group. nonempty group ≡ true) (parse_remote_groups (some "a||b") "|")
parse_remote_groups-nonempty_example = parse_remote_groups-nonempty (some "a||b") "|"

canonicalize_path-IsAbsolute_example :
    let path = canonicalize_path (some "/mlflow") "mlflow/api" none none (some "/a") none in
    ((nonempty path ≡ false) × (nonempty (or_path none (or_path none "mlflow/api")) ≡ false))
    ⊎ IsAbsolute path
canonicalize_path-IsAbsolute_example =
    canonicalize_path-IsAbsolute (some "/mlflow") "mlflow/api" none none (some "/a") none
