-- ===== src/Tests/Settings.antt =====
-- A configuration from the environment.
use mlflow_integration.Shared.{
  String, Bool, Option, none, some, ℕ, nat_eqb, if◌then◌else◌, raised, mlflow,
  invalid_parameter_value, string_eq, ◌==◌, ◌≡◌, refl,
}
use mlflow_integration.Shared.Text.{nonempty, strip}
use mlflow_integration.Auth.Settings.{from_env}
use mlflow_integration.Auth.Settings.Validity.{Checks, IsUsable, from_env-Checks}

abbrev to_float : String → Option ℕ
to_float text = if text == "60" then some 60 else if text == "0" then some 0 else none

abbrev at_most_zero : ℕ → Bool
at_most_zero n = nat_eqb n 0

abbrev environment : String → Option String
environment name =
    if name == "MLFLOW_K8S_AUTH_CACHE_TTL_SECONDS"
    then some "60"
    else if name == "MLFLOW_K8S_AUTH_WORKSPACES_ENABLED"
    then some "off"
    else if name == "MLFLOW_K8S_AUTH_NAMESPACE"
    then some " team "
    else none

-- Workspaces are off, and there is no namespace.
no_namespace :
    from_env to_float at_most_zero 300
      (λ name. if name == "MLFLOW_K8S_AUTH_WORKSPACES_ENABLED" then some "off" else none)
    ≡ raised (mlflow invalid_parameter_value)
unfolding from_env nonempty strip
no_namespace = refl

from_env-Checks_example :
    Checks (IsUsable at_most_zero) (from_env to_float at_most_zero 300 environment)
from_env-Checks_example = from_env-Checks at_most_zero to_float 300 refl environment
