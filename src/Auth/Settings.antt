-- ===== src/Auth/Settings.antt =====
-- auth/authorizer.py, `_parse_bool_env` and `KubernetesAuthConfig`. `to_float` stands for `float(text)`, which may raise
-- ValueError, and `at_most_zero` for the test `value <= 0`.
pub mod Validity
use mlflow_integration.Shared.{
  String, Bool, true, false, Option, none, some, List, [], ◌∷◌, ℕ, if◌then◌else◌, not, ◌&&◌,
  is_some, any, Outcome, ok, raised, ◌>>=◌, mlflow, invalid_parameter_value,
}
use mlflow_integration.Shared.Text.{nonempty, strip, lower}
use mlflow_integration.Auth.Credentials.{spells}
use mlflow_integration.Auth.Identity.{
  AuthorizationMode, self_subject_access_review, subject_access_review,
}

-- `normalized in {…}`
is_one_of : List ℕ → List String → Bool
unfolding spells
is_one_of codes words = any (λ word. spells codes word) words

-- `_parse_bool_env`
unfoldable pub parse_bool_env : Option String → Bool → Outcome Bool
unfolding is_one_of strip lower
parse_bool_env none default = ok default
parse_bool_env (some value) default =
    let normalized = lower (strip value) in
    if is_one_of normalized ("1" ∷ "true" ∷ "yes" ∷ "on" ∷ [])
    then ok true
    else if is_one_of normalized ("0" ∷ "false" ∷ "no" ∷ "off" ∷ [])
    then ok false
    else raised (mlflow invalid_parameter_value)

-- The fields of `KubernetesAuthConfig`.
pub record KubernetesAuthConfig (F : Type 0) : Type 0 where
  pub cache_ttl_seconds : F
  pub username_claim : String
  pub authorization_mode : AuthorizationMode
  pub user_header : String
  pub groups_header : String
  pub groups_separator : String
  pub workspaces_enabled : Bool
  pub namespace : Option String

-- os.environ.get(name, default)
abbrev pub or_default : Option String → String → String
or_default none default = default
or_default (some value) default = value

-- `AuthorizationMode(mode_env.strip().lower())`
unfoldable pub mode_of : String → Outcome AuthorizationMode
unfolding spells strip lower
mode_of mode_env =
    let normalized = lower (strip mode_env) in
    if spells normalized "self_subject_access_review"
    then ok self_subject_access_review
    else if spells normalized "subject_access_review"
    then ok subject_access_review
    else raised (mlflow invalid_parameter_value)

-- `(namespace.strip() or None) if isinstance(namespace, str) else None`
unfoldable pub namespace_of : Option String → Option String
unfolding strip nonempty
namespace_of none = none
namespace_of (some namespace) = if nonempty (strip namespace) then some (strip namespace) else none

-- `groups_separator or DEFAULT_REMOTE_GROUPS_SEPARATOR`
unfoldable pub separator_of : String → String
unfolding nonempty
separator_of separator = if nonempty separator then separator else "|"

-- What the environment gives, with the headers stripped.
unfoldable pub configured :
    {F : Type 0} → (String → Option String) → Bool → F → AuthorizationMode → KubernetesAuthConfig F
unfolding namespace_of separator_of strip
configured get enabled ttl mode = record {
  cache_ttl_seconds = ttl;
  username_claim = or_default (get "MLFLOW_K8S_AUTH_USERNAME_CLAIM") "sub";
  authorization_mode = mode;
  user_header = strip (or_default (get "MLFLOW_K8S_AUTH_REMOTE_USER_HEADER") "x-remote-user");
  groups_header = strip (or_default (get "MLFLOW_K8S_AUTH_REMOTE_GROUPS_HEADER") "x-remote-groups");
  groups_separator = separator_of (or_default (get "MLFLOW_K8S_AUTH_REMOTE_GROUPS_SEPARATOR") "|");
  workspaces_enabled = enabled;
  namespace = namespace_of (get "MLFLOW_K8S_AUTH_NAMESPACE");
}

-- The checks at the end.
unfoldable pub checked : {F : Type 0} → KubernetesAuthConfig F → Outcome (KubernetesAuthConfig F)
unfolding nonempty
checked c =
    if not (nonempty c.user_header)
    then raised (mlflow invalid_parameter_value)
    else if not (nonempty c.groups_header)
    then raised (mlflow invalid_parameter_value)
    else if not c.workspaces_enabled && not (is_some c.namespace)
    then raised (mlflow invalid_parameter_value)
    else ok c

module _ {F : Type 0} (to_float : String → Option F) (at_most_zero : F → Bool)
    (default_ttl : F) where
  unfoldable pub positive : Option F → Outcome F
  positive none = raised (mlflow invalid_parameter_value)
  positive (some seconds) =
      if at_most_zero seconds then raised (mlflow invalid_parameter_value) else ok seconds

  unfoldable pub ttl_of : Option String → Outcome F
  unfolding nonempty positive
  ttl_of none = ok default_ttl
  ttl_of (some text) = if nonempty text then positive (to_float text) else ok default_ttl

  -- `KubernetesAuthConfig.from_env`, with `os.environ.get`
  unfoldable pub from_env : (String → Option String) → Outcome (KubernetesAuthConfig F)
  unfolding parse_bool_env ttl_of mode_of configured checked
  from_env get = parse_bool_env (get "MLFLOW_K8S_AUTH_WORKSPACES_ENABLED") true >>= λ enabled.
      ttl_of (get "MLFLOW_K8S_AUTH_CACHE_TTL_SECONDS") >>= λ ttl.
      mode_of (or_default (get "MLFLOW_K8S_AUTH_AUTHORIZATION_MODE") "self_subject_access_review")
      >>= λ mode. checked (configured get enabled ttl mode)
