-- ===== src/Auth/Authorize.antt =====
-- auth/core.py, `_authorize_request_async` and what it calls: what the components that decide have to
-- offer, and what the functions of this part share.
pub mod Budget
pub mod Gateway
pub mod Rule
pub mod Loop
pub mod Contract
pub mod Kubernetes
use mlflow_integration.Shared.{
  String, Bool, true, false, Option, none, some, List, [], ◌∷◌, if◌then◌else◌, Outcome, ℕ,
}
use mlflow_integration.Shared.Action.{Action, ◌>>=◌, pure, lift}
use mlflow_integration.Shared.Json.{Json, Fields}
use mlflow_integration.Auth.Identity.{RequestIdentity}
use mlflow_integration.Auth.Access.{Query}
use mlflow_integration.Auth.Rules.{AuthorizationRule, ResourceNameParser, CollectionPolicy}
use mlflow_integration.Auth.Request.{AuthorizationRequest}
use mlflow_integration.Auth.Request

-- How the names of the resources of a request are resolved: `ResourceReferenceNotPresentError`, another
-- `ResourceNameResolutionError`, or names.
pub data Resolution : Type 0 where
  resolved : List String → Resolution
  reference_missing unresolved : Resolution

-- The methods of `KubernetesAuthorizer` that are called, on the caches that they read and write.
pub record Authorizer (S : Type 0) : Type 0 where
  pub is_allowed : RequestIdentity → Query → Action S Bool
  pub can_access_workspace : RequestIdentity → String → String → Action S Bool

-- The other components: auth/resource_names.py, auth/collection_filters.py, auth/compiler.py,
-- `skill_artifact_rules`, two lookups of MLflow's tracking store, and what Authorize/Budget.antt reads of numbers.
pub record Collaborators (S : Type 0) : Type 0 where
  pub parse_json : String → Option Json
  pub is_one : String → Bool
  pub digit : ℕ → Option (Option ℕ)
  pub resolve_resource_names : AuthorizationRequest → List ResourceNameParser → Action S Resolution
  pub resolve_gateway_model_definition_names_for_use : AuthorizationRequest → Action S Resolution
  pub resolve_gateway_secret_names_for_use : AuthorizationRequest → Action S Resolution
  pub get_gateway_endpoint : String → Action S (List (Option String))
  pub get_gateway_model_definition : String → Action S (Option String)
  pub normalize_collection_request :
      AuthorizationRequest → Option CollectionPolicy → Outcome (AuthorizationRequest × Bool)
  pub apply_request_collection_filter :
      RequestIdentity
      → String
      → Option CollectionPolicy
      → AuthorizationRequest
      → Action S (AuthorizationRequest × Bool)
  pub find_authorization_rules :
      String → String → Option Fields → Outcome (Option (List AuthorizationRule))
  pub skill_artifact_rules :
      AuthorizationRequest → List AuthorizationRule → Outcome (List AuthorizationRule)

-- The arguments of a call of `is_allowed`.
abbrev pub query : String → String → String → Option String → Option String → Query
query resource verb workspace subresource name = record {
  resource_type = resource;
  verb = verb;
  namespace = workspace;
  subresource = subresource;
  resource_name = name;
}

module _ {S : Type 0} (authorizer : Authorizer S) (identity : RequestIdentity) where
  -- `all(authorizer.is_allowed(…, resource_name=name) for name in names)`
  unfoldable pub all_allowed : (String → Query) → List String → Action S Bool
  all_allowed query_of [] s = pure true s
  all_allowed query_of (name ∷ names) s =
      (authorizer.is_allowed identity (query_of name) >>= λ allowed.
      if allowed then all_allowed query_of names else pure false)
        s

  -- `bool(names) and all(…)`
  unfoldable pub names_allowed : (String → Query) → List String → Action S Bool
  unfolding all_allowed
  names_allowed query_of [] = pure false
  names_allowed query_of (name ∷ names) = all_allowed query_of (name ∷ names)

module _ {S : Type 0} (parts : Collaborators S) where
  -- `await _ensure_request_context_json_body(request_context, allow_get_body=…)`
  abbrev pub with_loaded_body : Bool → AuthorizationRequest → Action S AuthorizationRequest
  with_loaded_body allow_get_body request =
      lift (Request.ensure_json_body parts.parse_json allow_get_body request)
