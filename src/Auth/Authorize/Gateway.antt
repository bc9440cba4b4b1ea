-- ===== src/Auth/Authorize/Gateway.antt =====
-- `_enforce_gateway_dependency_permissions`: the model definitions of a gateway endpoint that is written, and the secrets
-- of a model definition that is written.
pub mod Origin
pub mod Use
use mlflow_integration.Shared.{
  String, Bool, true, false, ◌&&◌, ◌||◌, not, Option, none, some, List, [], ◌∷◌, if◌then◌else◌,
  string_eq, option_eq, ◌==◌, contains, Outcome, ok, raised, mlflow, permission_denied,
}
use mlflow_integration.Shared.Action.{Action, ◌>>=◌, pure, raise}
use mlflow_integration.Shared.Text.{nonempty, truthy, strip}
use mlflow_integration.Auth.Identity.{RequestIdentity, or_blank}
use mlflow_integration.Auth.Access.{Query}
use mlflow_integration.Auth.Rules.{AuthorizationRule}
use mlflow_integration.Auth.Request.{AuthorizationRequest, get_request_mapping_value}
use mlflow_integration.Auth.Authorize.{
  Resolution, resolved, reference_missing, unresolved, Authorizer, Collaborators, query,
  names_allowed, with_loaded_body,
}

abbrev pub has_names : List String → Bool
has_names [] = false
has_names (name ∷ names) = true

-- `except ResourceNameResolutionError: dependency_names = ()`
abbrev pub names_of : Resolution → List String
names_of (resolved names) = names
names_of reference_missing = []
names_of unresolved = []

abbrev pub with_name : Option String → List String → List String
unfolding nonempty strip
with_name none names = names
with_name (some name) names = if nonempty (strip name) then strip name ∷ names else names

-- The stripped names that are not empty.
unfoldable pub stripped_names : List (Option String) → List String
unfolding nonempty strip
stripped_names [] = []
stripped_names (name ∷ names) = with_name name (stripped_names names)

-- dict.fromkeys(names), with the names that were seen
unfoldable pub without_repeats : List String → List String → List String
without_repeats seen [] = []
without_repeats seen (name ∷ names) =
    let repeated = without_repeats seen names in
    let first = without_repeats (name ∷ seen) names in
    if contains seen name then repeated else name ∷ first

-- A request and the names that it depends on.
abbrev pub Dependencies : Type 0
Dependencies = AuthorizationRequest × List String

-- `_should_resolve_existing_gateway_model_definitions_for_use`
abbrev pub is_full_update : AuthorizationRequest → Bool
is_full_update request = request.path == "/api/2.0/mlflow/gateway/endpoints/update"

-- `except MlflowException: return ()`
abbrev pub without_mlflow : {S A : Type 0} → A → Outcome A × S → Outcome A × S
without_mlflow default (raised (mlflow code), s) = (ok default, s)
without_mlflow default (outcome, s) = (outcome, s)

-- `is_allowed(identity, resource, "create", workspace_name, "use", …)`
abbrev pub use_query : String → String → Option String → Query
use_query workspace resource name = query resource "create" workspace (some "use") name

abbrev pub permitted : {S : Type 0} → AuthorizationRequest → Bool → Action S AuthorizationRequest
permitted request allowed = if allowed then pure request else raise (mlflow permission_denied)

-- `rule.subresource != "use" and rule.verb in ("create", "update")`
abbrev pub writes : String → AuthorizationRule → Bool
writes resource rule =
    rule.resource == some resource
    && not (rule.subresource == some "use")
    && (rule.verb == some "create" || rule.verb == some "update")

module _ {S : Type 0} (parts : Collaborators S) where
  abbrev definitions_of : Option String → Action S (List (Option String))
  definitions_of none s = pure [] s
  definitions_of (some endpoint_id) s = without_mlflow [] (parts.get_gateway_endpoint endpoint_id s)

  abbrev secret_of : Option String → Action S (Option String)
  secret_of none s = pure none s
  secret_of (some definition_id) s =
      without_mlflow none (parts.get_gateway_model_definition definition_id s)

  -- `_resolve_existing_gateway_model_definition_names_for_use`
  unfoldable pub existing_model_definitions : AuthorizationRequest → Action S (List String)
  unfolding get_request_mapping_value stripped_names without_repeats
  existing_model_definitions request =
      definitions_of (get_request_mapping_value request ("endpoint_id" ∷ "endpointId" ∷ []))
      >>= λ names. pure (without_repeats [] (stripped_names names))

  -- `_resolve_existing_gateway_secret_names_for_use`
  unfoldable pub existing_secrets : AuthorizationRequest → Action S (List String)
  unfolding get_request_mapping_value nonempty strip
  existing_secrets request =
      secret_of
        (get_request_mapping_value request ("model_definition_id" ∷ "modelDefinitionId" ∷ []))
      >>= λ name. pure (with_name name [])

  retried :
      (AuthorizationRequest → Action S Resolution)
      → AuthorizationRequest
      → List String
      → Action S Dependencies
  retried resolve request (name ∷ names) = pure (request, name ∷ names)
  retried resolve request [] = with_loaded_body parts false request >>= λ loaded.
      resolve loaded >>= λ resolution. pure (loaded, names_of resolution)

  -- The names that the request gives, and those that its body gives if there are none.
  pub named_for_use :
      (AuthorizationRequest → Action S Resolution) → AuthorizationRequest → Action S Dependencies
  unfolding retried
  named_for_use resolve request =
      resolve request >>= λ resolution. retried resolve request (names_of resolution)

  abbrev or_existing :
      Bool → (AuthorizationRequest → Action S (List String)) → Dependencies → Action S Dependencies
  or_existing applies existing (request, names) =
      if not (has_names names) && applies
      then (existing request >>= λ found. pure (request, found))
      else pure (request, names)

  -- The model definitions of a gateway endpoint.
  pub endpoint_dependencies : AuthorizationRule → AuthorizationRequest → Action S Dependencies
  unfolding named_for_use existing_model_definitions
  endpoint_dependencies rule request =
      named_for_use (parts.resolve_gateway_model_definition_names_for_use) request >>= λ found.
      or_existing (rule.verb == some "update" && is_full_update found.0) existing_model_definitions
        found

  -- The secrets of a model definition.
  pub definition_dependencies : AuthorizationRule → AuthorizationRequest → Action S Dependencies
  unfolding named_for_use existing_secrets
  definition_dependencies rule request =
      named_for_use (parts.resolve_gateway_secret_names_for_use) request
      >>= or_existing (rule.verb == some "update") existing_secrets

  module _ (authorizer : Authorizer S) (identity : RequestIdentity) (workspace : String) where
    by_name : String → Dependencies → Action S AuthorizationRequest
    unfolding names_allowed
    by_name resource (request, names) =
        names_allowed authorizer identity (λ name. use_query workspace resource (some name)) names
        >>= permitted request

    -- The checks on a gateway endpoint.
    endpoint_use : AuthorizationRule → Dependencies → Action S AuthorizationRequest
    unfolding by_name
    endpoint_use rule (request, names) =
        if not (rule.verb == some "create" || has_names names)
        then pure request
        else authorizer.is_allowed identity (use_query workspace "gatewaymodeldefinitions" none)
          >>= λ allowed.
              if allowed then pure request else by_name "gatewaymodeldefinitions" (request, names)

    -- The checks on a model definition.
    definition_use : AuthorizationRule → AuthorizationRequest → Action S AuthorizationRequest
    unfolding by_name definition_dependencies
    definition_use rule request =
        authorizer.is_allowed identity (use_query workspace "gatewaysecrets" none) >>= λ allowed.
        if allowed
        then pure request
        else definition_dependencies rule request >>= by_name "gatewaysecrets"

    -- `_enforce_gateway_dependency_permissions`
    unfoldable pub enforce_gateway_dependency_permissions :
        AuthorizationRule → AuthorizationRequest → Action S AuthorizationRequest
    unfolding endpoint_use definition_use endpoint_dependencies
    enforce_gateway_dependency_permissions rule request =
        if not (nonempty workspace) || rule.skip_gateway_dependency_permissions
        then pure request
        else if writes "gatewayendpoints" rule
        then (endpoint_dependencies rule request >>= endpoint_use rule)
        else if writes "gatewaymodeldefinitions" rule
        then definition_use rule request
        else pure request
