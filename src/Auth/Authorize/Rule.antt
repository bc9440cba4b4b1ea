-- ===== src/Auth/Authorize/Rule.antt =====
-- The body of the loop over the rules in `_authorize_request_async`.
pub mod Grants
pub mod Checks
pub mod Authorized
use mlflow_integration.Shared.{
  String, Bool, true, false, ◌&&◌, ◌||◌, not, Option, none, some, List, [], ◌∷◌, if◌then◌else◌,
  string_eq, Outcome, ok, raised, mlflow, internal_error, permission_denied,
  invalid_parameter_value,
}
use mlflow_integration.Shared.Action.{Action, ◌>>=◌, pure, raise, lift}
use mlflow_integration.Shared.Text.{truthy}
use mlflow_integration.Shared.Dict.{find}
use mlflow_integration.Shared.Json.{Json, array, nil}
use mlflow_integration.Auth.Identity.{RequestIdentity, or_blank}
use mlflow_integration.Auth.Access.{Query}
use mlflow_integration.Auth.Rules.{
  AuthorizationRule, ResourceNameParser, CollectionPolicy, is_narrowing,
  is_graphql_collection_policy, is_list_scorers, requires_request_body,
}
use mlflow_integration.Auth.Request.{AuthorizationRequest, has_params}
use mlflow_integration.Auth.Authorize.{
  Resolution, resolved, reference_missing, unresolved, Authorizer, Collaborators, query,
  names_allowed, with_loaded_body,
}
use mlflow_integration.Auth.Authorize.Budget.{writes_budget, enforce_gateway_budget_scope}
use mlflow_integration.Auth.Authorize.Gateway.{enforce_gateway_dependency_permissions}

-- The local variables `updated_request_context`, `has_permission` and `resource_reference_missing`, and whether the
-- rule is left by `continue`.
pub record Progress : Type 0 where
  pub request : AuthorizationRequest
  pub granted : Bool
  pub missing : Bool
  pub exempt : Bool

abbrev pub progress : AuthorizationRequest → Bool → Bool → Bool → Progress
progress request granted missing exempt = record {
  request = request;
  granted = granted;
  missing = missing;
  exempt = exempt;
}

abbrev pub has_parsers : List ResourceNameParser → Bool
has_parsers [] = false
has_parsers (parser ∷ parsers) = true

-- `hybrid_missing_reference_filter_rule`
abbrev pub is_hybrid : AuthorizationRule → Bool
is_hybrid rule =
    has_parsers rule.resource_name_parsers
    && rule.fallback_to_collection_policy
    && is_graphql_collection_policy rule.collection_policy

-- `value == []`
abbrev pub is_empty_array : Option Json → Bool
is_empty_array (some (array nil)) = true
is_empty_array value = false

abbrev pub is_missing : Resolution → Bool
is_missing reference_missing = true
is_missing (resolved names) = false
is_missing unresolved = false

-- The two exceptions of a rule that denies.
abbrev pub denial : Option String → Outcome AuthorizationRequest
denial none = raised (mlflow internal_error)
denial (some message) = raised (mlflow permission_denied)

module _ {S : Type 0} (parts : Collaborators S) (authorizer : Authorizer S)
    (identity : RequestIdentity) where
  -- The selector of scorers that a broad permission keeps.
  scorer_scope : AuthorizationRule → Bool → AuthorizationRequest → Action S AuthorizationRequest
  unfolding find is_list_scorers
  scorer_scope rule allowed request =
      if allowed && is_list_scorers rule.collection_policy && not (has_params request.query_params)
      then (with_loaded_body parts true request >>= λ loaded.
          lift (parts.normalize_collection_request loaded rule.collection_policy) >>= λ found.
          if not found.1 || is_empty_array (find "experiment_ids" found.0.query_params)
          then raise (mlflow invalid_parameter_value)
          else pure found.0)
      else pure request

  module _ (workspace : String) (rule : AuthorizationRule) (resource verb : String) where
    -- The arguments of a call of `is_allowed`.
    abbrev pub rule_query : Option String → Query
    rule_query name = query resource verb workspace rule.subresource name

    by_resolution : AuthorizationRequest → Resolution → Action S Progress
    unfolding names_allowed
    by_resolution request (resolved names) =
        names_allowed authorizer identity (λ name. rule_query (some name)) names >>= λ allowed.
        pure (progress request allowed false false)
    by_resolution request reference_missing =
        pure (progress request false true rule.allow_if_resource_reference_missing)
    by_resolution request unresolved = pure (progress request false false false)

    -- The fallback to the names of the resources.
    pub by_names : Bool → AuthorizationRequest → Action S Progress
    unfolding by_resolution
    by_names allowed request =
        if not allowed && has_parsers rule.resource_name_parsers
        then (with_loaded_body parts false request >>= λ loaded.
            parts.resolve_resource_names loaded rule.resource_name_parsers >>= by_resolution loaded)
        else pure (progress request allowed false false)

    -- `response_filter_on_missing_reference`
    pub note_missing : Bool → Progress → Action S Progress
    unfolding is_graphql_collection_policy
    note_missing allowed p =
        if allowed && is_hybrid rule
        then (with_loaded_body parts false p.request >>= λ loaded.
            parts.resolve_resource_names loaded rule.resource_name_parsers >>= λ resolution.
            pure (progress loaded p.granted (is_missing resolution || p.missing) p.exempt))
        else pure p

    abbrev pub apply_filter : AuthorizationRequest → Action S (AuthorizationRequest × Bool)
    apply_filter request =
        parts.apply_request_collection_filter identity workspace rule.collection_policy request

    retry_filter : AuthorizationRequest × Bool → Action S (AuthorizationRequest × Bool)
    retry_filter (request, true) = pure (request, true)
    retry_filter (request, false) = with_loaded_body parts false request >>= apply_filter

    -- `elif response_or_graphql_filter_policy: …`
    abbrev pub is_deferred : Bool → Bool
    is_deferred missing =
        is_graphql_collection_policy rule.collection_policy && (not (is_hybrid rule) || missing)

    -- The fallback to the collection policy.
    by_policy : Progress → Action S Progress
    unfolding retry_filter is_narrowing requires_request_body is_graphql_collection_policy
    by_policy p =
        if not p.granted && is_narrowing rule.collection_policy
        then ((if requires_request_body rule.collection_policy
              then with_loaded_body parts true p.request
              else pure p.request)
            >>= λ loaded. apply_filter loaded >>= retry_filter >>= λ found.
                pure (progress found.0 (found.1 || is_deferred p.missing) p.missing p.exempt))
        else pure p

    -- The end of the branch of a rule with a verb.
    concluded : Progress → Action S AuthorizationRequest
    concluded p =
        if not p.granted
        then raise (mlflow permission_denied)
        else enforce_gateway_dependency_permissions parts authorizer identity workspace rule
            p.request

    after_names : Bool → Progress → Action S AuthorizationRequest
    unfolding note_missing by_policy concluded
    after_names allowed p =
        if p.exempt then pure p.request else (note_missing allowed p >>= by_policy >>= concluded)

    -- A rule with a verb and a resource.
    pub check_resource : AuthorizationRequest → Action S AuthorizationRequest
    unfolding scorer_scope by_names after_names
    check_resource request = authorizer.is_allowed identity (rule_query none) >>= λ allowed.
        scorer_scope rule allowed request >>= λ scoped.
        by_names allowed scoped >>= after_names allowed

  -- The branch of a rule with a verb.
  check_verb :
      Option String
      → AuthorizationRule
      → String
      → AuthorizationRequest
      → Action S AuthorizationRequest
  unfolding check_resource
  check_verb workspace rule verb request =
      if not (truthy workspace)
      then raise (mlflow invalid_parameter_value)
      else ((if writes_budget rule
            then lift (
                enforce_gateway_budget_scope parts.is_one parts.digit parts.parse_json rule request)
            else pure request)
          >>= λ scoped.
              if not (truthy rule.resource)
              then raise (mlflow internal_error)
              else check_resource (or_blank workspace) rule (or_blank rule.resource) verb scoped)

  -- The branches of a rule without a verb.
  check_workspace :
      Option String → AuthorizationRule → AuthorizationRequest → Action S AuthorizationRequest
  check_workspace workspace rule request =
      if rule.workspace_access_check && not rule.apply_workspace_filter
      then (if not (truthy workspace)
          then raise (mlflow invalid_parameter_value)
          else authorizer.can_access_workspace identity (or_blank workspace) "get" >>= λ allowed.
              if allowed then pure request else raise (mlflow permission_denied))
      else if rule.apply_workspace_filter
      then pure request
      else raise (mlflow internal_error)

  by_verb :
      Option String
      → AuthorizationRule
      → Option String
      → AuthorizationRequest
      → Action S AuthorizationRequest
  unfolding check_workspace check_verb
  by_verb workspace rule none request = check_workspace workspace rule request
  by_verb workspace rule (some verb) request = check_verb workspace rule verb request

  -- The body of the loop.
  unfoldable pub check_rule :
      Option String → AuthorizationRule → AuthorizationRequest → Action S AuthorizationRequest
  unfolding by_verb
  check_rule workspace rule request =
      if rule.deny
      then lift (denial rule.deny_message)
      else if rule.requires_workspace && not (truthy workspace)
      then raise (mlflow invalid_parameter_value)
      else by_verb workspace rule rule.verb request
