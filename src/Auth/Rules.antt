-- ===== src/Auth/Rules.antt =====
-- auth/rules.py: what a rule says, and the functions that the tables are written with. The names of
-- the parsers and of the collection policies are those of auth/resource_names.py and
-- auth/collection_filters.py.
use mlflow_integration.Shared.{
  String, Bool, true, false, ◌&&◌, ◌||◌, not, Option, none, some, List, [], is_some,
}

-- `RESOURCE_NAME_PARSER_…`
pub data ResourceNameParser : Type 0 where
  experiment_name experiment_id_to_name experiment_ids_to_names : ResourceNameParser
  new_experiment_name run_id_to_experiment_name model_id_to_experiment_name : ResourceNameParser
  dataset_id_to_name registered_model_name new_registered_model_name : ResourceNameParser
  webhook_id_to_registered_model_name job_id_to_experiment_name : ResourceNameParser
  issue_id_to_experiment_name trace_request_id_to_experiment_name : ResourceNameParser
  trace_id_to_experiment_name optional_trace_ids_to_experiment_names : ResourceNameParser
  trace_v3_experiment_id_to_name artifact_experiment_id_to_name : ResourceNameParser
  otel_experiment_id_header_to_name mcp_server_name skill_name skill_artifact_name :
      ResourceNameParser
  gateway_secret_id_to_name optional_gateway_secret_id_to_name : ResourceNameParser
  gateway_endpoint_id_to_name gateway_endpoint_selector_to_name : ResourceNameParser
  gateway_proxy_endpoint_name optional_gateway_endpoint_name : ResourceNameParser
  optional_action_endpoint_id_to_name gateway_model_definition_id_to_name : ResourceNameParser
  graphql_experiment_id_to_name graphql_run_id_to_experiment_name : ResourceNameParser
  graphql_run_ids_to_experiment_names : ResourceNameParser

-- `COLLECTION_POLICY_…`
pub data CollectionPolicy : Type 0 where
  broad_only graphql_filter request_experiment_ids request_experiment_id : CollectionPolicy
  request_run_ids request_trace_locations request_authorized_experiment_ids : CollectionPolicy
  request_search_experiments request_search_registered_models : CollectionPolicy
  request_search_model_versions request_batch_get_traces : CollectionPolicy
  request_batch_get_trace_infos request_list_scorers request_search_datasets : CollectionPolicy
  request_search_mcp_servers request_search_mcp_access_endpoints : CollectionPolicy

pub record AuthorizationRule : Type 0 where
  pub verb : Option String
  pub resource : Option String
  pub subresource : Option String
  pub resource_name_parsers : List ResourceNameParser
  pub collection_policy : Option CollectionPolicy
  pub override_run_user : Bool
  pub apply_workspace_filter : Bool
  pub requires_workspace : Bool
  pub deny : Bool
  pub workspace_access_check : Bool
  pub deny_message : Option String
  pub allow_if_resource_reference_missing : Bool
  pub fallback_to_collection_policy : Bool
  pub skip_gateway_dependency_permissions : Bool
  pub check_skill_artifact_permissions : Bool

-- `AuthorizationRule(verb, resource=resource)`, with the defaults of the other fields
abbrev pub rule : Option String → Option String → AuthorizationRule
rule verb resource = record {
  verb = verb;
  resource = resource;
  subresource = none;
  resource_name_parsers = [];
  collection_policy = none;
  override_run_user = false;
  apply_workspace_filter = false;
  requires_workspace = true;
  deny = false;
  workspace_access_check = false;
  deny_message = none;
  allow_if_resource_reference_missing = false;
  fallback_to_collection_policy = false;
  skip_gateway_dependency_permissions = false;
  check_skill_artifact_permissions = false;
}

-- The keyword arguments `resource_name_parsers` and `collection_policy` of these functions.
abbrev pub with_parsers : List ResourceNameParser → AuthorizationRule → AuthorizationRule
with_parsers parsers r = record r { resource_name_parsers = parsers }

abbrev pub with_policy : CollectionPolicy → AuthorizationRule → AuthorizationRule
with_policy policy r = record r { collection_policy = some policy }

abbrev pub with_subresource : String → AuthorizationRule → AuthorizationRule
with_subresource name r = record r { subresource = some name }

abbrev pub assistants_rule : String → AuthorizationRule
assistants_rule verb = rule (some verb) (some "assistants")

abbrev pub datasets_rule : String → AuthorizationRule
datasets_rule verb = rule (some verb) (some "datasets")

abbrev pub experiments_rule : String → AuthorizationRule
experiments_rule verb = rule (some verb) (some "experiments")

abbrev pub mcp_servers_rule : String → AuthorizationRule
mcp_servers_rule verb = rule (some verb) (some "mcpservers")

abbrev pub registered_models_rule : String → AuthorizationRule
registered_models_rule verb = rule (some verb) (some "registeredmodels")

abbrev pub gateway_secrets_rule : String → AuthorizationRule
gateway_secrets_rule verb = rule (some verb) (some "gatewaysecrets")

abbrev pub gateway_secrets_use_rule : AuthorizationRule
gateway_secrets_use_rule = with_subresource "use" (gateway_secrets_rule "create")

abbrev pub gateway_endpoints_rule : String → AuthorizationRule
gateway_endpoints_rule verb = rule (some verb) (some "gatewayendpoints")

abbrev pub gateway_budgets_rule : String → AuthorizationRule
gateway_budgets_rule verb = rule (some verb) (some "gatewaybudgets")

abbrev pub gateway_guardrails_rule : String → AuthorizationRule
gateway_guardrails_rule verb = rule (some verb) (some "gatewayguardrails")

abbrev pub gateway_endpoints_use_rule : AuthorizationRule
gateway_endpoints_use_rule = with_subresource "use" (gateway_endpoints_rule "create")

abbrev pub gateway_model_definitions_rule : String → AuthorizationRule
gateway_model_definitions_rule verb = rule (some verb) (some "gatewaymodeldefinitions")

-- `_workspaces_rule` without its guard, which `refuses_workspaces_rule` states for a finished rule.
abbrev pub workspaces_rule : Option String → AuthorizationRule
workspaces_rule verb = rule verb none

-- auth/rules_skill_registry.py, `_skills_rule`
abbrev pub skills_rule : String → AuthorizationRule
skills_rule verb = rule (some verb) (some "skills")

-- The two `ValueError`s of `_workspaces_rule`.
unfoldable pub refuses_workspaces_rule : AuthorizationRule → Bool
refuses_workspaces_rule r =
    (is_some r.verb && not (r.deny || r.apply_workspace_filter || r.workspace_access_check))
    || (r.deny && not (is_some r.deny_message))

-- `policy not in {None, COLLECTION_POLICY_BROAD_ONLY}`
unfoldable pub is_narrowing : Option CollectionPolicy → Bool
is_narrowing none = false
is_narrowing (some broad_only) = false
is_narrowing (some _) = true

-- auth/collection_filters.py, `is_graphql_collection_policy`
unfoldable pub is_graphql_collection_policy : Option CollectionPolicy → Bool
is_graphql_collection_policy (some graphql_filter) = true
is_graphql_collection_policy _ = false

unfoldable pub is_list_scorers : Option CollectionPolicy → Bool
is_list_scorers (some request_list_scorers) = true
is_list_scorers _ = false

-- auth/core.py, `_COLLECTION_POLICIES_REQUIRING_REQUEST_BODY`
unfoldable pub requires_request_body : Option CollectionPolicy → Bool
requires_request_body (some request_authorized_experiment_ids) = true
requires_request_body (some request_batch_get_trace_infos) = true
requires_request_body (some request_batch_get_traces) = true
requires_request_body (some request_list_scorers) = true
requires_request_body (some request_search_experiments) = true
requires_request_body (some request_search_datasets) = true
requires_request_body (some request_search_model_versions) = true
requires_request_body (some request_search_registered_models) = true
requires_request_body _ = false
