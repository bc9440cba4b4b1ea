-- ===== src/Auth/Tables/Common.antt =====
-- auth/rules_base.py: rules that several entries share, and messages of auth/constants.py.
use mlflow_integration.Shared.{String, true, List, [], ◌∷◌}
use mlflow_integration.Auth.Rules.{
  AuthorizationRule, experiment_id_to_name, experiments_rule, gateway_endpoint_id_to_name,
  gateway_endpoints_rule, gateway_endpoints_use_rule, gateway_guardrails_rule,
  gateway_secrets_use_rule, optional_action_endpoint_id_to_name, optional_gateway_endpoint_name,
  optional_gateway_secret_id_to_name, optional_trace_ids_to_experiment_names, with_parsers,
}

abbrev pub workspace_mutation_denied_message : String
workspace_mutation_denied_message =
    "Workspace create, update, and delete operations are not supported when MLflow workspaces map to Kubernetes namespaces."

abbrev pub gateway_budget_windows_denied_message : String
gateway_budget_windows_denied_message =
    "Gateway budget window listing is disabled because the upstream MLflow endpoint returns tracker state without workspace filtering."

unfoldable pub issue_invoke_rules : List AuthorizationRule
issue_invoke_rules =
    with_parsers (experiment_id_to_name ∷ []) (experiments_rule "update")
    ∷ (record (with_parsers (optional_trace_ids_to_experiment_names ∷ [])
        (experiments_rule "get")) { allow_if_resource_reference_missing = true })
    ∷ (record (with_parsers (optional_gateway_secret_id_to_name ∷ []) gateway_secrets_use_rule) {
      allow_if_resource_reference_missing = true;
    })
    ∷ (record (with_parsers (optional_gateway_endpoint_name ∷ []) gateway_endpoints_use_rule) {
      allow_if_resource_reference_missing = true;
    })
    ∷ []

unfoldable pub create_gateway_guardrail_rules : List AuthorizationRule
create_gateway_guardrail_rules =
    gateway_guardrails_rule "create"
    ∷ (record (with_parsers (optional_action_endpoint_id_to_name ∷ []) gateway_endpoints_use_rule) {
      allow_if_resource_reference_missing = true;
    })
    ∷ []

unfoldable pub update_endpoint_guardrail_rules : List AuthorizationRule
update_endpoint_guardrail_rules =
    (record (with_parsers (gateway_endpoint_id_to_name ∷ []) (gateway_endpoints_rule "update")) {
      skip_gateway_dependency_permissions = true;
    })
    ∷ gateway_guardrails_rule "update"
    ∷ []

unfoldable pub list_endpoint_guardrail_rules : List AuthorizationRule
list_endpoint_guardrail_rules =
    with_parsers (gateway_endpoint_id_to_name ∷ []) (gateway_endpoints_rule "get")
    ∷ gateway_guardrails_rule "list"
    ∷ []
