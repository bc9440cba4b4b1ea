-- ===== src/Auth/Tables/Workspaces.antt =====
-- auth/rules_base.py, `BASE_REQUEST_AUTHORIZATION_RULES`: workspaces, budgets, guardrails, label schemas and review queues.
use mlflow_integration.Shared.{String, true, false, none, some, List, [], ◌∷◌}
use mlflow_integration.Auth.Rules.{
  AuthorizationRule, artifact_experiment_id_to_name, broad_only, experiment_id_to_name,
  experiments_rule, gateway_budgets_rule, gateway_guardrails_rule, issue_id_to_experiment_name,
  request_batch_get_trace_infos, request_experiment_id, rule, run_id_to_experiment_name,
  with_parsers, with_policy, workspaces_rule,
}
use mlflow_integration.Auth.Tables.Common.{
  create_gateway_guardrail_rules, gateway_budget_windows_denied_message,
  list_endpoint_guardrail_rules, update_endpoint_guardrail_rules, workspace_mutation_denied_message,
}

-- Workspaces, budgets, guardrails, label schemas and review queues.
unfoldable pub workspace_rules : List (String × List AuthorizationRule)
unfolding create_gateway_guardrail_rules list_endpoint_guardrail_rules
    update_endpoint_guardrail_rules
workspace_rules =
    (
      "ListWorkspaces",
      (record (workspaces_rule none) { apply_workspace_filter = true; requires_workspace = false })
          ∷ [],
    )
    ∷ (
      "GetWorkspace",
      (record (rule none none) { requires_workspace = false; workspace_access_check = true }) ∷ [],
    )
    ∷ (
      "CreateWorkspace",
      (record (workspaces_rule (some "create")) {
        deny = true;
        deny_message = some workspace_mutation_denied_message;
        requires_workspace = false;
      })
          ∷ [],
    )
    ∷ (
      "UpdateWorkspace",
      (record (workspaces_rule (some "update")) {
        deny = true;
        deny_message = some workspace_mutation_denied_message;
        requires_workspace = false;
      })
          ∷ [],
    )
    ∷ (
      "DeleteWorkspace",
      (record (workspaces_rule (some "delete")) {
        deny = true;
        deny_message = some workspace_mutation_denied_message;
        requires_workspace = false;
      })
          ∷ [],
    )
    ∷ (
      "BatchGetTraceInfos",
      with_policy request_batch_get_trace_infos (experiments_rule "list") ∷ [],
    )
    ∷ (
      "GetPresignedDownloadUrl",
      with_parsers (artifact_experiment_id_to_name ∷ []) (experiments_rule "get") ∷ [],
    )
    ∷ ("CreateIssue", with_parsers (experiment_id_to_name ∷ []) (experiments_rule "update") ∷ [])
    ∷ ("GetIssue", with_parsers (issue_id_to_experiment_name ∷ []) (experiments_rule "get") ∷ [])
    ∷ (
      "UpdateIssue",
      with_parsers (issue_id_to_experiment_name ∷ []) (experiments_rule "update") ∷ [],
    )
    ∷ ("SearchIssues", with_policy request_experiment_id (experiments_rule "list") ∷ [])
    ∷ ("CreateGatewayBudgetPolicy", gateway_budgets_rule "create" ∷ [])
    ∷ ("GetGatewayBudgetPolicy", gateway_budgets_rule "get" ∷ [])
    ∷ ("UpdateGatewayBudgetPolicy", gateway_budgets_rule "update" ∷ [])
    ∷ ("DeleteGatewayBudgetPolicy", gateway_budgets_rule "delete" ∷ [])
    ∷ ("ListGatewayBudgetPolicies", with_policy broad_only (gateway_budgets_rule "list") ∷ [])
    ∷ (
      "ListGatewayBudgetWindows",
      (record (gateway_budgets_rule "list") {
        deny = true;
        deny_message = some gateway_budget_windows_denied_message;
      })
          ∷ [],
    )
    ∷ (
      "CreatePresignedUploadUrl",
      with_parsers (run_id_to_experiment_name ∷ []) (experiments_rule "update") ∷ [],
    )
    ∷ ("CreateGatewayGuardrail", create_gateway_guardrail_rules)
    ∷ ("GetGatewayGuardrail", gateway_guardrails_rule "get" ∷ [])
    ∷ ("DeleteGatewayGuardrail", gateway_guardrails_rule "delete" ∷ [])
    ∷ ("ListGatewayGuardrails", gateway_guardrails_rule "list" ∷ [])
    ∷ ("AddGuardrailToEndpoint", update_endpoint_guardrail_rules)
    ∷ ("RemoveGuardrailFromEndpoint", update_endpoint_guardrail_rules)
    ∷ ("ListEndpointGuardrailConfigs", list_endpoint_guardrail_rules)
    ∷ ("UpdateEndpointGuardrailConfig", update_endpoint_guardrail_rules)
    ∷ (
      "CreateLabelSchema",
      with_parsers (experiment_id_to_name ∷ []) (experiments_rule "update") ∷ [],
    )
    ∷ ("GetLabelSchema", experiments_rule "get" ∷ [])
    ∷ (
      "GetLabelSchemaByName",
      with_parsers (experiment_id_to_name ∷ []) (experiments_rule "get") ∷ [],
    )
    ∷ ("ListLabelSchemas", with_parsers (experiment_id_to_name ∷ []) (experiments_rule "get") ∷ [])
    ∷ ("UpdateLabelSchema", experiments_rule "update" ∷ [])
    ∷ ("DeleteLabelSchema", experiments_rule "update" ∷ [])
    ∷ (
      "CreateReviewQueue",
      with_parsers (experiment_id_to_name ∷ []) (experiments_rule "update") ∷ [],
    )
    ∷ (
      "GetOrCreateUserQueue",
      with_parsers (experiment_id_to_name ∷ []) (experiments_rule "update") ∷ [],
    )
    ∷ ("GetReviewQueue", experiments_rule "get" ∷ [])
    ∷ (
      "GetReviewQueueByName",
      with_parsers (experiment_id_to_name ∷ []) (experiments_rule "get") ∷ [],
    )
    ∷ ("ListReviewQueues", with_parsers (experiment_id_to_name ∷ []) (experiments_rule "get") ∷ [])
    ∷ ("UpdateReviewQueue", experiments_rule "update" ∷ [])
    ∷ ("DeleteReviewQueue", experiments_rule "update" ∷ [])
    ∷ ("AddItemsToReviewQueue", experiments_rule "update" ∷ [])
    ∷ ("RemoveItemsFromReviewQueue", experiments_rule "update" ∷ [])
    ∷ ("ListReviewQueueItems", experiments_rule "get" ∷ [])
    ∷ ("SetReviewQueueItemStatus", experiments_rule "update" ∷ [])
    ∷ (
      "CreatePresignedDownloadUrl",
      with_parsers (run_id_to_experiment_name ∷ []) (experiments_rule "get") ∷ [],
    )
    ∷ []
