-- ===== src/Auth/Tables/Services.antt =====
-- auth/rules_base.py, `BASE_PATH_AUTHORIZATION_RULES`: the assistant, discovery, scorers and artifacts.
use mlflow_integration.Shared.{String, List, [], ◌∷◌}
use mlflow_integration.Auth.Rules.{
  AuthorizationRule, artifact_experiment_id_to_name, assistants_rule, broad_only, datasets_rule,
  experiment_id_to_name, experiments_rule, gateway_endpoints_use_rule,
  gateway_model_definitions_rule, gateway_proxy_endpoint_name, gateway_secrets_rule,
  registered_models_rule, with_parsers, with_policy,
}
use mlflow_integration.Auth.Tables.Common.{issue_invoke_rules}

-- The assistant, discovery, scorers and artifacts.
unfoldable pub service_path_rules : List ((String × String) × List AuthorizationRule)
unfolding issue_invoke_rules
service_path_rules =
    (("/ajax-api/3.0/mlflow/assistant/message", "POST"), assistants_rule "create" ∷ [])
    ∷ (
      ("/ajax-api/3.0/mlflow/assistant/sessions/<session_id>/stream", "GET"),
      assistants_rule "get" ∷ [],
    )
    ∷ (("/ajax-api/3.0/mlflow/assistant/status", "GET"), assistants_rule "get" ∷ [])
    ∷ (
      ("/ajax-api/3.0/mlflow/assistant/sessions/<session_id>", "PATCH"),
      assistants_rule "update" ∷ [],
    )
    ∷ (
      ("/ajax-api/3.0/mlflow/assistant/providers/<provider>/health", "GET"),
      assistants_rule "get" ∷ [],
    )
    ∷ (("/ajax-api/3.0/mlflow/assistant/config", "GET"), assistants_rule "get" ∷ [])
    ∷ (("/ajax-api/3.0/mlflow/assistant/config", "PUT"), assistants_rule "update" ∷ [])
    ∷ (("/ajax-api/3.0/mlflow/assistant/skills/install", "POST"), assistants_rule "update" ∷ [])
    ∷ (
      ("/ajax-api/3.0/mlflow/gateway/supported-providers", "GET"),
      with_policy broad_only (gateway_model_definitions_rule "list") ∷ [],
    )
    ∷ (
      ("/ajax-api/3.0/mlflow/gateway/supported-models", "GET"),
      with_policy broad_only (gateway_model_definitions_rule "list") ∷ [],
    )
    ∷ (
      ("/ajax-api/3.0/mlflow/gateway/provider-config", "GET"),
      gateway_model_definitions_rule "get" ∷ [],
    )
    ∷ (("/ajax-api/3.0/mlflow/gateway/secrets/config", "GET"), gateway_secrets_rule "get" ∷ [])
    ∷ (
      ("/ajax-api/3.0/mlflow/scorers/online-configs", "GET"),
      with_parsers (experiment_id_to_name ∷ []) (experiments_rule "get") ∷ [],
    )
    ∷ (
      ("/api/3.0/mlflow/scorers/online-configs", "GET"),
      with_parsers (experiment_id_to_name ∷ []) (experiments_rule "get") ∷ [],
    )
    ∷ (
      ("/ajax-api/3.0/mlflow/scorers/online-config", "PUT"),
      with_parsers (experiment_id_to_name ∷ []) (experiments_rule "update") ∷ [],
    )
    ∷ (
      ("/api/3.0/mlflow/scorers/online-config", "PUT"),
      with_parsers (experiment_id_to_name ∷ []) (experiments_rule "update") ∷ [],
    )
    ∷ (
      ("/ajax-api/3.0/mlflow/scorer/invoke", "POST"),
      with_parsers (experiment_id_to_name ∷ []) (experiments_rule "update") ∷ [],
    )
    ∷ (
      ("/ajax-api/3.0/mlflow/demo/generate", "POST"),
      experiments_rule "create" ∷ datasets_rule "create" ∷ registered_models_rule "create" ∷ [],
    )
    ∷ (
      ("/ajax-api/3.0/mlflow/demo/delete", "POST"),
      experiments_rule "delete" ∷ datasets_rule "delete" ∷ registered_models_rule "delete" ∷ [],
    )
    ∷ (("/ajax-api/3.0/mlflow/issues/invoke", "POST"), issue_invoke_rules)
    ∷ (("/ajax-api/3.0/mlflow/issues/invoke/", "POST"), issue_invoke_rules)
    ∷ (
      ("/ajax-api/3.0/mlflow/assistant/providers/<provider>/models", "GET"),
      assistants_rule "get" ∷ [],
    )
    ∷ (
      ("/gateway/proxy/<endpoint_name>/<path:path>", "POST"),
      with_parsers (gateway_proxy_endpoint_name ∷ []) gateway_endpoints_use_rule ∷ [],
    )
    ∷ (
      ("/ajax-api/3.0/mlflow/genai/evaluate/invoke", "POST"),
      with_parsers (experiment_id_to_name ∷ []) (experiments_rule "update") ∷ [],
    )
    ∷ (
      ("/gateway/openai/v1/responses/compact", "POST"),
      with_parsers (gateway_proxy_endpoint_name ∷ []) gateway_endpoints_use_rule ∷ [],
    )
    ∷ (
      ("/ajax-api/3.0/mlflow/assistant/sessions/<session_id>/permission", "POST"),
      assistants_rule "update" ∷ [],
    )
    ∷ (("/ajax-api/3.0/mlflow/assistant/providers", "GET"), assistants_rule "get" ∷ [])
    ∷ (
      ("/api/2.0/mlflow-artifacts/artifacts/<path:artifact_path>", "GET"),
      with_parsers (artifact_experiment_id_to_name ∷ []) (experiments_rule "get") ∷ [],
    )
    ∷ (
      ("/ajax-api/2.0/mlflow-artifacts/artifacts/<path:artifact_path>", "GET"),
      with_parsers (artifact_experiment_id_to_name ∷ []) (experiments_rule "get") ∷ [],
    )
    ∷ (
      ("/api/2.0/mlflow-artifacts/artifacts/<path:artifact_path>", "PUT"),
      with_parsers (artifact_experiment_id_to_name ∷ []) (experiments_rule "update") ∷ [],
    )
    ∷ (
      ("/ajax-api/2.0/mlflow-artifacts/artifacts/<path:artifact_path>", "PUT"),
      with_parsers (artifact_experiment_id_to_name ∷ []) (experiments_rule "update") ∷ [],
    )
    ∷ []
