-- ===== src/Auth/Tables/Gateway.antt =====
-- auth/rules_base.py, `BASE_REQUEST_AUTHORIZATION_RULES`: the gateway and prompt optimization.
use mlflow_integration.Shared.{String, List, [], ◌∷◌}
use mlflow_integration.Auth.Rules.{
  AuthorizationRule, broad_only, experiment_id_to_name, experiments_rule,
  gateway_endpoint_id_to_name, gateway_endpoint_selector_to_name, gateway_endpoints_rule,
  gateway_model_definition_id_to_name, gateway_model_definitions_rule, gateway_secret_id_to_name,
  gateway_secrets_rule, job_id_to_experiment_name, request_experiment_id, with_parsers, with_policy,
}

-- The gateway and prompt optimization.
unfoldable pub gateway_rules : List (String × List AuthorizationRule)
gateway_rules =
    ("CreateGatewaySecret", gateway_secrets_rule "create" ∷ [])
    ∷ (
      "GetGatewaySecretInfo",
      with_parsers (gateway_secret_id_to_name ∷ []) (gateway_secrets_rule "get") ∷ [],
    )
    ∷ (
      "UpdateGatewaySecret",
      with_parsers (gateway_secret_id_to_name ∷ []) (gateway_secrets_rule "update") ∷ [],
    )
    ∷ (
      "DeleteGatewaySecret",
      with_parsers (gateway_secret_id_to_name ∷ []) (gateway_secrets_rule "delete") ∷ [],
    )
    ∷ ("ListGatewaySecretInfos", with_policy broad_only (gateway_secrets_rule "list") ∷ [])
    ∷ ("CreateGatewayEndpoint", gateway_endpoints_rule "create" ∷ [])
    ∷ (
      "GetGatewayEndpoint",
      with_parsers (gateway_endpoint_selector_to_name ∷ []) (gateway_endpoints_rule "get") ∷ [],
    )
    ∷ (
      "UpdateGatewayEndpoint",
      with_parsers (gateway_endpoint_id_to_name ∷ []) (gateway_endpoints_rule "update") ∷ [],
    )
    ∷ (
      "DeleteGatewayEndpoint",
      with_parsers (gateway_endpoint_id_to_name ∷ []) (gateway_endpoints_rule "delete") ∷ [],
    )
    ∷ ("ListGatewayEndpoints", with_policy broad_only (gateway_endpoints_rule "list") ∷ [])
    ∷ ("CreateGatewayModelDefinition", gateway_model_definitions_rule "create" ∷ [])
    ∷ (
      "GetGatewayModelDefinition",
      with_parsers (gateway_model_definition_id_to_name ∷ []) (gateway_model_definitions_rule "get")
          ∷ [],
    )
    ∷ (
      "UpdateGatewayModelDefinition",
      with_parsers (gateway_model_definition_id_to_name ∷ [])
            (gateway_model_definitions_rule "update")
          ∷ [],
    )
    ∷ (
      "DeleteGatewayModelDefinition",
      with_parsers (gateway_model_definition_id_to_name ∷ [])
            (gateway_model_definitions_rule "delete")
          ∷ [],
    )
    ∷ (
      "ListGatewayModelDefinitions",
      with_policy broad_only (gateway_model_definitions_rule "list") ∷ [],
    )
    ∷ (
      "AttachModelToGatewayEndpoint",
      with_parsers (gateway_endpoint_id_to_name ∷ []) (gateway_endpoints_rule "update") ∷ [],
    )
    ∷ (
      "DetachModelFromGatewayEndpoint",
      with_parsers (gateway_endpoint_id_to_name ∷ []) (gateway_endpoints_rule "update") ∷ [],
    )
    ∷ (
      "CreateGatewayEndpointBinding",
      with_parsers (gateway_endpoint_id_to_name ∷ []) (gateway_endpoints_rule "update") ∷ [],
    )
    ∷ (
      "DeleteGatewayEndpointBinding",
      with_parsers (gateway_endpoint_id_to_name ∷ []) (gateway_endpoints_rule "update") ∷ [],
    )
    ∷ (
      "ListGatewayEndpointBindings",
      with_parsers (gateway_endpoint_id_to_name ∷ []) (gateway_endpoints_rule "list") ∷ [],
    )
    ∷ (
      "SetGatewayEndpointTag",
      with_parsers (gateway_endpoint_id_to_name ∷ []) (gateway_endpoints_rule "update") ∷ [],
    )
    ∷ (
      "DeleteGatewayEndpointTag",
      with_parsers (gateway_endpoint_id_to_name ∷ []) (gateway_endpoints_rule "update") ∷ [],
    )
    ∷ (
      "CreatePromptOptimizationJob",
      with_parsers (experiment_id_to_name ∷ []) (experiments_rule "update") ∷ [],
    )
    ∷ (
      "GetPromptOptimizationJob",
      with_parsers (job_id_to_experiment_name ∷ []) (experiments_rule "get") ∷ [],
    )
    ∷ (
      "SearchPromptOptimizationJobs",
      with_policy request_experiment_id (experiments_rule "list") ∷ [],
    )
    ∷ (
      "CancelPromptOptimizationJob",
      with_parsers (job_id_to_experiment_name ∷ []) (experiments_rule "update") ∷ [],
    )
    ∷ (
      "DeletePromptOptimizationJob",
      with_parsers (job_id_to_experiment_name ∷ []) (experiments_rule "update") ∷ [],
    )
    ∷ []
