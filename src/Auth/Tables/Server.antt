-- ===== src/Auth/Tables/Server.antt =====
-- auth/rules_base.py, `BASE_PATH_AUTHORIZATION_RULES`: gateway invocations, artifacts, traces and jobs.
use mlflow_integration.Shared.{String, none, List, [], ◌∷◌}
use mlflow_integration.Auth.Rules.{
  AuthorizationRule, datasets_rule, experiment_id_to_name, experiments_rule,
  gateway_endpoints_use_rule, gateway_proxy_endpoint_name, model_id_to_experiment_name,
  otel_experiment_id_header_to_name, registered_model_name, registered_models_rule,
  request_experiment_id, request_experiment_ids, request_run_ids, request_search_model_versions,
  rule, run_id_to_experiment_name, trace_id_to_experiment_name, trace_request_id_to_experiment_name,
  with_parsers, with_policy,
}

-- Gateway invocations, artifacts, traces and jobs.
unfoldable pub server_path_rules : String → List ((String × String) × List AuthorizationRule)
server_path_rules otlp_traces_path =
    (("/version", "GET"), rule none none ∷ [])
    ∷ (("/server-info", "GET"), rule none none ∷ [])
    ∷ (
      ("/api/2.0/mlflow/model-versions/search", "GET"),
      with_policy request_search_model_versions (registered_models_rule "list") ∷ [],
    )
    ∷ (
      ("/ajax-api/2.0/mlflow/model-versions/search", "GET"),
      with_policy request_search_model_versions (registered_models_rule "list") ∷ [],
    )
    ∷ (("/graphql", "GET"), experiments_rule "get" ∷ [])
    ∷ (("/graphql", "POST"), experiments_rule "get" ∷ [])
    ∷ (("/api/2.0/mlflow/gateway-proxy", "GET"), gateway_endpoints_use_rule ∷ [])
    ∷ (
      ("/api/2.0/mlflow/gateway-proxy", "POST"),
      with_parsers (gateway_proxy_endpoint_name ∷ []) gateway_endpoints_use_rule ∷ [],
    )
    ∷ (("/ajax-api/2.0/mlflow/gateway-proxy", "GET"), gateway_endpoints_use_rule ∷ [])
    ∷ (
      ("/ajax-api/2.0/mlflow/gateway-proxy", "POST"),
      with_parsers (gateway_proxy_endpoint_name ∷ []) gateway_endpoints_use_rule ∷ [],
    )
    ∷ (
      ("/gateway/<endpoint_name>/mlflow/invocations", "POST"),
      with_parsers (gateway_proxy_endpoint_name ∷ []) gateway_endpoints_use_rule ∷ [],
    )
    ∷ (
      ("/gateway/mlflow/v1/chat/completions", "POST"),
      with_parsers (gateway_proxy_endpoint_name ∷ []) gateway_endpoints_use_rule ∷ [],
    )
    ∷ (
      ("/gateway/openai/v1/chat/completions", "POST"),
      with_parsers (gateway_proxy_endpoint_name ∷ []) gateway_endpoints_use_rule ∷ [],
    )
    ∷ (
      ("/gateway/openai/v1/embeddings", "POST"),
      with_parsers (gateway_proxy_endpoint_name ∷ []) gateway_endpoints_use_rule ∷ [],
    )
    ∷ (
      ("/gateway/openai/v1/responses", "POST"),
      with_parsers (gateway_proxy_endpoint_name ∷ []) gateway_endpoints_use_rule ∷ [],
    )
    ∷ (
      ("/gateway/anthropic/v1/messages", "POST"),
      with_parsers (gateway_proxy_endpoint_name ∷ []) gateway_endpoints_use_rule ∷ [],
    )
    ∷ (
      ("/gateway/gemini/v1beta/models/<endpoint_name>:generateContent", "POST"),
      with_parsers (gateway_proxy_endpoint_name ∷ []) gateway_endpoints_use_rule ∷ [],
    )
    ∷ (
      ("/gateway/gemini/v1beta/models/<endpoint_name>:streamGenerateContent", "POST"),
      with_parsers (gateway_proxy_endpoint_name ∷ []) gateway_endpoints_use_rule ∷ [],
    )
    ∷ (
      ("/get-artifact", "GET"),
      with_parsers (run_id_to_experiment_name ∷ []) (experiments_rule "get") ∷ [],
    )
    ∷ (
      ("/model-versions/get-artifact", "GET"),
      with_parsers (registered_model_name ∷ []) (registered_models_rule "get") ∷ [],
    )
    ∷ (
      ("/ajax-api/2.0/mlflow/upload-artifact", "POST"),
      with_parsers (run_id_to_experiment_name ∷ []) (experiments_rule "update") ∷ [],
    )
    ∷ (
      ("/ajax-api/2.0/mlflow/get-trace-artifact", "GET"),
      with_parsers (trace_request_id_to_experiment_name ∷ []) (experiments_rule "get") ∷ [],
    )
    ∷ (
      ("/ajax-api/3.0/mlflow/get-trace-artifact", "GET"),
      with_parsers (trace_request_id_to_experiment_name ∷ []) (experiments_rule "get") ∷ [],
    )
    ∷ (
      ("/ajax-api/2.0/mlflow/metrics/get-history-bulk", "GET"),
      with_policy request_run_ids (experiments_rule "list") ∷ [],
    )
    ∷ (
      ("/ajax-api/2.0/mlflow/metrics/get-history-bulk-interval", "GET"),
      with_policy request_run_ids (experiments_rule "list") ∷ [],
    )
    ∷ (
      ("/ajax-api/2.0/mlflow/runs/create-promptlab-run", "POST"),
      with_parsers (experiment_id_to_name ∷ []) (experiments_rule "update") ∷ [],
    )
    ∷ (
      ("/ajax-api/2.0/mlflow/logged-models/<model_id>/artifacts/files", "GET"),
      with_parsers (model_id_to_experiment_name ∷ []) (experiments_rule "get") ∷ [],
    )
    ∷ (
      ("/api/2.0/mlflow/experiments/search-datasets", "POST"),
      with_policy request_experiment_ids (datasets_rule "list") ∷ [],
    )
    ∷ (
      ("/ajax-api/2.0/mlflow/experiments/search-datasets", "POST"),
      with_policy request_experiment_ids (datasets_rule "list") ∷ [],
    )
    ∷ (
      ("/api/3.0/mlflow/traces/<trace_id>/assessments/<assessment_id>", "DELETE"),
      with_parsers (trace_id_to_experiment_name ∷ []) (experiments_rule "update") ∷ [],
    )
    ∷ (
      ("/ajax-api/3.0/mlflow/traces/<trace_id>/assessments/<assessment_id>", "DELETE"),
      with_parsers (trace_id_to_experiment_name ∷ []) (experiments_rule "update") ∷ [],
    )
    ∷ (
      ("/api/3.0/mlflow/traces/get", "GET"),
      with_parsers (trace_id_to_experiment_name ∷ []) (experiments_rule "get") ∷ [],
    )
    ∷ (
      ("/ajax-api/3.0/mlflow/traces/get", "GET"),
      with_parsers (trace_id_to_experiment_name ∷ []) (experiments_rule "get") ∷ [],
    )
    ∷ (
      (otlp_traces_path, "POST"),
      with_parsers (otel_experiment_id_header_to_name ∷ []) (experiments_rule "update") ∷ [],
    )
    ∷ (("/ajax-api/3.0/jobs", "POST"), experiments_rule "update" ∷ [])
    ∷ (("/ajax-api/3.0/jobs/", "POST"), experiments_rule "update" ∷ [])
    ∷ (("/ajax-api/3.0/jobs/<job_id>", "GET"), experiments_rule "get" ∷ [])
    ∷ (("/ajax-api/3.0/jobs/<job_id>/", "GET"), experiments_rule "get" ∷ [])
    ∷ (("/ajax-api/3.0/jobs/cancel/<job_id>", "PATCH"), experiments_rule "update" ∷ [])
    ∷ (("/ajax-api/3.0/jobs/cancel/<job_id>/", "PATCH"), experiments_rule "update" ∷ [])
    ∷ (
      ("/ajax-api/3.0/jobs/search", "POST"),
      with_policy request_experiment_id (experiments_rule "list") ∷ [],
    )
    ∷ (
      ("/ajax-api/3.0/jobs/search/", "POST"),
      with_policy request_experiment_id (experiments_rule "list") ∷ [],
    )
    ∷ (("/ajax-api/3.0/mlflow/jobs/<job_id>", "GET"), experiments_rule "get" ∷ [])
    ∷ (("/ajax-api/3.0/mlflow/jobs/<job_id>/", "GET"), experiments_rule "get" ∷ [])
    ∷ (("/ajax-api/3.0/mlflow/jobs/cancel/<job_id>", "PATCH"), experiments_rule "update" ∷ [])
    ∷ (("/ajax-api/3.0/mlflow/jobs/cancel/<job_id>/", "PATCH"), experiments_rule "update" ∷ [])
    ∷ []
