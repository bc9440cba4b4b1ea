-- ===== src/Auth/Tables/McpServers.antt =====
-- auth/rules_base.py, `BASE_PATH_AUTHORIZATION_RULES`: MCP servers, metrics and traces.
use mlflow_integration.Shared.{String, List, [], ◌∷◌}
use mlflow_integration.Auth.Rules.{
  AuthorizationRule, assistants_rule, broad_only, gateway_endpoints_rule,
  gateway_endpoints_use_rule, gateway_proxy_endpoint_name, mcp_server_name, mcp_servers_rule,
  request_search_mcp_access_endpoints, request_search_mcp_servers, with_parsers, with_policy,
}

-- MCP servers, metrics and traces.
unfoldable pub mcp_path_rules : List ((String × String) × List AuthorizationRule)
mcp_path_rules =
    (("/api/3.0/mlflow/mcp-servers", "POST"), mcp_servers_rule "create" ∷ [])
    ∷ (
      ("/api/3.0/mlflow/mcp-servers", "GET"),
      with_policy request_search_mcp_servers (mcp_servers_rule "list") ∷ [],
    )
    ∷ (
      ("/api/3.0/mlflow/mcp-servers/endpoints", "GET"),
      with_policy request_search_mcp_access_endpoints (mcp_servers_rule "list") ∷ [],
    )
    ∷ (
      ("/api/3.0/mlflow/mcp-servers/<path:name>/versions", "POST"),
      with_parsers (mcp_server_name ∷ []) (mcp_servers_rule "update") ∷ [],
    )
    ∷ (
      ("/api/3.0/mlflow/mcp-servers/<path:name>/versions", "GET"),
      with_parsers (mcp_server_name ∷ []) (mcp_servers_rule "get") ∷ [],
    )
    ∷ (
      ("/api/3.0/mlflow/mcp-servers/<path:name>/versions/<path:version>", "GET"),
      with_parsers (mcp_server_name ∷ []) (mcp_servers_rule "get") ∷ [],
    )
    ∷ (
      ("/api/3.0/mlflow/mcp-servers/<path:name>/versions/<path:version>", "PATCH"),
      with_parsers (mcp_server_name ∷ []) (mcp_servers_rule "update") ∷ [],
    )
    ∷ (
      ("/api/3.0/mlflow/mcp-servers/<path:name>/versions/<path:version>", "DELETE"),
      with_parsers (mcp_server_name ∷ []) (mcp_servers_rule "update") ∷ [],
    )
    ∷ (
      ("/api/3.0/mlflow/mcp-servers/<path:name>/versions/<path:version>/tags", "POST"),
      with_parsers (mcp_server_name ∷ []) (mcp_servers_rule "update") ∷ [],
    )
    ∷ (
      ("/api/3.0/mlflow/mcp-servers/<path:name>/versions/<path:version>/tags/<path:key>", "DELETE"),
      with_parsers (mcp_server_name ∷ []) (mcp_servers_rule "update") ∷ [],
    )
    ∷ (
      ("/api/3.0/mlflow/mcp-servers/<path:name>/endpoints", "POST"),
      with_parsers (mcp_server_name ∷ []) (mcp_servers_rule "update") ∷ [],
    )
    ∷ (
      ("/api/3.0/mlflow/mcp-servers/<path:name>/endpoints", "GET"),
      with_parsers (mcp_server_name ∷ []) (mcp_servers_rule "get") ∷ [],
    )
    ∷ (
      ("/api/3.0/mlflow/mcp-servers/<path:name>/endpoints/<endpoint_id>", "GET"),
      with_parsers (mcp_server_name ∷ []) (mcp_servers_rule "get") ∷ [],
    )
    ∷ (
      ("/api/3.0/mlflow/mcp-servers/<path:name>/endpoints/<endpoint_id>", "PATCH"),
      with_parsers (mcp_server_name ∷ []) (mcp_servers_rule "update") ∷ [],
    )
    ∷ (
      ("/api/3.0/mlflow/mcp-servers/<path:name>/endpoints/<endpoint_id>", "DELETE"),
      with_parsers (mcp_server_name ∷ []) (mcp_servers_rule "update") ∷ [],
    )
    ∷ (
      ("/api/3.0/mlflow/mcp-servers/<path:name>/tags", "POST"),
      with_parsers (mcp_server_name ∷ []) (mcp_servers_rule "update") ∷ [],
    )
    ∷ (
      ("/api/3.0/mlflow/mcp-servers/<path:name>/tags/<path:key>", "DELETE"),
      with_parsers (mcp_server_name ∷ []) (mcp_servers_rule "update") ∷ [],
    )
    ∷ (
      ("/api/3.0/mlflow/mcp-servers/<path:name>/aliases", "POST"),
      with_parsers (mcp_server_name ∷ []) (mcp_servers_rule "update") ∷ [],
    )
    ∷ (
      ("/api/3.0/mlflow/mcp-servers/<path:name>/aliases/<path:alias>", "GET"),
      with_parsers (mcp_server_name ∷ []) (mcp_servers_rule "get") ∷ [],
    )
    ∷ (
      ("/api/3.0/mlflow/mcp-servers/<path:name>/aliases/<path:alias>", "DELETE"),
      with_parsers (mcp_server_name ∷ []) (mcp_servers_rule "update") ∷ [],
    )
    ∷ (
      ("/api/3.0/mlflow/mcp-servers/<path:name>", "GET"),
      with_parsers (mcp_server_name ∷ []) (mcp_servers_rule "get") ∷ [],
    )
    ∷ (
      ("/api/3.0/mlflow/mcp-servers/<path:name>", "PATCH"),
      with_parsers (mcp_server_name ∷ []) (mcp_servers_rule "update") ∷ [],
    )
    ∷ (
      ("/api/3.0/mlflow/mcp-servers/<path:name>", "DELETE"),
      with_parsers (mcp_server_name ∷ []) (mcp_servers_rule "delete") ∷ [],
    )
    ∷ (
      ("/ajax-api/3.0/mlflow/assistant/sessions/<session_id>/tool-result", "POST"),
      assistants_rule "update" ∷ [],
    )
    ∷ (
      ("/gateway/mlflow/v1/models", "GET"),
      with_policy broad_only (gateway_endpoints_rule "list") ∷ [],
    )
    ∷ (
      ("/gateway/typesafe/v1/systemone", "POST"),
      with_parsers (gateway_proxy_endpoint_name ∷ []) gateway_endpoints_use_rule ∷ [],
    )
    ∷ []
