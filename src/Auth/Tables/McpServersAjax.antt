-- ===== src/Auth/Tables/McpServersAjax.antt =====
-- auth/rules_base.py, `BASE_PATH_AUTHORIZATION_RULES`: MCP servers of the user interface.
use mlflow_integration.Shared.{String, List, [], ◌∷◌}
use mlflow_integration.Auth.Rules.{
  AuthorizationRule, mcp_server_name, mcp_servers_rule, request_search_mcp_access_endpoints,
  request_search_mcp_servers, with_parsers, with_policy,
}

-- MCP servers of the user interface.
unfoldable pub mcp_ajax_path_rules : List ((String × String) × List AuthorizationRule)
mcp_ajax_path_rules =
    (("/ajax-api/3.0/mlflow/mcp-servers", "POST"), mcp_servers_rule "create" ∷ [])
    ∷ (
      ("/ajax-api/3.0/mlflow/mcp-servers", "GET"),
      with_policy request_search_mcp_servers (mcp_servers_rule "list") ∷ [],
    )
    ∷ (
      ("/ajax-api/3.0/mlflow/mcp-servers/endpoints", "GET"),
      with_policy request_search_mcp_access_endpoints (mcp_servers_rule "list") ∷ [],
    )
    ∷ (
      ("/ajax-api/3.0/mlflow/mcp-servers/<path:name>/versions", "POST"),
      with_parsers (mcp_server_name ∷ []) (mcp_servers_rule "update") ∷ [],
    )
    ∷ (
      ("/ajax-api/3.0/mlflow/mcp-servers/<path:name>/versions", "GET"),
      with_parsers (mcp_server_name ∷ []) (mcp_servers_rule "get") ∷ [],
    )
    ∷ (
      ("/ajax-api/3.0/mlflow/mcp-servers/<path:name>/versions/<path:version>", "GET"),
      with_parsers (mcp_server_name ∷ []) (mcp_servers_rule "get") ∷ [],
    )
    ∷ (
      ("/ajax-api/3.0/mlflow/mcp-servers/<path:name>/versions/<path:version>", "PATCH"),
      with_parsers (mcp_server_name ∷ []) (mcp_servers_rule "update") ∷ [],
    )
    ∷ (
      ("/ajax-api/3.0/mlflow/mcp-servers/<path:name>/versions/<path:version>", "DELETE"),
      with_parsers (mcp_server_name ∷ []) (mcp_servers_rule "update") ∷ [],
    )
    ∷ (
      ("/ajax-api/3.0/mlflow/mcp-servers/<path:name>/versions/<path:version>/tags", "POST"),
      with_parsers (mcp_server_name ∷ []) (mcp_servers_rule "update") ∷ [],
    )
    ∷ (
      (
        "/ajax-api/3.0/mlflow/mcp-servers/<path:name>/versions/<path:version>/tags/<path:key>",
        "DELETE",
      ),
      with_parsers (mcp_server_name ∷ []) (mcp_servers_rule "update") ∷ [],
    )
    ∷ (
      ("/ajax-api/3.0/mlflow/mcp-servers/<path:name>/endpoints", "POST"),
      with_parsers (mcp_server_name ∷ []) (mcp_servers_rule "update") ∷ [],
    )
    ∷ (
      ("/ajax-api/3.0/mlflow/mcp-servers/<path:name>/endpoints", "GET"),
      with_parsers (mcp_server_name ∷ []) (mcp_servers_rule "get") ∷ [],
    )
    ∷ (
      ("/ajax-api/3.0/mlflow/mcp-servers/<path:name>/endpoints/<endpoint_id>", "GET"),
      with_parsers (mcp_server_name ∷ []) (mcp_servers_rule "get") ∷ [],
    )
    ∷ (
      ("/ajax-api/3.0/mlflow/mcp-servers/<path:name>/endpoints/<endpoint_id>", "PATCH"),
      with_parsers (mcp_server_name ∷ []) (mcp_servers_rule "update") ∷ [],
    )
    ∷ (
      ("/ajax-api/3.0/mlflow/mcp-servers/<path:name>/endpoints/<endpoint_id>", "DELETE"),
      with_parsers (mcp_server_name ∷ []) (mcp_servers_rule "update") ∷ [],
    )
    ∷ (
      ("/ajax-api/3.0/mlflow/mcp-servers/<path:name>/tags", "POST"),
      with_parsers (mcp_server_name ∷ []) (mcp_servers_rule "update") ∷ [],
    )
    ∷ (
      ("/ajax-api/3.0/mlflow/mcp-servers/<path:name>/tags/<path:key>", "DELETE"),
      with_parsers (mcp_server_name ∷ []) (mcp_servers_rule "update") ∷ [],
    )
    ∷ (
      ("/ajax-api/3.0/mlflow/mcp-servers/<path:name>/aliases", "POST"),
      with_parsers (mcp_server_name ∷ []) (mcp_servers_rule "update") ∷ [],
    )
    ∷ (
      ("/ajax-api/3.0/mlflow/mcp-servers/<path:name>/aliases/<path:alias>", "GET"),
      with_parsers (mcp_server_name ∷ []) (mcp_servers_rule "get") ∷ [],
    )
    ∷ (
      ("/ajax-api/3.0/mlflow/mcp-servers/<path:name>/aliases/<path:alias>", "DELETE"),
      with_parsers (mcp_server_name ∷ []) (mcp_servers_rule "update") ∷ [],
    )
    ∷ (
      ("/ajax-api/3.0/mlflow/mcp-servers/<path:name>", "GET"),
      with_parsers (mcp_server_name ∷ []) (mcp_servers_rule "get") ∷ [],
    )
    ∷ (
      ("/ajax-api/3.0/mlflow/mcp-servers/<path:name>", "PATCH"),
      with_parsers (mcp_server_name ∷ []) (mcp_servers_rule "update") ∷ [],
    )
    ∷ (
      ("/ajax-api/3.0/mlflow/mcp-servers/<path:name>", "DELETE"),
      with_parsers (mcp_server_name ∷ []) (mcp_servers_rule "delete") ∷ [],
    )
    ∷ []
