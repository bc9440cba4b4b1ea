-- ===== src/Auth/Tables.antt =====
-- auth/rules.py, the two tables of rules, put together from auth/rules_base.py and
-- auth/rules_skill_registry.py. A request class of MLflow is known by its name, and the path of
-- OpenTelemetry traces, which MLflow defines, is a parameter.
pub mod Common
pub mod Experiments
pub mod Writes
pub mod Reads
pub mod Models
pub mod Gateway
pub mod Workspaces
pub mod Server
pub mod Services
pub mod McpServers
pub mod McpServersAjax
pub mod Skills
pub mod SkillsAjax
pub mod Completeness
use mlflow_integration.Shared.{
  String, Bool, true, Option, none, some, List, [], ◌∷◌, ◌++◌, Eq, string_eq, if◌then◌else◌,
  Outcome, ok, raised, unexpected, ◌>>=◌, map, ◌&&◌, ◌==◌, arith, ◌≡◌, ◌↔◌, eq_iff,
}
use mlflow_integration.Shared.Dict.{Dict, find, put}
use mlflow_integration.Auth.Rules.{AuthorizationRule}
use mlflow_integration.Auth.Tables.Experiments.{experiment_rules}
use mlflow_integration.Auth.Tables.Writes.{child_write_rules}
use mlflow_integration.Auth.Tables.Reads.{read_rules}
use mlflow_integration.Auth.Tables.Models.{model_rules}
use mlflow_integration.Auth.Tables.Gateway.{gateway_rules}
use mlflow_integration.Auth.Tables.Workspaces.{workspace_rules}
use mlflow_integration.Auth.Tables.Server.{server_path_rules}
use mlflow_integration.Auth.Tables.Services.{service_path_rules}
use mlflow_integration.Auth.Tables.McpServers.{mcp_path_rules}
use mlflow_integration.Auth.Tables.McpServersAjax.{mcp_ajax_path_rules}
use mlflow_integration.Auth.Tables.Skills.{skill_path_rules}
use mlflow_integration.Auth.Tables.SkillsAjax.{skill_ajax_path_rules}

-- A path and a method.
abbrev pub Route : Type 0
Route = String × String

abbrev pub same_route : Route → Route → Bool
same_route (p, m) (q, n) = m == n && p == q

pub same_route_iff : (r s : Route) → (same_route r s ≡ true) ↔ (r ≡ s)
same_route_iff (p, m) (q, n) = ground (arith, eq_iff p q, eq_iff m n)

instance abbrev pub route_eq : Eq Route
route_eq = record { equal = same_route; equal_iff = same_route_iff }

abbrev pub RequestTable : Type 0
RequestTable = Dict String (List AuthorizationRule)

abbrev pub PathTable : Type 0
PathTable = Dict Route (List AuthorizationRule)

unfoldable pub base_request_rules : RequestTable
unfolding experiment_rules child_write_rules read_rules model_rules gateway_rules workspace_rules
base_request_rules =
    experiment_rules
    ++ (child_write_rules ++ (read_rules ++ (model_rules ++ (gateway_rules ++ workspace_rules))))

unfoldable pub base_path_rules : String → PathTable
unfolding server_path_rules service_path_rules mcp_path_rules mcp_ajax_path_rules
base_path_rules otlp_traces_path =
    server_path_rules otlp_traces_path
    ++ (service_path_rules ++ (mcp_ajax_path_rules ++ mcp_path_rules))

unfoldable pub skill_registry_path_rules : PathTable
unfolding skill_path_rules skill_ajax_path_rules
skill_registry_path_rules = skill_path_rules ++ skill_ajax_path_rules

-- `rule._replace(check_skill_artifact_permissions=True)`
abbrev pub check_skill : AuthorizationRule → AuthorizationRule
check_skill r = record r { check_skill_artifact_permissions = true }

module _ {K : Type 0} ⦃e : Eq K⦄ where
  -- d.update(other)
  unfoldable pub update :
      Dict K (List AuthorizationRule)
      → Dict K (List AuthorizationRule)
      → Dict K (List AuthorizationRule)
  unfolding put
  update d [] = d
  update d ((k, rules) ∷ other) = update (put k rules d) other

  pub replace_found :
      K
      → Option (List AuthorizationRule)
      → Dict K (List AuthorizationRule)
      → Outcome (Dict K (List AuthorizationRule))
  unfolding put
  replace_found k none d = raised unexpected
  replace_found k (some rules) d = ok (put k (map check_skill rules) d)

  -- `d[k] = d[k]._replace(check_skill_artifact_permissions=True)`; every such entry is one rule.
  unfoldable pub check_skills :
      List K → Dict K (List AuthorizationRule) → Outcome (Dict K (List AuthorizationRule))
  unfolding replace_found find
  check_skills [] d = ok d
  check_skills (k ∷ keys) d = replace_found k (find k d) d >>= check_skills keys

-- The request classes and the routes of `apply_skill_registry_deltas`.
abbrev pub skill_artifact_requests : List String
skill_artifact_requests =
    "DownloadArtifact" ∷ "ListArtifactsMlflowArtifacts" ∷ "GetPresignedDownloadUrl"
    ∷ "UploadArtifact" ∷ "DeleteArtifact" ∷ "CreateMultipartUpload" ∷ "CompleteMultipartUpload"
    ∷ "AbortMultipartUpload" ∷ []

abbrev pub skill_artifact_routes : List Route
skill_artifact_routes =
    ("/api/2.0/mlflow-artifacts/artifacts/<path:artifact_path>", "GET")
    ∷ ("/ajax-api/2.0/mlflow-artifacts/artifacts/<path:artifact_path>", "GET")
    ∷ ("/api/2.0/mlflow-artifacts/artifacts/<path:artifact_path>", "PUT")
    ∷ ("/ajax-api/2.0/mlflow-artifacts/artifacts/<path:artifact_path>", "PUT")
    ∷ []

-- `apply_skill_registry_deltas`
unfoldable pub apply_skill_registry_deltas :
    RequestTable → PathTable → Outcome (RequestTable × PathTable)
unfolding check_skills update skill_registry_path_rules
apply_skill_registry_deltas request_rules path_rules =
    check_skills skill_artifact_requests request_rules >>= λ requests.
    check_skills skill_artifact_routes (update path_rules skill_registry_path_rules) >>= λ paths.
    ok (requests, paths)

-- `REQUEST_AUTHORIZATION_RULES` and `PATH_AUTHORIZATION_RULES`, with `HAS_SKILL_REGISTRY`
unfoldable pub authorization_rules : Bool → String → Outcome (RequestTable × PathTable)
unfolding apply_skill_registry_deltas base_request_rules base_path_rules
authorization_rules has_skill_registry otlp_traces_path =
    if has_skill_registry
    then apply_skill_registry_deltas base_request_rules (base_path_rules otlp_traces_path)
    else ok (base_request_rules, base_path_rules otlp_traces_path)
