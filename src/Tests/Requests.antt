-- ===== src/Tests/Requests.antt =====
-- The tables of rules, and requests that are authorized against them.
use mlflow_integration.Shared.{
  String, Bool, true, false, Option, none, some, List, [], ◌∷◌, ℕ, ◌==◌, string_eq, option_eq,
  Outcome, ok, raised, mlflow, permission_denied, ◌≡◌, refl, ◌&&◌, subst, ok_injective,
}
use mlflow_integration.Shared.Dict.{find, put, pop}
use mlflow_integration.Shared.Json.{Json, null, text, array, nil, cons}
use mlflow_integration.Shared.Text.{nonempty}
use mlflow_integration.Auth.Expiring.{set, probe, purge, evict}
use mlflow_integration.Auth.Identity.{self_subject_access_review, subject_hash}
use mlflow_integration.Auth.Access.{
  Settings, Attributes, Subject, is_allowed, without_underscores, submit, access_key_eq,
}
use mlflow_integration.Auth.Rules.{AuthorizationRule}
use mlflow_integration.Auth.Tables.{route_eq, base_path_rules, authorization_rules}
use mlflow_integration.Auth.Tables.Completeness.{Gives, AreGuarded, authorization_rules-IsComplete}
use mlflow_integration.Auth.Request.{AuthorizationRequest, collect_query_params, ensure_json_body}
use mlflow_integration.Auth.Authorize.Budget.{writes_budget}
use mlflow_integration.Auth.Request.QueryParams.{find-collect_query_params, values_of, collapsed}
use mlflow_integration.Auth.Authorize.{Resolution, resolved, reference_missing, Collaborators}
use mlflow_integration.Auth.Authorize.Contract.{Step, PartsKeep, IsSame, IsSame-refl}
use mlflow_integration.Auth.Authorize.Kubernetes.{
  Caches, IsSoundCache, kubernetes_authorizer, kubernetes_promises,
}
use mlflow_integration.Auth.Authorize.Loop.{RequestSettings, authorize_request}
use mlflow_integration.Auth.Authorize.Gateway.{enforce_gateway_dependency_permissions}
use mlflow_integration.Auth.Authorize.Loop.Safety.{IsPermitted, authorize_request-IsPermitted}

authorization_rules-IsComplete_example : Gives AreGuarded (authorization_rules true "/v1/traces")
authorization_rules-IsComplete_example = authorization_rules-IsComplete true "/v1/traces"

abbrev items : List (String × String)
items = ("a", "1") ∷ ("b", "2") ∷ ("a", "3") ∷ []

find-collect_query_params_example :
    find "a" (collect_query_params items) ≡ collapsed (values_of "a" items)
find-collect_query_params_example = find-collect_query_params items "a"

collected :
    collect_query_params items
    ≡ ("a", array (cons (text "1") (cons (text "3") nil))) ∷ ("b", text "2") ∷ []
unfolding collect_query_params
collected = refl

-- The cluster lets the bearer of any token get the experiment `iris`, by its name alone.
abbrev sha256 : String → String
sha256 s = s

abbrev review : Subject → Attributes → Outcome (Option Bool)
review subject attributes = ok (some (attributes.verb == "get" && attributes.name == some "iris"))

abbrev settings : Settings
settings = record { mode = self_subject_access_review; ttl = 5; group = "mlflow.kubeflow.org" }

abbrev times : ℕ → String → ℕ × ℕ
times n resource = (n, n)

-- The experiment of a run is the run's name.
abbrev experiment_of : Option Json → Resolution
experiment_of (some (text run)) = resolved (run ∷ [])
experiment_of value = reference_missing

run_of : AuthorizationRequest → Option Json
unfolding find
run_of request = find "run_id" request.query_params

rules_for : String → String → Option (List AuthorizationRule)
unfolding find base_path_rules
rules_for path method = find (path, method) (base_path_rules "/v1/traces")

abbrev parts : Collaborators Caches
parts = record {
  parse_json = λ s. none;
  is_one = λ s. s == "1";
  digit = λ c. none;
  resolve_resource_names = λ request parsers s. (ok (experiment_of (run_of request)), s);
  resolve_gateway_model_definition_names_for_use = λ request s. (ok reference_missing, s);
  resolve_gateway_secret_names_for_use = λ request s. (ok reference_missing, s);
  get_gateway_endpoint = λ id s. (ok [], s);
  get_gateway_model_definition = λ id s. (ok none, s);
  normalize_collection_request = λ request policy. ok (request, true);
  apply_request_collection_filter = λ identity workspace policy request s. (ok (request, false), s);
  find_authorization_rules = λ path method payload. ok (rules_for path method);
  skill_artifact_rules = λ request rules. ok rules;
}

parts_keep : PartsKeep (IsSoundCache sha256 review settings times) parts
parts_keep = record {
  resolve_resource_names_keeps = λ request parsers s v. v;
  model_definitions_keeps = λ request s v. v;
  secrets_keeps = λ request s v. v;
  get_gateway_endpoint_keeps = λ id s v. v;
  get_gateway_model_definition_keeps = λ id s v. v;
  filter_keeps = λ identity workspace policy request s v. (IsSame-refl request, v);
  normalize_keeps = λ policy request found e.
      subst (λ kept. IsSame request kept.0) (ok_injective e) (IsSame-refl request);
}

abbrev request_settings : RequestSettings
request_settings = record {
  authorization_mode = self_subject_access_review;
  username_claim = "sub";
  groups_separator = "|";
  workspaces_enabled = false;
}

-- GET /get-artifact?run_id=…
abbrev request_for : String → AuthorizationRequest
request_for run = record {
  authorization_header = some "Bearer t";
  forwarded_access_token = none;
  remote_user_header_value = none;
  remote_groups_header_value = none;
  path = "/get-artifact";
  method = "GET";
  workspace = some " team-a ";
  headers = [];
  path_params = [];
  query_params = ("run_id", text run) ∷ [];
  json_body = null;
  graphql_payload = none;
  ensure_json_body = none;
}

abbrev decode : String → Option Json
decode s = none

authorize_request-IsPermitted_example :
    Step
      (IsSoundCache sha256 review settings times)
      (IsPermitted
        (kubernetes_promises sha256 review settings times parts parts_keep)
        request_settings
        (request_for "iris")
        decode)
      (authorize_request parts
        (kubernetes_authorizer sha256 review settings times)
        request_settings
        decode
        (request_for "iris")
        ([], 0))
unfolding kubernetes_promises
authorize_request-IsPermitted_example =
    authorize_request-IsPermitted
      (kubernetes_promises sha256 review settings times parts parts_keep) request_settings
      (request_for "iris") decode ([], 0) tt

abbrev outcome : {A S : Type 0} → Outcome A × S → Option (Outcome (Unit {0}))
outcome (ok a, s) = some (ok tt)
outcome (raised e, s) = some (raised e)

named_experiment :
    outcome (
      authorize_request parts
        (kubernetes_authorizer sha256 review settings times)
        request_settings
        decode
        (request_for "iris")
        ([], 0))
    ≡ some (ok tt)
unfolding authorize_request kubernetes_authorizer is_allowed set probe purge evict pop put submit
    without_underscores nonempty enforce_gateway_dependency_permissions find rules_for run_of
    writes_budget subject_hash ensure_json_body
named_experiment = refl

other_experiment :
    outcome (
      authorize_request parts
        (kubernetes_authorizer sha256 review settings times)
        request_settings
        decode
        (request_for "wine")
        ([], 0))
    ≡ some (raised (mlflow permission_denied))
unfolding authorize_request kubernetes_authorizer is_allowed set probe purge evict pop put submit
    without_underscores nonempty enforce_gateway_dependency_permissions find rules_for run_of
    writes_budget subject_hash ensure_json_body
other_experiment = refl
