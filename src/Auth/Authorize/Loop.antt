-- ===== src/Auth/Authorize/Loop.antt =====
-- `_authorize_request_async`: who asks, which rules apply, and the loop over them. `decode` stands for the base64
-- decoder and `json.loads`, and gives nothing where they raise.
pub mod Steps
pub mod Safety
use mlflow_integration.Shared.{
  String, Bool, true, false, ◌&&◌, ◌||◌, not, Option, none, some, List, [], ◌∷◌, ◌++◌, ℕ, zero, suc,
  ◌+◌, ◌-◌, ◌<◌, if◌then◌else◌, any, is_some, contains, string_eq, ◌==◌, Outcome, ok, raised,
  mlflow, unauthenticated, endpoint_not_found, permission_denied, unexpected,
}
use Prim.Native.Nat.{◌%◌}
use Prim.Native.String
use mlflow_integration.Shared.Action.{Action, ◌>>=◌, pure, raise, lift}
use mlflow_integration.Shared.Text.{nonempty, truthy, strip, split, size, starts_with, ends_with}
use mlflow_integration.Shared.Dict.{find}
use mlflow_integration.Shared.Json.{Json, Fields, get}
use mlflow_integration.Auth.Identity.{
  AuthorizationMode, self_subject_access_review, subject_access_review, RequestIdentity, or_blank,
}
use mlflow_integration.Auth.Credentials.{resolve_bearer_token, parse_remote_groups}
use mlflow_integration.Auth.Rules.{AuthorizationRule}
use mlflow_integration.Auth.Request.{
  AuthorizationRequest, has_params, get_in, nonempty_text, extract_workspace_scope_from_request,
}
use mlflow_integration.Auth.Authorize.{Authorizer, Collaborators, with_loaded_body}
use mlflow_integration.Auth.Authorize.Rule.{check_rule}

-- The settings of `KubernetesAuthConfig` that a request reads.
pub record RequestSettings : Type 0 where
  pub authorization_mode : AuthorizationMode
  pub username_claim : String
  pub groups_separator : String
  pub workspaces_enabled : Bool

-- `_AuthorizationResult`
pub record AuthorizationResult : Type 0 where
  pub identity : RequestIdentity
  pub rules : List AuthorizationRule
  pub request_context : AuthorizationRequest
  pub username : Option String

-- `"=" * (-len(segment) % 4)`
abbrev pub padding : ℕ → String
padding zero = ""
padding (suc n) = String.◌++◌ "=" (padding n)

abbrev pub padded : String → String
unfolding size
padded segment = String.◌++◌ segment (padding ((4 - size segment % 4) % 4))

abbrev pub claim_in : Option Json → String → Option String
unfolding get nonempty
claim_in none claim = none
claim_in (some payload) claim = nonempty_text (get_in payload claim)

abbrev pub second_part : List String → Option String
second_part [] = none
second_part (p ∷ []) = none
second_part (p ∷ segment ∷ parts) = some segment

abbrev pub decoded : (String → Option Json) → Option String → Option Json
unfolding size
decoded decode none = none
decoded decode (some segment) = decode (padded segment)

-- `_parse_jwt_subject`
unfoldable pub parse_jwt_subject : (String → Option Json) → String → String → Option String
unfolding split size get nonempty
parse_jwt_subject decode token claim =
    claim_in (decoded decode (second_part (split b'.' token))) claim

-- The caller: an identity and a user name.
abbrev pub Caller : Type 0
Caller = RequestIdentity × Option String

abbrev pub of_bearer : (String → Option Json) → String → Outcome String → Outcome Caller
unfolding parse_jwt_subject
of_bearer decode claim (raised e) = raised e
of_bearer decode claim (ok token) =
    ok (
      record { token = some token; user = none; groups = [] },
      parse_jwt_subject decode token claim,
    )

-- The first branch of `_authorize_request_async`.
unfoldable pub caller_of :
    (String → Option Json)
    → RequestSettings
    → AuthorizationMode
    → AuthorizationRequest
    → Outcome Caller
unfolding resolve_bearer_token parse_jwt_subject parse_remote_groups nonempty strip
caller_of decode settings self_subject_access_review request =
    of_bearer decode settings.username_claim
      (resolve_bearer_token request.authorization_header request.forwarded_access_token)
caller_of decode settings subject_access_review request =
    let user = strip (or_blank request.remote_user_header_value) in
    if not (nonempty user)
    then raised (mlflow unauthenticated)
    else ok (
      record {
        token = none;
        user = some user;
        groups = parse_remote_groups request.remote_groups_header_value settings.groups_separator;
      },
      some user,
    )

-- `request_context.workspace.strip() or None`
abbrev pub stripped_workspace : Option String → Option String
unfolding nonempty strip
stripped_workspace none = none
stripped_workspace (some name) = if nonempty (strip name) then some (strip name) else none

-- `workspace_api_request`
unfoldable pub is_workspace_api_request : String → Bool
unfolding starts_with
is_workspace_api_request path =
    contains ("/api/3.0/mlflow/workspaces" ∷ "/ajax-api/3.0/mlflow/workspaces" ∷ []) path
    || any (λ prefix. starts_with path prefix)
        ("/api/3.0/mlflow/workspaces/" ∷ "/ajax-api/3.0/mlflow/workspaces/" ∷ [])

-- A request, and the workspace that it is for.
abbrev pub Scoped : Type 0
Scoped = AuthorizationRequest × Option String

abbrev pub with_workspace : AuthorizationRequest → Option String → Scoped
with_workspace request none = (request, none)
with_workspace request (some name) = (record request { workspace = some name }, some name)

-- The workspace that the header names, or else the request; `rules[0]` raises where there is none.
unfoldable pub scoped :
    AuthorizationRequest → List AuthorizationRule → Option String → Outcome Scoped
unfolding extract_workspace_scope_from_request
scoped request rules (some name) = ok (request, some name)
scoped request [] none = raised unexpected
scoped request (rule ∷ rules) none =
    ok (with_workspace request (extract_workspace_scope_from_request request rule))

module _ {S : Type 0} (parts : Collaborators S) where
  -- The rules that were found: none is a 404.
  abbrev some_rules : Option (List AuthorizationRule) → Outcome (List AuthorizationRule)
  some_rules none = raised (mlflow endpoint_not_found)
  some_rules (some []) = raised (mlflow endpoint_not_found)
  some_rules (some (rule ∷ rules)) = ok (rule ∷ rules)

  pub found_rules : AuthorizationRequest → Action S (List AuthorizationRule)
  found_rules request =
      lift (parts.find_authorization_rules request.path request.method request.graphql_payload)
      >>= λ rules. lift (some_rules rules)

  pub graphql_body : AuthorizationRequest → Action S AuthorizationRequest
  unfolding ends_with
  graphql_body request =
      if ends_with request.path "/graphql" && not (is_some request.graphql_payload)
      then with_loaded_body parts false request
      else pure request

  -- The rules, and those that the path of an artifact has in their place.
  pub artifact_rules :
      List AuthorizationRule
      → AuthorizationRequest
      → Action S (AuthorizationRequest × List AuthorizationRule)
  unfolding find
  artifact_rules rules request =
      if any (λ (rule : AuthorizationRule). rule.check_skill_artifact_permissions) rules
      then ((if not (is_some (find "artifact_path" request.path_params))
              && not (request.method == "GET" && has_params request.query_params)
            then with_loaded_body parts true request
            else pure request)
          >>= λ loaded.
              lift (parts.skill_artifact_rules loaded rules) >>= λ kept. pure (loaded, kept))
      else pure (request, rules)

  pub finished : List AuthorizationRule → AuthorizationRequest → Action S AuthorizationRequest
  finished rules request =
      if any (λ (rule : AuthorizationRule). rule.override_run_user) rules
      then with_loaded_body parts false request
      else pure request

  module _ (authorizer : Authorizer S) (identity : RequestIdentity)
      (workspace : Option String) where
    -- The loop over the rules.
    unfoldable pub check_rules :
        List AuthorizationRule → AuthorizationRequest → Action S AuthorizationRequest
    unfolding check_rule
    check_rules [] request s = pure request s
    check_rules (rule ∷ rules) request s =
        (check_rule parts authorizer identity workspace rule request >>= check_rules rules) s

  module _ (authorizer : Authorizer S) (settings : RequestSettings) where
    -- The guard on the workspace APIs, and the loop.
    pub guarded :
        RequestIdentity
        → Option String
        → List AuthorizationRule
        → AuthorizationRequest
        → Action S AuthorizationRequest
    unfolding check_rules finished is_workspace_api_request
    guarded identity workspace rules request =
        if not settings.workspaces_enabled && is_workspace_api_request request.path
        then raise (mlflow permission_denied)
        else (check_rules authorizer identity workspace rules request >>= finished rules)

    pub for_caller : AuthorizationRequest → Caller → Action S AuthorizationResult
    unfolding guarded graphql_body found_rules artifact_rules scoped nonempty strip
    for_caller request (identity, username) = graphql_body request >>= λ loaded.
        found_rules loaded >>= λ found. artifact_rules found loaded >>= λ kept.
        lift (scoped kept.0 kept.1 (stripped_workspace request.workspace)) >>= λ scope.
        guarded identity scope.1 kept.1 scope.0 >>= λ final. pure (record {
          identity = identity;
          rules = kept.1;
          request_context = final;
          username = username;
        })

    -- `_authorize_request_async`
    unfoldable pub authorize_request :
        (String → Option Json) → AuthorizationRequest → Action S AuthorizationResult
    unfolding for_caller caller_of
    authorize_request decode request =
        lift (caller_of decode settings settings.authorization_mode request) >>= for_caller request
