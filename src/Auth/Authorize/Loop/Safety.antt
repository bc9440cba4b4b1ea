-- ===== src/Auth/Authorize/Loop/Safety.antt =====
-- What the authorization of a whole request has seen.
use mlflow_integration.Shared.{
  String, false, not, ◌&&◌, Option, some, List, string_eq, ok, ◌≡◌, subst, arith,
}
use mlflow_integration.Shared.Json.{Json}
use mlflow_integration.Auth.Identity.{RequestIdentity}
use mlflow_integration.Auth.Rules.{AuthorizationRule}
use mlflow_integration.Auth.Request.{AuthorizationRequest}
use mlflow_integration.Auth.Authorize.{Authorizer, Collaborators}
use mlflow_integration.Auth.Authorize.Contract.{
  Promises, Step, Step-continue, Step-weaken, Step-if, Step-lift, IsSame,
}
use mlflow_integration.Auth.Authorize.Contract.Changes.{Leads, Leads-trans, Leads-IsSame}
use mlflow_integration.Auth.Authorize.Loop.{
  RequestSettings, AuthorizationResult, caller_of, stripped_workspace, is_workspace_api_request,
  scoped, guarded, for_caller, authorize_request,
}
use mlflow_integration.Auth.Authorize.Loop.Steps.{
  AreFound, AreMet, Met, IsScope, AreAuthorized, graphql_body-Leads, found_rules-AreFound,
  artifact_rules-AreMet, scoped-IsScope, check_rules-AreAuthorized, AreAuthorized-Leads,
  finished-AreAuthorized,
}

module _ {S : Type 0} {parts : Collaborators S} {authorizer : Authorizer S}
    (promises : Promises parts authorizer) (settings : RequestSettings)
    (request : AuthorizationRequest) where
  -- What the authorization of a request has seen.
  pub record IsPermitted (decode : String → Option Json) (result : AuthorizationResult)
      : Type 0 where
    pub workspace : Option String
    pub caller :
        caller_of decode settings settings.authorization_mode request
        ≡ ok (result.identity, result.username)
    pub placed :
        (name : String) → stripped_workspace request.workspace ≡ some name → workspace ≡ some name
    pub met : AreMet promises request result.rules
    pub started : AuthorizationRequest
    pub loaded : Leads promises request started
    pub authorized :
        AreAuthorized promises result.identity workspace result.rules started result.request_context
    pub enabled :
        settings.workspaces_enabled ≡ false → is_workspace_api_request request.path ≡ false
    pub same : IsSame request result.request_context

  abbrev Permitted :
      Option String
      → List AuthorizationRule
      → RequestIdentity
      → AuthorizationRequest
      → AuthorizationRequest
      → Type 0
  Permitted workspace rules identity started final =
      AreAuthorized promises identity workspace rules started final
      × (settings.workspaces_enabled ≡ false → is_workspace_api_request request.path ≡ false)

  guarded-Permitted :
      (identity : RequestIdentity) (workspace : Option String) (rules : List AuthorizationRule)
      (later : AuthorizationRequest) (s : S)
      → Leads promises request later
      → promises.Valid s
      → Step promises.Valid
          (Permitted workspace rules identity later)
          (guarded parts authorizer settings identity workspace rules later s)
  unfolding guarded
  guarded-Permitted identity workspace rules later s same v =
      Step-if promises.Valid (Permitted workspace rules identity later)
        (not settings.workspaces_enabled && is_workspace_api_request later.path) _ _ s (λ _. v)
        λ e.
          Step-weaken promises.Valid (AreAuthorized promises identity workspace rules later)
            (Permitted workspace rules identity later) _ (λ final h. (h, enabled e))
            (Step-continue promises.Valid (AreAuthorized promises identity workspace rules later)
              (AreAuthorized promises identity workspace rules later) _ _
              (check_rules-AreAuthorized promises identity workspace rules later s v)
              λ final t h w.
                finished-AreAuthorized promises identity workspace rules later final t h w)
    where
      enabled :
          (not settings.workspaces_enabled && is_workspace_api_request later.path) ≡ false
          → settings.workspaces_enabled ≡ false
          → is_workspace_api_request request.path ≡ false
      enabled e d =
          subst (λ path. is_workspace_api_request path ≡ false) (Leads-IsSame promises same).path
            (ground (arith, e, d))

  for_caller-IsPermitted :
      (decode : String → Option Json) (identity : RequestIdentity) (username : Option String)
      (s : S)
      → caller_of decode settings settings.authorization_mode request ≡ ok (identity, username)
      → promises.Valid s
      → Step promises.Valid
          (IsPermitted decode)
          (for_caller parts authorizer settings request (identity, username) s)
  unfolding for_caller
  for_caller-IsPermitted decode identity username s caller v =
      let header = stripped_workspace request.workspace in
      Step-continue promises.Valid (Leads promises request) (IsPermitted decode) _ _
        (graphql_body-Leads promises request s v)
        λ loaded t same w.
          Step-continue promises.Valid (AreFound promises request) (IsPermitted decode) _ _
            (found_rules-AreFound promises request loaded t same w)
            λ found t found_well w.
              Step-continue promises.Valid (Met promises request) (IsPermitted decode) _ _
                (artifact_rules-AreMet promises request found loaded t found_well same w)
                λ kept t met w.
                  Step-continue promises.Valid (IsScope promises request header)
                    (IsPermitted decode) _ _
                    (Step-lift promises.Valid (IsScope promises request header)
                      (scoped kept.0 kept.1 header) t
                      (λ scope e.
                        scoped-IsScope promises request kept.0 kept.1 header scope met.0 e)
                      w)
                    λ scope t placed w.
                      Step-continue promises.Valid (Permitted scope.1 kept.1 identity scope.0)
                        (IsPermitted decode) _ _
                        (guarded-Permitted identity scope.1 kept.1 scope.0 t placed.0 w)
                        λ final t done w. (
                          record {
                            workspace = scope.1;
                            caller = caller;
                            placed = placed.1;
                            met = met.1;
                            started = scope.0;
                            loaded = placed.0;
                            authorized = done.0;
                            enabled = done.1;
                            same = Leads-IsSame promises (
                                Leads-trans promises placed.0 (
                                  AreAuthorized-Leads promises identity scope.1 kept.1 scope.0 final
                                    done.0));
                          },
                          w,
                        )

  -- If `_authorize_request_async` returns, the caller is the one that the credentials name; at least one rule was found
  -- for the path and the method, or the artifact's rules stand in their place; the workspace is the header's, if it names
  -- one; and no rule of the result denies. One rule after another lets through the request that the rule before it left,
  -- and the request that is returned comes of what the last one left: only its body is loaded, its workspace set, or a
  -- collection policy normalizes or filters it, and its path, method, headers and path parameters stay. For each rule, the
  -- workspace is known if the rule requires one, and one of these holds. Access to its resource is granted, by a broad
  -- grant, by a grant on each of the names that the request is about, by a filter that narrowed the request to the one that
  -- is passed on, or by GraphQL's own filter, together with the use of what a gateway resource depends on. Or the rule
  -- allows a request that names no resource, and this one names none: then nothing else is asked. Or, for a rule without a
  -- verb, access to the workspace is open or its response is filtered. The workspace API is let through only where
  -- workspaces are enabled. The caches stay valid whether it returns or raises.
  pub authorize_request-IsPermitted :
      (decode : String → Option Json) (s : S)
      → promises.Valid s
      → Step promises.Valid
          (IsPermitted decode)
          (authorize_request parts authorizer settings decode request s)
  unfolding authorize_request
  authorize_request-IsPermitted decode s v =
      Step-continue promises.Valid
        (λ caller. caller_of decode settings settings.authorization_mode request ≡ ok caller)
        (IsPermitted decode) _ _
        (Step-lift promises.Valid _ (caller_of decode settings settings.authorization_mode request)
          s (λ caller e. e) v)
        λ caller t e w. for_caller-IsPermitted decode caller.0 caller.1 t e w
