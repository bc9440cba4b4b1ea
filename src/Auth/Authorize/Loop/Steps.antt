-- ===== src/Auth/Authorize/Loop/Steps.antt =====
-- The steps of `_authorize_request_async` around the loop, and the loop.
use mlflow_integration.Shared.{
  String, true, false, not, ◌&&◌, Option, none, some, List, [], ◌∷◌, is_some, any, string_eq, ◌==◌,
  ok, ◌≡◌, ◌≢◌, refl, ◌∙◌, ap, subst, ◌⊎◌, inl, inr, ok_injective,
}
use mlflow_integration.Shared.Text.{ends_with}
use mlflow_integration.Shared.Dict.{find}
use mlflow_integration.Auth.Identity.{RequestIdentity}
use mlflow_integration.Auth.Rules.{AuthorizationRule}
use mlflow_integration.Auth.Request.{
  AuthorizationRequest, has_params, extract_workspace_scope_from_request,
}
use mlflow_integration.Auth.Authorize.{Authorizer, Collaborators}
use mlflow_integration.Auth.Authorize.Contract.{
  Promises, Step, Step-continue, Step-weaken, Step-if, Step-lift,
}
use mlflow_integration.Auth.Authorize.Contract.Changes.{
  Leads, unchanged, scopes, Leads-trans, with_loaded_body-Leads,
}
use mlflow_integration.Auth.Authorize.Rule.Authorized.{IsAuthorized, check_rule-IsAuthorized}
use mlflow_integration.Auth.Authorize.Loop.{
  Scoped, with_workspace, scoped, some_rules, found_rules, graphql_body, artifact_rules,
  check_rules, finished,
}

module _ {S : Type 0} {parts : Collaborators S} {authorizer : Authorizer S}
    (promises : Promises parts authorizer) (request : AuthorizationRequest) where
  -- Rules that were found for the request.
  abbrev pub AreFound : List AuthorizationRule → Type 0
  AreFound rules =
      (rules ≢ [])
      × ((later : AuthorizationRequest) × Leads promises request later
          × (parts.find_authorization_rules later.path later.method later.graphql_payload
              ≡ ok (some rules)))

  -- Rules that the request meets: those that were found, or those that the path of an artifact has in their place.
  abbrev pub AreMet : List AuthorizationRule → Type 0
  AreMet rules =
      (found : List AuthorizationRule) × AreFound found
      × ((rules ≡ found)
          ⊎ ((later : AuthorizationRequest) × Leads promises request later
              × (parts.skill_artifact_rules later found ≡ ok rules)))

  pub graphql_body-Leads :
      (s : S)
      → promises.Valid s
      → Step promises.Valid (Leads promises request) (graphql_body parts request s)
  unfolding graphql_body
  graphql_body-Leads s v =
      Step-if promises.Valid (Leads promises request)
        (ends_with request.path "/graphql" && not (is_some request.graphql_payload)) _ _ s
        (λ _. with_loaded_body-Leads promises false request s v) (λ _. (unchanged, v))

  some_rules-eq :
      (found : Option (List AuthorizationRule)) {rules : List AuthorizationRule}
      → some_rules parts found ≡ ok rules
      → (found ≡ some rules) × (rules ≢ [])
  some_rules-eq none e = cc
  some_rules-eq (some []) e = cc
  some_rules-eq (some (rule ∷ rules)) e = (ap some (ok_injective e), λ n. cc)

  pub found_rules-AreFound :
      (later : AuthorizationRequest) (s : S)
      → Leads promises request later
      → promises.Valid s
      → Step promises.Valid AreFound (found_rules parts later s)
  unfolding found_rules
  found_rules-AreFound later s same v =
      let find_rules =
        parts.find_authorization_rules later.path later.method later.graphql_payload in
      Step-continue promises.Valid (λ found. find_rules ≡ ok found) AreFound _ _
        (Step-lift promises.Valid (λ found. find_rules ≡ ok found) find_rules s (λ found e. e) v)
        λ found t e w.
          Step-lift promises.Valid AreFound (some_rules parts found) t
            (λ rules h.
              ((some_rules-eq found h).1, (later, same, e ∙ ap ok (some_rules-eq found h).0)))
            w

  abbrev pub Met : AuthorizationRequest × List AuthorizationRule → Type 0
  Met kept = Leads promises request kept.0 × AreMet kept.1

  pub artifact_rules-AreMet :
      (rules : List AuthorizationRule) (later : AuthorizationRequest) (s : S)
      → AreFound rules
      → Leads promises request later
      → promises.Valid s
      → Step promises.Valid Met (artifact_rules parts rules later s)
  unfolding artifact_rules
  artifact_rules-AreMet rules later s found same v =
      Step-if promises.Valid Met
        (any (λ (rule : AuthorizationRule). rule.check_skill_artifact_permissions) rules) _ _ s
        (λ _.
          Step-continue promises.Valid (Leads promises request) Met _ _
            (Step-if promises.Valid (Leads promises request)
              (not (is_some (find "artifact_path" later.path_params))
                && not (later.method == "GET" && has_params later.query_params))
              _ _ s
              (λ _.
                Step-weaken promises.Valid (Leads promises later) (Leads promises request) _
                  (λ loaded kept. Leads-trans promises same kept)
                  (with_loaded_body-Leads promises true later s v))
              (λ _. (same, v)))
            λ loaded t same' w.
              Step-continue promises.Valid
                (λ kept. parts.skill_artifact_rules loaded rules ≡ ok kept) Met _ _
                (Step-lift promises.Valid
                  (λ kept. parts.skill_artifact_rules loaded rules ≡ ok kept)
                  (parts.skill_artifact_rules loaded rules) t (λ kept e. e) w)
                λ kept u e w'. ((same', (rules, found, inr (loaded, same', e))), w'))
        (λ _. ((same, (rules, found, inl refl)), v))

  -- The workspace of the request, and nothing else, is set.
  abbrev pub IsScope : Option String → Scoped → Type 0
  IsScope header scope =
      Leads promises request scope.0 × ((name : String) → header ≡ some name → scope.1 ≡ some name)

  with_workspace-IsScope :
      (later : AuthorizationRequest) (rule : AuthorizationRule) (found : Option String)
      → extract_workspace_scope_from_request later rule ≡ found
      → Leads promises request later
      → IsScope none (with_workspace later found)
  with_workspace-IsScope later rule none e same = (same, λ name e. e)
  with_workspace-IsScope later rule (some found) e same = (scopes same rule found e, λ name e. cc)

  pub scoped-IsScope :
      (later : AuthorizationRequest) (rules : List AuthorizationRule) (header : Option String)
      (scope : Scoped)
      → Leads promises request later
      → scoped later rules header ≡ ok scope
      → IsScope header scope
  unfolding scoped
  scoped-IsScope later rules (some name) scope same e =
      subst (IsScope (some name)) (ok_injective e) (same, λ n h. h)
  scoped-IsScope later [] none scope same e = cc
  scoped-IsScope later (rule ∷ rules) none scope same e = subst (IsScope none) (ok_injective e) (
      with_workspace-IsScope later rule (extract_workspace_scope_from_request later rule) refl same)

module _ {S : Type 0} {parts : Collaborators S} {authorizer : Authorizer S}
    (promises : Promises parts authorizer) (identity : RequestIdentity)
    (workspace : Option String) where
  -- Each rule lets through the request that the rule before it left, and `final` comes of what the last one left.
  abbrev pub AreAuthorized :
      List AuthorizationRule → AuthorizationRequest → AuthorizationRequest → Type 0
  AreAuthorized [] request final = Leads promises request final
  AreAuthorized (rule ∷ rules) request final =
      (later : AuthorizationRequest) × IsAuthorized promises identity request workspace rule later
      × AreAuthorized rules later final

  AreAuthorized-trans :
      (rules : List AuthorizationRule) (request later final : AuthorizationRequest)
      → AreAuthorized rules request later
      → Leads promises later final
      → AreAuthorized rules request final
  AreAuthorized-trans [] request later final h on = Leads-trans promises h on
  AreAuthorized-trans (rule ∷ rules) request later final (next, first, rest) on =
      (next, first, AreAuthorized-trans rules next later final rest on)

  pub AreAuthorized-Leads :
      (rules : List AuthorizationRule) (request final : AuthorizationRequest)
      → AreAuthorized rules request final
      → Leads promises request final
  AreAuthorized-Leads [] request final h = h
  AreAuthorized-Leads (rule ∷ rules) request final (next, first, rest) =
      Leads-trans promises first.reached (AreAuthorized-Leads rules next final rest)

  pub check_rules-AreAuthorized :
      (rules : List AuthorizationRule) (request : AuthorizationRequest) (s : S)
      → promises.Valid s
      → Step promises.Valid
          (AreAuthorized rules request)
          (check_rules parts authorizer identity workspace rules request s)
  unfolding check_rules
  check_rules-AreAuthorized [] request s v = (unchanged, v)
  check_rules-AreAuthorized (rule ∷ rules) request s v =
      Step-continue promises.Valid (IsAuthorized promises identity request workspace rule)
        (AreAuthorized (rule ∷ rules) request) _ _
        (check_rule-IsAuthorized promises identity request workspace rule s v)
        (next (check_rules-AreAuthorized rules))
    where
      next :
          ((later : AuthorizationRequest) (s : S)
            → promises.Valid s
            → Step promises.Valid
                (AreAuthorized rules later)
                (check_rules parts authorizer identity workspace rules later s))
          → (later : AuthorizationRequest) (t : S)
          → IsAuthorized promises identity request workspace rule later
          → promises.Valid t
          → Step promises.Valid
              (AreAuthorized (rule ∷ rules) request)
              (check_rules parts authorizer identity workspace rules later t)
      next rest later t h w =
          Step-weaken promises.Valid (AreAuthorized rules later)
            (AreAuthorized (rule ∷ rules) request) _ (λ last k. (later, h, k)) (rest later t w)

  pub finished-AreAuthorized :
      (rules : List AuthorizationRule) (request later : AuthorizationRequest) (s : S)
      → AreAuthorized rules request later
      → promises.Valid s
      → Step promises.Valid (AreAuthorized rules request) (finished parts rules later s)
  unfolding finished
  finished-AreAuthorized rules request later s h v =
      Step-if promises.Valid (AreAuthorized rules request)
        (any (λ (rule : AuthorizationRule). rule.override_run_user) rules) _ _ s
        (λ _.
          Step-weaken promises.Valid (Leads promises later) (AreAuthorized rules request) _
            (λ last k. AreAuthorized-trans rules request later last h k)
            (with_loaded_body-Leads promises false later s v))
        (λ _. (h, v))
