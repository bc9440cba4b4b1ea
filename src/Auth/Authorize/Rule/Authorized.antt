-- ===== src/Auth/Authorize/Rule/Authorized.antt =====
-- What the body of the loop has seen of a rule that it lets through.
use mlflow_integration.Shared.{
  String, Bool, true, false, not, ◌&&◌, Option, none, some, ok, ◌≡◌, refl, ◌⊎◌, inl, inr, arith,
}
use mlflow_integration.Shared.Text.{nonempty, truthy}
use mlflow_integration.Auth.Identity.{RequestIdentity, or_blank}
use mlflow_integration.Auth.Rules.{AuthorizationRule}
use mlflow_integration.Auth.Request.{AuthorizationRequest}
use mlflow_integration.Auth.Authorize.{Authorizer, Collaborators}
use mlflow_integration.Auth.Authorize.Budget.{writes_budget, enforce_gateway_budget_scope}
use mlflow_integration.Auth.Authorize.Budget.Scope.{enforce_gateway_budget_scope-keeps}
use mlflow_integration.Auth.Authorize.Contract.{
  Promises, Step, Step-continue, Step-weaken, Step-if, Step-lift,
}
use mlflow_integration.Auth.Authorize.Contract.Changes.{Leads, unchanged, loads, Leads-trans}
use mlflow_integration.Auth.Authorize.Rule.{
  denial, check_verb, check_workspace, by_verb, check_rule,
}
use mlflow_integration.Auth.Authorize.Rule.Checks.{IsChecked, Checked, check_resource-Checked}

-- A text that is there.
truthy-nonempty : (s : Option String) → truthy s ≡ true → nonempty (or_blank s) ≡ true
truthy-nonempty none e = cc
truthy-nonempty (some s) e = e

not-false : (b : Bool) → not b ≡ false → b ≡ true
not-false true e = refl
not-false false e = cc

module _ {S : Type 0} {parts : Collaborators S} {authorizer : Authorizer S}
    (promises : Promises parts authorizer) (identity : RequestIdentity)
    (request : AuthorizationRequest) (workspace : Option String) where
  -- What lets a request through is a grant on the rule's resource, access to the workspace, or a response that is filtered.
  abbrev pub IsLetThrough : AuthorizationRule → Option String → AuthorizationRequest → Type 0
  IsLetThrough rule (some verb) final =
      (truthy workspace ≡ true)
      × (truthy rule.resource ≡ true)
      × IsChecked promises identity request (or_blank workspace) rule (or_blank rule.resource) verb
          final
  IsLetThrough rule none final =
      (rule.apply_workspace_filter ≡ true)
      ⊎ ((truthy workspace ≡ true) × promises.Open identity (or_blank workspace) "get")

  -- The rule lets `request` through, and leaves `final` for the next one.
  pub record IsAuthorized (rule : AuthorizationRule) (final : AuthorizationRequest) : Type 0 where
    pub reached : Leads promises request final
    pub admitted : rule.deny ≡ false
    pub placed : rule.requires_workspace ≡ true → truthy workspace ≡ true
    pub let_through : IsLetThrough rule rule.verb final

  check_workspace-IsLetThrough :
      (rule : AuthorizationRule) (later : AuthorizationRequest) (s : S)
      → Leads promises request later
      → promises.Valid s
      → Step promises.Valid
          (λ final. Leads promises request final × IsLetThrough rule none final)
          (check_workspace parts authorizer identity workspace rule later s)
  unfolding check_workspace
  check_workspace-IsLetThrough rule later s same v =
      Step-if promises.Valid Q (rule.workspace_access_check && not rule.apply_workspace_filter) _ _
        s
        (λ _.
          Step-if promises.Valid Q (not (truthy workspace)) _ _ s (λ _. v)
            λ e.
              Step-continue promises.Valid
                (λ allowed. allowed ≡ true → promises.Open identity (or_blank workspace) "get") Q _
                _ (promises.can_access_workspace_opens identity (or_blank workspace) "get" s v)
                λ allowed t opened w.
                  Step-if promises.Valid Q allowed _ _ t
                    (λ a. ((same, inr (not-false (truthy workspace) e, opened a)), w)) (λ _. w))
        λ _.
          Step-if promises.Valid Q rule.apply_workspace_filter _ _ s (λ e. ((same, inl e), v))
            (λ _. v)
    where
      Q : AuthorizationRequest → Type 0
      Q final = Leads promises request final × IsLetThrough rule none final

  check_verb-IsLetThrough :
      (rule : AuthorizationRule) (verb : String) (later : AuthorizationRequest) (s : S)
      → Leads promises request later
      → promises.Valid s
      → Step promises.Valid
          (λ final. Leads promises request final × IsLetThrough rule (some verb) final)
          (check_verb parts authorizer identity workspace rule verb later s)
  unfolding check_verb
  check_verb-IsLetThrough rule verb later s same v =
      Step-if promises.Valid Q (not (truthy workspace)) _ _ s (λ _. v)
        λ e.
          Step-continue promises.Valid (Leads promises request) Q _ _
            (Step-if promises.Valid (Leads promises request) (writes_budget rule) _ _ s
              (λ _.
                Step-lift promises.Valid (Leads promises request)
                  (enforce_gateway_budget_scope parts.is_one parts.digit parts.parse_json rule
                    later)
                  s (λ final h. Leads-trans promises same (budget-Leads final h)) v)
              (λ _. (same, v)))
            λ scoped t same' w.
              Step-if promises.Valid Q (not (truthy rule.resource)) _ _ t (λ _. w)
                λ e'.
                  Step-weaken promises.Valid
                    (Checked promises identity request (or_blank workspace) rule
                      (or_blank rule.resource) verb)
                    Q _
                    (λ final h. (
                      h.0,
                      (not-false (truthy workspace) e, not-false (truthy rule.resource) e', h.1),
                    ))
                    (check_resource-Checked promises identity request (or_blank workspace) rule
                      (or_blank rule.resource) verb scoped t
                      (truthy-nonempty workspace (not-false (truthy workspace) e)) same' w)
    where
      Q : AuthorizationRequest → Type 0
      Q final = Leads promises request final × IsLetThrough rule (some verb) final

      budget-Leads :
          (final : AuthorizationRequest)
          → enforce_gateway_budget_scope parts.is_one parts.digit parts.parse_json rule later
            ≡ ok final
          → Leads promises later final
      budget-Leads final h =
          enforce_gateway_budget_scope-keeps parts.is_one parts.digit parts.parse_json
            (Leads promises later) later unchanged (λ last e. loads unchanged false e) rule final h

  by_verb-IsLetThrough :
      (rule : AuthorizationRule) (verb : Option String) (later : AuthorizationRequest) (s : S)
      → Leads promises request later
      → promises.Valid s
      → Step promises.Valid
          (λ final. Leads promises request final × IsLetThrough rule verb final)
          (by_verb parts authorizer identity workspace rule verb later s)
  unfolding by_verb
  by_verb-IsLetThrough rule none later s same v = check_workspace-IsLetThrough rule later s same v
  by_verb-IsLetThrough rule (some verb) later s same v =
      check_verb-IsLetThrough rule verb later s same v

  -- The body of the loop returns only if the rule does not deny, the workspace is there if the rule requires one, and
  -- the request is let through.
  pub check_rule-IsAuthorized :
      (rule : AuthorizationRule) (s : S)
      → promises.Valid s
      → Step promises.Valid
          (IsAuthorized rule)
          (check_rule parts authorizer identity workspace rule request s)
  unfolding check_rule
  check_rule-IsAuthorized rule s v =
      Step-if promises.Valid (IsAuthorized rule) rule.deny _ _ s (λ _. denied rule.deny_message)
        λ d.
          Step-if promises.Valid (IsAuthorized rule)
            (rule.requires_workspace && not (truthy workspace)) _ _ s (λ _. v)
            λ r.
              Step-weaken promises.Valid
                (λ final. Leads promises request final × IsLetThrough rule rule.verb final)
                (IsAuthorized rule) _
                (λ final h. record {
                  reached = h.0;
                  admitted = d;
                  placed = λ q. ground (arith, r, q);
                  let_through = h.1;
                })
                (by_verb-IsLetThrough rule rule.verb request s unchanged v)
    where
      denied :
          (message : Option String) → Step promises.Valid (IsAuthorized rule) (denial message, s)
      denied none = v
      denied (some message) = v
