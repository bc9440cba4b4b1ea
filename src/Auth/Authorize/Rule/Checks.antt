-- ===== src/Auth/Authorize/Rule/Checks.antt =====
-- The branch of a rule with a verb: the grant, and the filter.
use mlflow_integration.Shared.{
  String, Bool, true, false, not, ◌&&◌, ◌||◌, none, string_eq, ok, ◌≡◌, refl, ◌⊎◌, inl, inr, arith,
}
use mlflow_integration.Shared.Action.{Action, pure}
use mlflow_integration.Shared.Text.{nonempty}
use mlflow_integration.Shared.Dict.{find}
use mlflow_integration.Auth.Identity.{RequestIdentity}
use mlflow_integration.Auth.Rules.{
  AuthorizationRule, is_narrowing, is_graphql_collection_policy, is_list_scorers,
  requires_request_body,
}
use mlflow_integration.Auth.Request.{AuthorizationRequest, has_params}
use mlflow_integration.Auth.Authorize.{Authorizer, Collaborators, Resolution, reference_missing}
use mlflow_integration.Auth.Authorize.Gateway.Use.{
  IsUsable, IsUsable-later, enforce_gateway_dependency_permissions-IsUsable,
}
use mlflow_integration.Auth.Authorize.Contract.{
  Promises, Step, Step-continue, Step-run, Step-weaken, Step-if, Step-lift, IsSame,
}
use mlflow_integration.Auth.Authorize.Contract.Changes.{
  Leads, unchanged, normalizes, filters, Leads-trans, with_loaded_body-Leads,
}
use mlflow_integration.Auth.Authorize.Rule.{
  Progress, progress, is_hybrid, scorer_scope, apply_filter, retry_filter, is_deferred, by_policy,
  concluded, after_names, check_resource, is_empty_array,
}
use mlflow_integration.Auth.Authorize.Rule.Grants.{
  ResolvesTo, ResolvesTo-later, IsGranted-later, IsGranted, IsExempt, IsNarrowed, or-cases,
  IsProgress, asked_query, by_names-IsProgress, note_missing-IsProgress,
}

and-cases : (a b : Bool) → (a && b) ≡ true → (a ≡ true) × (b ≡ true)
and-cases true b e = (refl, e)
and-cases false b e = cc

not-eq-true : (b : Bool) → not b ≡ true → b ≡ false
not-eq-true true e = cc
not-eq-true false e = refl

not-eq-false : (b : Bool) → not b ≡ false → b ≡ true
not-eq-false true e = refl
not-eq-false false e = cc

module _ {S : Type 0} {parts : Collaborators S} {authorizer : Authorizer S}
    (promises : Promises parts authorizer) (identity : RequestIdentity)
    (request : AuthorizationRequest) where
  scorer_scope-Leads :
      (rule : AuthorizationRule) (allowed : Bool) (later : AuthorizationRequest) (s : S)
      → Leads promises request later
      → promises.Valid s
      → Step promises.Valid
          (Leads promises request)
          (scorer_scope parts authorizer identity rule allowed later s)
  unfolding scorer_scope
  scorer_scope-Leads rule allowed later s same v =
      Step-if promises.Valid (Leads promises request)
        (allowed && is_list_scorers rule.collection_policy && not (has_params later.query_params)) _
        _ s
        (λ _.
          Step-continue promises.Valid (Leads promises later) (Leads promises request) _ _
            (with_loaded_body-Leads promises true later s v)
            λ loaded t kept w.
              Step-continue promises.Valid (λ found. Leads promises loaded found.0)
                (Leads promises request) _ _
                (Step-lift promises.Valid (λ found. Leads promises loaded found.0)
                  (parts.normalize_collection_request loaded rule.collection_policy) t
                  (λ found e. normalizes unchanged rule.collection_policy found e) w)
                λ found u kept' w'.
                  Step-if promises.Valid (Leads promises request)
                    (not found.1 || is_empty_array (find "experiment_ids" found.0.query_params)) _ _
                    u (λ _. w')
                    (λ _. (Leads-trans promises same (Leads-trans promises kept kept'), w')))
        (λ _. (same, v))

  module _ (workspace : String) (rule : AuthorizationRule) (resource verb : String) where
    -- The arguments of the predicates that speak of the rule.
    abbrev Known : Progress → Type 0
    Known p = IsProgress promises identity request workspace rule resource verb p

    abbrev Filtered : AuthorizationRequest → AuthorizationRequest × Bool → Type 0
    Filtered base found =
        Leads promises base found.0
        × (found.1 ≡ true
            → IsNarrowed promises identity request workspace rule resource verb found.0)

    module _ (base : AuthorizationRequest) (from : Leads promises request base)
        (narrowing : is_narrowing rule.collection_policy ≡ true) where
      apply_filter-Filtered :
          (later : AuthorizationRequest) (s : S)
          → Leads promises base later
          → promises.Valid s
          → Step promises.Valid
              (Filtered base)
              (apply_filter parts authorizer identity workspace rule resource verb later s)
      apply_filter-Filtered later s same v =
          Step-weaken promises.Valid _ (Filtered base) _ (λ found h. filtered found h.1)
            (Step-run promises.Valid (λ found. IsSame later found.0)
              (parts.apply_request_collection_filter identity workspace rule.collection_policy
                later)
              s v
              (promises.parts_keep.filter_keeps identity workspace rule.collection_policy later s
                v))
        where
          filtered :
              (found : AuthorizationRequest × Bool)
              → (t : S) × (u : S) × promises.Valid t
                × (parts.apply_request_collection_filter identity workspace rule.collection_policy
                      later t
                    ≡ (ok found, u))
              → Filtered base found
          filtered (after, true) (t, u, w, ran) = (
            filters same identity workspace rule.collection_policy (after, true) t u w ran,
            λ e. (
              narrowing,
              (later, after, Leads-trans promises from same, unchanged, (t, u, w, ran)),
            ),
          )
          filtered (after, false) (t, u, w, ran) = (
            filters same identity workspace rule.collection_policy (after, false) t u w ran,
            λ e. cc,
          )

      retry_filter-Filtered :
          (found : AuthorizationRequest × Bool) (s : S)
          → Filtered base found
          → promises.Valid s
          → Step promises.Valid
              (Filtered base)
              (retry_filter parts authorizer identity workspace rule resource verb found s)
      unfolding retry_filter
      retry_filter-Filtered (later, true) s h v = (h, v)
      retry_filter-Filtered (later, false) s h v =
          Step-continue promises.Valid (Leads promises later) (Filtered base) _ _
            (with_loaded_body-Leads promises false later s v)
            λ loaded t kept w. apply_filter-Filtered loaded t (Leads-trans promises h.0 kept) w

    deferred-Granted :
        (p : Progress)
        → Known p
        → is_deferred parts authorizer identity workspace rule resource verb p.missing ≡ true
        → IsGranted promises identity request workspace rule resource verb p.request
    deferred-Granted p known e =
        let (graphql, rest) = and-cases (is_graphql_collection_policy rule.collection_policy) _ e in
        inr (
          inr (
            inr (
              graphql,
              elim (or-cases (not (is_hybrid rule)) p.missing rest) [
                | inl h ↦ inl (not-eq-true (is_hybrid rule) h)
                | inr h ↦ inr (known.2 h)
              ],
            )))

    by_policy-Known :
        (p : Progress) (s : S)
        → Known p
        → promises.Valid s
        → Step promises.Valid Known
            (by_policy parts authorizer identity workspace rule resource verb p s)
    unfolding by_policy
    by_policy-Known p s known v =
        Step-if promises.Valid Known (not p.granted && is_narrowing rule.collection_policy) _ _ s
          (λ e.
            let narrowing : is_narrowing rule.collection_policy ≡ true = ground (arith, e) in
            Step-continue promises.Valid (Leads promises p.request) Known _ _
              (Step-if promises.Valid (Leads promises p.request)
                (requires_request_body rule.collection_policy) _ _ s
                (λ _. with_loaded_body-Leads promises true p.request s v) (λ _. (unchanged, v)))
              λ loaded t same w.
                Step-continue promises.Valid (Filtered p.request) Known settled _
                  (Step-continue promises.Valid (Filtered p.request) (Filtered p.request) _ _
                    (apply_filter-Filtered p.request known.0 narrowing loaded t same w)
                    λ found u h w'. retry_filter-Filtered p.request known.0 narrowing found u h w')
                  λ final u g w'. (
                    (
                      Leads-trans promises known.0 g.0,
                      by_final p known final g,
                      λ e. later g.0 reference_missing (known.2 e),
                      λ e. ((known.3 e).0, later g.0 reference_missing (known.3 e).1),
                    ),
                    w',
                  ))
          (λ _. (known, v))
      where
        settled : AuthorizationRequest × Bool → Action S Progress
        settled final = pure (
            progress final.0
              (final.1
                || is_deferred parts authorizer identity workspace rule resource verb p.missing)
              p.missing p.exempt)

        later :
            {q r : AuthorizationRequest}
            → Leads promises q r
            → (resolution : Resolution)
            → ResolvesTo promises identity request workspace rule resource verb resolution q
            → ResolvesTo promises identity request workspace rule resource verb resolution r
        later on resolution h =
            ResolvesTo-later promises identity request workspace rule resource verb on resolution h

        by_final :
            (p : Progress)
            → Known p
            → (final : AuthorizationRequest × Bool) → Filtered p.request final
            → (final.1
                || is_deferred parts authorizer identity workspace rule resource verb p.missing)
              ≡ true
            → IsGranted promises identity request workspace rule resource verb final.0
        by_final p known (last, true) g e = inr (inr (inl (g.1 refl)))
        by_final p known (last, false) g e =
            IsGranted-later promises identity request workspace rule resource verb g.0
              (deferred-Granted p known e)

    -- A rule with a verb and a resource: access is granted, and what the resource depends on may be used.
    abbrev pub IsChecked : AuthorizationRequest → Type 0
    IsChecked final =
        IsExempt promises identity request workspace rule resource verb final
        ⊎ (IsGranted promises identity request workspace rule resource verb final
            × IsUsable promises request identity workspace rule)

    abbrev pub Checked : AuthorizationRequest → Type 0
    Checked later = Leads promises request later × IsChecked later

    concluded-Checked :
        (p : Progress) (s : S)
        → nonempty workspace ≡ true
        → Known p
        → promises.Valid s
        → Step promises.Valid Checked
            (concluded parts authorizer identity workspace rule resource verb p s)
    unfolding concluded
    concluded-Checked p s named known v =
        Step-if promises.Valid Checked (not p.granted) _ _ s (λ _. v)
          λ e.
            Step-weaken promises.Valid
              (λ later.
                Leads promises p.request later
                × IsUsable promises p.request identity workspace rule)
              Checked _
              (λ later h. (
                Leads-trans promises known.0 h.0,
                inr (
                  IsGranted-later promises identity request workspace rule resource verb h.0
                      (known.1 (not-eq-false p.granted e)),
                  IsUsable-later promises request p.request known.0 identity workspace rule h.1,
                ),
              ))
              (enforce_gateway_dependency_permissions-IsUsable promises p.request identity workspace
                rule s named v)

    after_names-Checked :
        (allowed : Bool) (p : Progress) (s : S)
        → nonempty workspace ≡ true
        → Known p
        → promises.Valid s
        → Step promises.Valid Checked
            (after_names parts authorizer identity workspace rule resource verb allowed p s)
    unfolding after_names
    after_names-Checked allowed p s named known v =
        Step-if promises.Valid Checked p.exempt _ _ s (λ e. ((known.0, inl (known.3 e)), v))
          λ _.
            Step-continue promises.Valid Known Checked _ _
              (Step-continue promises.Valid Known Known _ _
                (note_missing-IsProgress promises identity request workspace rule resource verb
                  allowed p s known v)
                λ q t known' w. by_policy-Known q t known' w)
              λ q t known' w. concluded-Checked q t named known' w

    pub check_resource-Checked :
        (later : AuthorizationRequest) (s : S)
        → nonempty workspace ≡ true
        → Leads promises request later
        → promises.Valid s
        → Step promises.Valid Checked
            (check_resource parts authorizer identity workspace rule resource verb later s)
    unfolding check_resource
    check_resource-Checked later s named same v =
        Step-continue promises.Valid
          (λ allowed.
            allowed ≡ true
            → promises.Granted identity
                (asked_query promises identity request workspace rule resource verb none))
          Checked _ _
          (promises.is_allowed_grants identity
            (asked_query promises identity request workspace rule resource verb none) s v)
          λ allowed t granted w.
            Step-continue promises.Valid (Leads promises request) Checked _ _
              (scorer_scope-Leads rule allowed later t same w)
              λ scoped u same' w'.
                Step-continue promises.Valid Known Checked _ _
                  (by_names-IsProgress promises identity request workspace rule resource verb
                    allowed scoped u (λ e. inl (granted e)) same' w')
                  λ p u' known w''. after_names-Checked allowed p u' named known w''
