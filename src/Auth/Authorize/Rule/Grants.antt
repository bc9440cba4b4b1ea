-- ===== src/Auth/Authorize/Rule/Grants.antt =====
-- What a rule that lets a request through rests on.
use mlflow_integration.Shared.{
  String, Bool, true, false, not, ◌&&◌, ◌||◌, Option, none, some, List, string_eq, ok, ◌≡◌, refl,
  ◌⊎◌, inl, inr, subst,
}
use mlflow_integration.Auth.Identity.{RequestIdentity}
use mlflow_integration.Auth.Access.{Query}
use mlflow_integration.Auth.Rules.{AuthorizationRule, is_narrowing, is_graphql_collection_policy}
use mlflow_integration.Auth.Request.{AuthorizationRequest}
use mlflow_integration.Auth.Authorize.{
  Authorizer, Collaborators, Resolution, resolved, reference_missing, unresolved, query,
}
use mlflow_integration.Auth.Authorize.Gateway.{has_names}
use mlflow_integration.Auth.Authorize.Contract.{
  Promises, Step, Step-continue, Step-run, Step-weaken, Step-kept, Step-if, NamesGranted,
  names_allowed-grants,
}
use mlflow_integration.Auth.Authorize.Contract.Changes.{
  Leads, unchanged, Leads-trans, with_loaded_body-Leads,
}
use mlflow_integration.Auth.Authorize.Rule.{
  Progress, has_parsers, is_hybrid, is_missing, by_resolution, by_names, note_missing,
}

pub or-cases : (a b : Bool) → (a || b) ≡ true → (a ≡ true) ⊎ (b ≡ true)
or-cases true b e = inl refl
or-cases false b e = inr e

module _ {S : Type 0} {parts : Collaborators S} {authorizer : Authorizer S}
    (promises : Promises parts authorizer) (identity : RequestIdentity)
    (request : AuthorizationRequest) where
  module _ (workspace : String) (rule : AuthorizationRule) (resource verb : String) where
    -- The resolution of the names that the request is about came to this, and `final` comes of the request with these names.
    abbrev pub ResolvesTo : Resolution → AuthorizationRequest → Type 0
    ResolvesTo resolution final =
        (later : AuthorizationRequest) × Leads promises request later
        × Leads promises later final
        × ((t : S) × (u : S) × promises.Valid t
            × (parts.resolve_resource_names later rule.resource_name_parsers t
                ≡ (ok resolution, u)))

    abbrev pub asked_query : Option String → Query
    asked_query name = query resource verb workspace rule.subresource name

    -- The names that the request is about are there, and access to each is granted.
    abbrev pub IsNamed : AuthorizationRequest → Type 0
    IsNamed final =
        (names : List String) × ResolvesTo (resolved names) final
        × ((has_names names ≡ true)
            × NamesGranted promises identity (λ name. asked_query (some name)) names)

    -- The collection filter narrowed the request, and `final` comes of the narrowed one.
    abbrev pub IsNarrowed : AuthorizationRequest → Type 0
    IsNarrowed final =
        (is_narrowing rule.collection_policy ≡ true)
        × ((before : AuthorizationRequest) × (after : AuthorizationRequest) × Leads promises request
              before
            × Leads promises after final
            × ((t : S) × (u : S) × promises.Valid t
                × (parts.apply_request_collection_filter identity workspace rule.collection_policy
                      before t
                    ≡ (ok (after, true), u))))

    -- GraphQL narrows the request field by field, and no field names one resource.
    abbrev pub IsDeferred : AuthorizationRequest → Type 0
    IsDeferred final =
        (is_graphql_collection_policy rule.collection_policy ≡ true)
        × ((is_hybrid rule ≡ false) ⊎ ResolvesTo reference_missing final)

    -- A rule that does not mind a missing reference.
    abbrev pub IsExempt : AuthorizationRequest → Type 0
    IsExempt final =
        (rule.allow_if_resource_reference_missing ≡ true) × ResolvesTo reference_missing final

    abbrev pub IsGranted : AuthorizationRequest → Type 0
    IsGranted final =
        promises.Granted identity (asked_query none)
        ⊎ IsNamed final
        ⊎ IsNarrowed final
        ⊎ IsDeferred final

    -- What is known of a request is known of those that come of it.
    module _ {r s : AuthorizationRequest} (on : Leads promises r s) where
      pub ResolvesTo-later :
          (resolution : Resolution) → ResolvesTo resolution r → ResolvesTo resolution s
      ResolvesTo-later resolution (later, before, after, ran) =
          (later, before, Leads-trans promises after on, ran)

      pub IsGranted-later : IsGranted r → IsGranted s
      IsGranted-later (inl h) = inl h
      IsGranted-later (inr (inl (names, ran, h))) =
          inr (inl (names, ResolvesTo-later (resolved names) ran, h))
      IsGranted-later (inr (inr (inl (policy, (before, after, first, last, ran))))) =
          inr (inr (inl (policy, (before, after, first, Leads-trans promises last on, ran))))
      IsGranted-later (inr (inr (inr (policy, inl h)))) = inr (inr (inr (policy, inl h)))
      IsGranted-later (inr (inr (inr (policy, inr h)))) =
          inr (inr (inr (policy, inr (ResolvesTo-later reference_missing h))))

    -- What is known of the local variables.
    abbrev pub IsProgress : Progress → Type 0
    IsProgress p =
        Leads promises request p.request
        × (p.granted ≡ true → IsGranted p.request)
        × (p.missing ≡ true → ResolvesTo reference_missing p.request)
        × (p.exempt ≡ true → IsExempt p.request)

    -- A resolution of a later request, with its run.
    resolve-runs :
        (later : AuthorizationRequest) (s : S)
        → Leads promises request later
        → promises.Valid s
        → Step promises.Valid
            (λ r. ResolvesTo r later)
            (parts.resolve_resource_names later rule.resource_name_parsers s)
    resolve-runs later s same v =
        Step-weaken promises.Valid
          (λ r.
            Unit {0}
            × ((t : S) × (u : S) × promises.Valid t
                × (parts.resolve_resource_names later rule.resource_name_parsers t ≡ (ok r, u))))
          (λ r. ResolvesTo r later) _ (λ r h. (later, same, unchanged, h.1))
          (Step-run promises.Valid (λ _. Unit {0})
            (parts.resolve_resource_names later rule.resource_name_parsers) s v
            (Step-kept promises.Valid _ (
              promises.parts_keep.resolve_resource_names_keeps later rule.resource_name_parsers s
                v)))

    by_resolution-IsProgress :
        (later : AuthorizationRequest) (resolution : Resolution) (s : S)
        → Leads promises request later
        → ResolvesTo resolution later
        → promises.Valid s
        → Step promises.Valid IsProgress (
            by_resolution parts authorizer identity workspace rule resource verb later resolution s)
    unfolding by_resolution
    by_resolution-IsProgress later (resolved names) s same ran v =
        Step-continue promises.Valid
          (λ allowed.
            allowed ≡ true
            → (has_names names ≡ true)
              × NamesGranted promises identity (λ name. asked_query (some name)) names)
          IsProgress _ _
          (names_allowed-grants promises identity (λ name. asked_query (some name)) names s v)
          λ allowed t h w. ((same, (λ e. inr (inl (names, ran, h e))), (λ e. cc), (λ e. cc)), w)
    by_resolution-IsProgress later reference_missing s same ran v =
        ((same, (λ e. cc), (λ e. ran), (λ e. (e, ran))), v)
    by_resolution-IsProgress later unresolved s same ran v =
        ((same, (λ e. cc), (λ e. cc), (λ e. cc)), v)

    pub by_names-IsProgress :
        (allowed : Bool) (later : AuthorizationRequest) (s : S)
        → (allowed ≡ true → IsGranted later)
        → Leads promises request later
        → promises.Valid s
        → Step promises.Valid IsProgress
            (by_names parts authorizer identity workspace rule resource verb allowed later s)
    unfolding by_names
    by_names-IsProgress allowed later s granted same v =
        Step-if promises.Valid IsProgress (not allowed && has_parsers rule.resource_name_parsers) _
          _ s
          (λ _.
            Step-continue promises.Valid (Leads promises later) IsProgress _ _
              (with_loaded_body-Leads promises false later s v)
              λ loaded t kept w.
                Step-continue promises.Valid (λ r. ResolvesTo r loaded) IsProgress _ _
                  (resolve-runs loaded t (Leads-trans promises same kept) w)
                  λ r u ran w'.
                    by_resolution-IsProgress loaded r u (Leads-trans promises same kept) ran w')
          (λ _. ((same, granted, (λ e. cc), (λ e. cc)), v))

    is_missing-eq : (r : Resolution) → is_missing r ≡ true → r ≡ reference_missing
    is_missing-eq (resolved names) e = cc
    is_missing-eq reference_missing e = refl
    is_missing-eq unresolved e = cc

    pub note_missing-IsProgress :
        (allowed : Bool) (p : Progress) (s : S)
        → IsProgress p
        → promises.Valid s
        → Step promises.Valid IsProgress
            (note_missing parts authorizer identity workspace rule resource verb allowed p s)
    unfolding note_missing
    note_missing-IsProgress allowed p s (same, granted, missing, exempt) v =
        Step-if promises.Valid IsProgress (allowed && is_hybrid rule) _ _ s
          (λ _.
            Step-continue promises.Valid (Leads promises p.request) IsProgress _ _
              (with_loaded_body-Leads promises false p.request s v)
              λ loaded t kept w.
                Step-continue promises.Valid (λ r. ResolvesTo r loaded) IsProgress _ _
                  (resolve-runs loaded t (Leads-trans promises same kept) w)
                  λ r u ran w'. (
                    (
                      Leads-trans promises same kept,
                      (λ e. IsGranted-later kept (granted e)),
                      now_missing r loaded ran kept,
                      λ e. ((exempt e).0, ResolvesTo-later kept reference_missing (exempt e).1),
                    ),
                    w',
                  ))
          (λ _. ((same, granted, missing, exempt), v))
      where
        now_missing :
            (r : Resolution) (loaded : AuthorizationRequest)
            → ResolvesTo r loaded
            → Leads promises p.request loaded
            → (is_missing r || p.missing) ≡ true
            → ResolvesTo reference_missing loaded
        now_missing r loaded ran kept e = elim (or-cases (is_missing r) p.missing e) [
          | inl h ↦ subst (λ q. ResolvesTo q loaded) (is_missing-eq r h) ran
          | inr h ↦ ResolvesTo-later kept reference_missing (missing h)
        ]
