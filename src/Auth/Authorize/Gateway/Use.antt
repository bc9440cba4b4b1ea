-- ===== src/Auth/Authorize/Gateway/Use.antt =====
-- The use of what a gateway endpoint or a model definition depends on.
use mlflow_integration.Shared.{
  String, Bool, true, false, not, ◌||◌, Option, none, some, List, if◌then◌else◌, string_eq,
  option_eq, ◌==◌, ◌≡◌, refl, ◌⊎◌, inl, inr, arith, equal_option, equal_option_iff, subst,
}
use mlflow_integration.Shared.Action.{Action, ◌>>=◌, pure}
use mlflow_integration.Shared.Text.{nonempty}
use mlflow_integration.Auth.Identity.{RequestIdentity}
use mlflow_integration.Auth.Rules.{AuthorizationRule}
use mlflow_integration.Auth.Request.{AuthorizationRequest}
use mlflow_integration.Auth.Authorize.{Authorizer, Collaborators, Resolution, names_allowed}
use mlflow_integration.Auth.Authorize.Gateway.{
  Dependencies, has_names, definition_dependencies, existing_model_definitions, existing_secrets,
  permitted, by_name, use_query, endpoint_use, definition_use, writes,
  enforce_gateway_dependency_permissions,
}
use mlflow_integration.Auth.Authorize.Contract.{
  Promises, Step, Step-continue, Step-weaken, Step-if, NamesGranted, names_allowed-grants,
}
use mlflow_integration.Auth.Authorize.Contract.Changes.{Leads, unchanged, Leads-trans}
use mlflow_integration.Auth.Authorize.Gateway.Origin.{
  IsOrigin, AreDependencies, endpoint_dependencies-Origin, definition_dependencies-Origin,
}

not-eq-true : (b : Bool) → not b ≡ true → b ≡ false
not-eq-true true e = cc
not-eq-true false e = refl

resource-one :
    (resource : Option String)
    → resource == some "gatewayendpoints" ≡ true
    → resource == some "gatewaymodeldefinitions" ≡ true
    → ⊥
resource-one resource e d =
    let p = (equal_option_iff resource (some "gatewayendpoints")).0 e in
    let q : equal_option {A = String} (some "gatewayendpoints") (some "gatewaymodeldefinitions")
        ≡ true =
      subst (λ o. equal_option o (some "gatewaymodeldefinitions") ≡ true) p d in
    cc

-- No rule is about two resources.
writes-one :
    (rule : AuthorizationRule)
    → writes "gatewayendpoints" rule ≡ true
    → writes "gatewaymodeldefinitions" rule ≡ true
    → ⊥
writes-one rule e d = ground (arith, resource-one rule.resource)

module _ {S : Type 0} {parts : Collaborators S} {authorizer : Authorizer S}
    (promises : Promises parts authorizer) (request : AuthorizationRequest) where
  module _ (identity : RequestIdentity) (workspace : String) where
    -- The names are there, and each may be used.
    abbrev pub AllUsable : String → List String → Type 0
    AllUsable resource names =
        (has_names names ≡ true)
        × NamesGranted promises identity (λ name. use_query workspace resource (some name)) names

    abbrev pub IsBroad : String → Type 0
    IsBroad resource = promises.Granted identity (use_query workspace resource none)

    -- All model definitions of the workspace may be used, or those that the endpoint has; an update may leave them alone.
    abbrev pub EndpointUse : AuthorizationRule → Type 0
    EndpointUse rule =
        IsBroad "gatewaymodeldefinitions"
        ⊎ ((names : List String) × IsOrigin promises request
              parts.resolve_gateway_model_definition_names_for_use
              (existing_model_definitions parts) names
            × (AllUsable "gatewaymodeldefinitions" names
                ⊎ (((rule.verb == some "create") || has_names names) ≡ false)))

    -- All secrets of the workspace may be used, or those that the model definition has.
    abbrev pub DefinitionUse : Type 0
    DefinitionUse =
        IsBroad "gatewaysecrets"
        ⊎ ((names : List String) × IsOrigin promises request
              parts.resolve_gateway_secret_names_for_use (existing_secrets parts) names
            × AllUsable "gatewaysecrets" names)

    by_name-grants :
        (resource : String) (found : Dependencies) (s : S)
        → Leads promises request found.0
        → promises.Valid s
        → Step promises.Valid
            (λ later. Leads promises request later × AllUsable resource found.1)
            (by_name parts authorizer identity workspace resource found s)
    unfolding by_name
    by_name-grants resource (later, names) s same v =
        Step-continue promises.Valid (λ allowed. allowed ≡ true → AllUsable resource names)
          (λ final. Leads promises request final × AllUsable resource names) _
          (names_allowed authorizer identity (λ name. use_query workspace resource (some name))
            names s)
          (names_allowed-grants promises identity (λ name. use_query workspace resource (some name))
            names s v)
          by_answer
      where
        by_answer :
            (allowed : Bool) (t : S)
            → (allowed ≡ true → AllUsable resource names)
            → promises.Valid t
            → Step promises.Valid
                (λ final. Leads promises request final × AllUsable resource names)
                (permitted later allowed t)
        by_answer true t h w = ((same, h refl), w)
        by_answer false t h w = w

    endpoint_use-grants :
        (rule : AuthorizationRule) (found : Dependencies) (s : S)
        → AreDependencies promises request parts.resolve_gateway_model_definition_names_for_use
            (existing_model_definitions parts)
            found
        → promises.Valid s
        → Step promises.Valid
            (λ later. Leads promises request later × EndpointUse rule)
            (endpoint_use parts authorizer identity workspace rule found s)
    unfolding endpoint_use
    endpoint_use-grants rule (later, names) s (same, origin) v =
        Step-if promises.Valid (λ final. Leads promises request final × EndpointUse rule)
          (not ((rule.verb == some "create") || has_names names)) _ _ s
          (λ e. ((same, inr (names, origin, inr (not-eq-true _ e))), v))
          λ _.
            Step-continue promises.Valid
              (λ allowed. allowed ≡ true → IsBroad "gatewaymodeldefinitions")
              (λ final. Leads promises request final × EndpointUse rule) _ _
              (promises.is_allowed_grants identity
                (use_query workspace "gatewaymodeldefinitions" none) s v)
              by_answer
      where
        by_answer :
            (allowed : Bool) (t : S)
            → (allowed ≡ true → IsBroad "gatewaymodeldefinitions")
            → promises.Valid t
            → Step promises.Valid
                (λ final. Leads promises request final × EndpointUse rule)
                ((if allowed
                    then pure later
                    else by_name parts authorizer identity workspace "gatewaymodeldefinitions"
                        (later, names))
                  t)
        by_answer true t h w = ((same, inl (h refl)), w)
        by_answer false t h w =
            Step-weaken promises.Valid
              (λ final. Leads promises request final × AllUsable "gatewaymodeldefinitions" names)
              (λ final. Leads promises request final × EndpointUse rule) _
              (λ final g. (g.0, inr (names, origin, inl g.1)))
              (by_name-grants "gatewaymodeldefinitions" (later, names) t same w)

    definition_use-grants :
        (rule : AuthorizationRule) (s : S)
        → promises.Valid s
        → Step promises.Valid
            (λ later. Leads promises request later × DefinitionUse)
            (definition_use parts authorizer identity workspace rule request s)
    unfolding definition_use definition_dependencies
    definition_use-grants rule s v =
        Step-continue promises.Valid (λ allowed. allowed ≡ true → IsBroad "gatewaysecrets")
          (λ final. Leads promises request final × DefinitionUse) _ _
          (promises.is_allowed_grants identity (use_query workspace "gatewaysecrets" none) s v)
          by_answer
      where
        by_answer :
            (allowed : Bool) (t : S)
            → (allowed ≡ true → IsBroad "gatewaysecrets")
            → promises.Valid t
            → Step promises.Valid
                (λ final. Leads promises request final × DefinitionUse)
                ((if allowed
                    then pure request
                    else (definition_dependencies parts rule request
                        >>= by_name parts authorizer identity workspace "gatewaysecrets"))
                  t)
        by_answer true t h w = ((unchanged, inl (h refl)), w)
        by_answer false t h w =
            Step-continue promises.Valid
              (AreDependencies promises request parts.resolve_gateway_secret_names_for_use
                (existing_secrets parts))
              (λ final. Leads promises request final × DefinitionUse) _ _
              (definition_dependencies-Origin promises request rule t w)
              λ found u g w'.
                Step-weaken promises.Valid
                  (λ final. Leads promises request final × AllUsable "gatewaysecrets" found.1)
                  (λ final. Leads promises request final × DefinitionUse) _
                  (λ final k. (k.0, inr (found.1, g.1, k.1)))
                  (by_name-grants "gatewaysecrets" found u g.0 w')

    -- What the write of a gateway endpoint or of a model definition needs.
    abbrev pub IsUsable : AuthorizationRule → Type 0
    IsUsable rule =
        (rule.skip_gateway_dependency_permissions ≡ true)
        ⊎ ((writes "gatewayendpoints" rule ≡ true → EndpointUse rule)
            × (writes "gatewaymodeldefinitions" rule ≡ true → DefinitionUse))

    -- A dependency check that returns has seen its permission.
    pub enforce_gateway_dependency_permissions-IsUsable :
        (rule : AuthorizationRule) (s : S)
        → nonempty workspace ≡ true
        → promises.Valid s
        → Step promises.Valid
            (λ later. Leads promises request later × IsUsable rule)
            (enforce_gateway_dependency_permissions parts authorizer identity workspace rule request
              s)
    unfolding enforce_gateway_dependency_permissions
    enforce_gateway_dependency_permissions-IsUsable rule s named v =
        Step-if promises.Valid Q
          (not (nonempty workspace) || rule.skip_gateway_dependency_permissions) _ _ s
          (λ e. ((unchanged, inl (ground (arith, e, named))), v))
          λ _.
            Step-if promises.Valid Q (writes "gatewayendpoints" rule) _ _ s
              (λ e.
                Step-continue promises.Valid
                  (AreDependencies promises request
                    parts.resolve_gateway_model_definition_names_for_use
                    (existing_model_definitions parts))
                  Q _ _ (endpoint_dependencies-Origin promises request rule s v)
                  λ found t g w.
                    Step-weaken promises.Valid
                      (λ final. Leads promises request final × EndpointUse rule) Q _
                      (λ final k. (k.0, inr ((λ _. k.1), λ d. absurd (writes-one rule e d))))
                      (endpoint_use-grants rule found t g w))
              λ f.
                Step-if promises.Valid Q (writes "gatewaymodeldefinitions" rule) _ _ s
                  (λ e.
                    Step-weaken promises.Valid
                      (λ final. Leads promises request final × DefinitionUse) Q _
                      (λ final k. (k.0, inr ((λ d. cc), λ _. k.1)))
                      (definition_use-grants rule s v))
                  (λ f'. ((unchanged, inr ((λ d. cc), λ d. cc)), v))
      where
        Q : AuthorizationRequest → Type 0
        Q later = Leads promises request later × IsUsable rule

-- What a later form of a request needs, the request needs.
module _ {S : Type 0} {parts : Collaborators S} {authorizer : Authorizer S}
    (promises : Promises parts authorizer) (request later : AuthorizationRequest)
    (same : Leads promises request later) where
  IsOrigin-later :
      (resolve : AuthorizationRequest → Action S Resolution)
      (existing : AuthorizationRequest → Action S (List String)) (names : List String)
      → IsOrigin promises later resolve existing names
      → IsOrigin promises request resolve existing names
  IsOrigin-later resolve existing names (inl (last, h, ran)) =
      inl (last, Leads-trans promises same h, ran)
  IsOrigin-later resolve existing names (inr (last, h, ran)) =
      inr (last, Leads-trans promises same h, ran)

  module _ (identity : RequestIdentity) (workspace : String) where
    EndpointUse-later :
        (rule : AuthorizationRule)
        → EndpointUse promises later identity workspace rule
        → EndpointUse promises request identity workspace rule
    EndpointUse-later rule (inl h) = inl h
    EndpointUse-later rule (inr (names, origin, h)) =
        inr (names, IsOrigin-later _ _ names origin, h)

    DefinitionUse-later :
        DefinitionUse promises later identity workspace
        → DefinitionUse promises request identity workspace
    DefinitionUse-later (inl h) = inl h
    DefinitionUse-later (inr (names, origin, h)) = inr (names, IsOrigin-later _ _ names origin, h)

    pub IsUsable-later :
        (rule : AuthorizationRule)
        → IsUsable promises later identity workspace rule
        → IsUsable promises request identity workspace rule
    IsUsable-later rule (inl h) = inl h
    IsUsable-later rule (inr (e, d)) =
        inr ((λ w. EndpointUse-later rule (e w)), (λ w. DefinitionUse-later (d w)))
