-- ===== src/Auth/Authorize/Gateway/Origin.antt =====
-- Where the names come from that a gateway endpoint or a model definition depends on.
use mlflow_integration.Shared.{
  String, Bool, false, not, ◌&&◌, Option, none, some, List, [], ◌∷◌, string_eq, option_eq, ◌==◌,
  Outcome, ok, raised, mlflow, api, http, not_implemented, unexpected, ◌≡◌, refl, ◌⊎◌, inl, inr,
}
use mlflow_integration.Shared.Action.{Action, continue, pure}
use mlflow_integration.Auth.Rules.{AuthorizationRule}
use mlflow_integration.Auth.Request.{AuthorizationRequest}
use mlflow_integration.Auth.Authorize.{Authorizer, Collaborators, Resolution}
use mlflow_integration.Auth.Authorize.Gateway.{
  Dependencies, has_names, names_of, retried, named_for_use, or_existing, is_full_update,
  endpoint_dependencies, definition_dependencies, existing_model_definitions, existing_secrets,
  definitions_of, secret_of, without_mlflow, without_repeats, stripped_names, with_name,
}
use mlflow_integration.Auth.Authorize.Contract.{
  Promises, Step, Step-continue, Step-run, Step-kept, Step-if,
}
use mlflow_integration.Auth.Authorize.Contract.Changes.{Leads, unchanged, with_loaded_body-Leads}

module _ {S : Type 0} {parts : Collaborators S} {authorizer : Authorizer S}
    (promises : Promises parts authorizer) (request : AuthorizationRequest) where
  -- Names that a resolution gave for the request, or that MLflow stored.
  abbrev pub IsOrigin :
      (AuthorizationRequest → Action S Resolution)
      → (AuthorizationRequest → Action S (List String))
      → List String
      → Type 0
  IsOrigin resolve existing names =
      ((later : AuthorizationRequest) × Leads promises request later
        × ((resolution : Resolution) × (t : S) × (u : S) × promises.Valid t
            × (resolve later t ≡ (ok resolution, u))
            × (names_of resolution ≡ names)))
      ⊎ ((later : AuthorizationRequest) × Leads promises request later
          × ((t : S) × (u : S) × promises.Valid t × (existing later t ≡ (ok names, u))))

  abbrev pub AreDependencies :
      (AuthorizationRequest → Action S Resolution)
      → (AuthorizationRequest → Action S (List String))
      → Dependencies
      → Type 0
  AreDependencies resolve existing found =
      Leads promises request found.0 × IsOrigin resolve existing found.1

  module _ (resolve : AuthorizationRequest → Action S Resolution)
      (existing : AuthorizationRequest → Action S (List String))
      (resolve_keeps : (later : AuthorizationRequest) (s : S)
        → promises.Valid s
        → promises.Valid (resolve later s).1)
      (existing_keeps : (later : AuthorizationRequest) (s : S)
        → promises.Valid s
        → promises.Valid (existing later s).1) where
    Ran : AuthorizationRequest → Resolution → Type 0
    Ran later resolution =
        (t : S) × (u : S) × promises.Valid t × (resolve later t ≡ (ok resolution, u))

    resolve-runs :
        (later : AuthorizationRequest) (s : S)
        → promises.Valid s
        → Step promises.Valid (λ resolution. Unit {0} × Ran later resolution) (resolve later s)
    unfolding Ran
    resolve-runs later s v =
        Step-run promises.Valid (λ _. Unit {0}) (resolve later) s v
          (Step-kept promises.Valid (resolve later s) (resolve_keeps later s v))

    retried-Origin :
        (resolution : Resolution) (names : List String) (s : S)
        → names_of resolution ≡ names
        → Ran request resolution
        → promises.Valid s
        → Step promises.Valid
            (AreDependencies resolve existing)
            (retried parts resolve request names s)
    unfolding retried Ran
    retried-Origin resolution (name ∷ names) s e (t, u, valid, ran) v =
        ((unchanged, inl (request, unchanged, (resolution, t, u, valid, ran, e))), v)
    retried-Origin resolution [] s e ran v =
        Step-continue promises.Valid (Leads promises request) (AreDependencies resolve existing) _ _
          (with_loaded_body-Leads promises false request s v)
          λ later t same w.
            Step-continue promises.Valid (λ r. Unit {0} × Ran later r)
              (AreDependencies resolve existing) _ (resolve later t) (resolve-runs later t w)
              λ r u h w'. ((same, inl (later, same, (r, h.1.0, h.1.1, h.1.2, h.1.3, refl))), w')

    named_for_use-Origin :
        (s : S)
        → promises.Valid s
        → Step promises.Valid
            (AreDependencies resolve existing)
            (named_for_use parts resolve request s)
    unfolding named_for_use
    named_for_use-Origin s v =
        Step-continue promises.Valid (λ r. Unit {0} × Ran request r)
          (AreDependencies resolve existing) _ (resolve request s) (resolve-runs request s v)
          λ r t h w. retried-Origin r (names_of r) t refl h.1 w

    or_existing-Origin :
        (applies : Bool) (found : Dependencies) (s : S)
        → AreDependencies resolve existing found
        → promises.Valid s
        → Step promises.Valid
            (AreDependencies resolve existing)
            (or_existing parts applies existing found s)
    or_existing-Origin applies (later, names) s (same, origin) v =
        Step-if promises.Valid (AreDependencies resolve existing) (not (has_names names) && applies)
          _ _ s
          (λ _.
            Step-continue promises.Valid _ (AreDependencies resolve existing) _ (existing later s)
              (Step-run promises.Valid (λ _. Unit {0}) (existing later) s v
                (Step-kept promises.Valid (existing later s) (existing_keeps later s v)))
              λ names t h w. ((same, inr (later, same, (h.1.0, h.1.1, h.1.2, h.1.3))), w))
          (λ _. ((same, origin), v))

  without_mlflow-Valid :
      {A : Type 0} (default : A) (r : Outcome A × S)
      → promises.Valid r.1
      → promises.Valid (without_mlflow default r).1
  without_mlflow-Valid default (ok a, s) v = v
  without_mlflow-Valid default (raised (mlflow code), s) v = v
  without_mlflow-Valid default (raised (api status), s) v = v
  without_mlflow-Valid default (raised http, s) v = v
  without_mlflow-Valid default (raised not_implemented, s) v = v
  without_mlflow-Valid default (raised unexpected, s) v = v

  then_pure-Valid :
      {A B : Type 0} (f : A → B) (r : Outcome A × S)
      → promises.Valid r.1
      → promises.Valid (continue (λ a. pure (f a)) r).1
  then_pure-Valid f (ok a, s) v = v
  then_pure-Valid f (raised e, s) v = v

  definitions_of-Valid :
      (endpoint_id : Option String) (s : S)
      → promises.Valid s
      → promises.Valid (definitions_of parts endpoint_id s).1
  definitions_of-Valid none s v = v
  definitions_of-Valid (some endpoint_id) s v =
      without_mlflow-Valid [] _ (promises.parts_keep.get_gateway_endpoint_keeps endpoint_id s v)

  secret_of-Valid :
      (definition_id : Option String) (s : S)
      → promises.Valid s
      → promises.Valid (secret_of parts definition_id s).1
  secret_of-Valid none s v = v
  secret_of-Valid (some definition_id) s v =
      without_mlflow-Valid none _
        (promises.parts_keep.get_gateway_model_definition_keeps definition_id s v)

  existing_model_definitions-Valid :
      (later : AuthorizationRequest) (s : S)
      → promises.Valid s
      → promises.Valid (existing_model_definitions parts later s).1
  unfolding existing_model_definitions
  existing_model_definitions-Valid later s v =
      then_pure-Valid (λ names. without_repeats [] (stripped_names names)) _
        (definitions_of-Valid _ s v)

  existing_secrets-Valid :
      (later : AuthorizationRequest) (s : S)
      → promises.Valid s
      → promises.Valid (existing_secrets parts later s).1
  unfolding existing_secrets
  existing_secrets-Valid later s v =
      then_pure-Valid (λ name. with_name name []) _ (secret_of-Valid _ s v)

  pub endpoint_dependencies-Origin :
      (rule : AuthorizationRule) (s : S)
      → promises.Valid s
      → Step promises.Valid
          (AreDependencies parts.resolve_gateway_model_definition_names_for_use
            (existing_model_definitions parts))
          (endpoint_dependencies parts rule request s)
  unfolding endpoint_dependencies
  endpoint_dependencies-Origin rule s v =
      let resolve = parts.resolve_gateway_model_definition_names_for_use in
      Step-continue promises.Valid (AreDependencies resolve (existing_model_definitions parts))
        (AreDependencies resolve (existing_model_definitions parts)) _ _
        (named_for_use-Origin resolve (existing_model_definitions parts)
          promises.parts_keep.model_definitions_keeps existing_model_definitions-Valid s v)
        λ found t h w.
          or_existing-Origin resolve (existing_model_definitions parts)
            promises.parts_keep.model_definitions_keeps existing_model_definitions-Valid
            (rule.verb == some "update" && is_full_update found.0) found t h w

  pub definition_dependencies-Origin :
      (rule : AuthorizationRule) (s : S)
      → promises.Valid s
      → Step promises.Valid
          (AreDependencies parts.resolve_gateway_secret_names_for_use (existing_secrets parts))
          (definition_dependencies parts rule request s)
  unfolding definition_dependencies
  definition_dependencies-Origin rule s v =
      let resolve = parts.resolve_gateway_secret_names_for_use in
      Step-continue promises.Valid (AreDependencies resolve (existing_secrets parts))
        (AreDependencies resolve (existing_secrets parts)) _ _
        (named_for_use-Origin resolve (existing_secrets parts) promises.parts_keep.secrets_keeps
          existing_secrets-Valid s v)
        λ found t h w.
          or_existing-Origin resolve (existing_secrets parts) promises.parts_keep.secrets_keeps
            existing_secrets-Valid (rule.verb == some "update") found t h w
