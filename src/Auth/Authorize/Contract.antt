-- ===== src/Auth/Authorize/Contract.antt =====
-- What the components promise to the authorization of a request.
pub mod Changes
use mlflow_integration.Shared.{
  String, Bool, true, false, Option, none, some, List, [], ◌∷◌, Outcome, ok, raised, All, ◌≡◌, refl,
  if◌then◌else◌, if_intro, not, ◌&&◌, subst, ok_injective, ◌∙◌,
}
use mlflow_integration.Shared.Action.{Action, continue, pure}
use mlflow_integration.Shared.Json.{Json}
use mlflow_integration.Auth.Identity.{RequestIdentity}
use mlflow_integration.Auth.Access.{Query}
use mlflow_integration.Auth.Rules.{AuthorizationRule, CollectionPolicy, ResourceNameParser}
use mlflow_integration.Shared.Text.{upper}
use mlflow_integration.Auth.Credentials.{spells}
use mlflow_integration.Auth.Request
use mlflow_integration.Auth.Request.{AuthorizationRequest}
use mlflow_integration.Auth.Authorize.{
  Authorizer, Collaborators, all_allowed, names_allowed, with_loaded_body,
}
use mlflow_integration.Auth.Authorize.Gateway.{has_names}

-- The state stays valid, also where an exception is raised, and `P` holds of what is returned.
abbrev pub Step : {S A : Type 0} → (S → Type 0) → (A → Type 0) → Outcome A × S → Type 0
Step Valid P (ok a, s) = P a × Valid s
Step Valid P (raised e, s) = Valid s

pub Step-continue :
    {S A B : Type 0} (Valid : S → Type 0) (P : A → Type 0) (Q : B → Type 0) (f : A → Action S B)
    (r : Outcome A × S)
    → Step Valid P r
    → ((a : A) (s : S) → P a → Valid s → Step Valid Q (f a s))
    → Step Valid Q (continue f r)
Step-continue Valid P Q f (ok a, s) h k = k a s h.0 h.1
Step-continue Valid P Q f (raised e, s) h k = h

pub Step-weaken :
    {S A : Type 0} (Valid : S → Type 0) (P Q : A → Type 0) (r : Outcome A × S)
    → ((a : A) → P a → Q a)
    → Step Valid P r
    → Step Valid Q r
Step-weaken Valid P Q (ok a, s) f h = (f a h.0, h.1)
Step-weaken Valid P Q (raised e, s) f h = h

-- What is returned, with the run that returned it.
pub Step-run :
    {S A : Type 0} (Valid : S → Type 0) (P : A → Type 0) (m : Action S A) (s : S)
    → Valid s
    → Step Valid P (m s)
    → Step Valid (λ a. P a × ((t : S) × (u : S) × Valid t × (m t ≡ (ok a, u)))) (m s)
Step-run {S} {A} Valid P m s v h = by_outcome (m s) refl h
  where
    by_outcome :
        (r : Outcome A × S)
        → m s ≡ r
        → Step Valid P r
        → Step Valid (λ a. P a × ((t : S) × (u : S) × Valid t × (m t ≡ (ok a, u)))) r
    by_outcome (ok a, u) e h = ((h.0, (s, u, v, e)), h.1)
    by_outcome (raised e', u) e h = h

pub Step-lift :
    {S A : Type 0} (Valid : S → Type 0) (P : A → Type 0) (m : Outcome A) (s : S)
    → ((a : A) → m ≡ ok a → P a)
    → Valid s
    → Step Valid P (m, s)
Step-lift Valid P (ok a) s h v = (h a refl, v)
Step-lift Valid P (raised e) s h v = v

pub Step-if :
    {S A : Type 0} (Valid : S → Type 0) (P : A → Type 0) (b : Bool) (m n : Action S A) (s : S)
    → (b ≡ true → Step Valid P (m s))
    → (b ≡ false → Step Valid P (n s))
    → Step Valid P ((if b then m else n) s)
Step-if Valid P true m n s h k = h refl
Step-if Valid P false m n s h k = k refl

-- The parts of a request that no step changes.
pub record IsSame (request later : AuthorizationRequest) : Type 0 where
  pub path : later.path ≡ request.path
  pub method : later.method ≡ request.method
  pub headers : later.headers ≡ request.headers
  pub path_params : later.path_params ≡ request.path_params

pub IsSame-refl : (request : AuthorizationRequest) → IsSame request request
IsSame-refl request = record { path = refl; method = refl; headers = refl; path_params = refl }

-- The other components leave valid caches valid, and those that change a request leave alone what `IsSame` names.
pub record PartsKeep {S : Type 0} (Valid : S → Type 0) (parts : Collaborators S) : Type 0 where
  pub resolve_resource_names_keeps :
      (request : AuthorizationRequest) (parsers : List ResourceNameParser) (s : S)
      → Valid s
      → Valid (parts.resolve_resource_names request parsers s).1
  pub model_definitions_keeps :
      (request : AuthorizationRequest) (s : S)
      → Valid s
      → Valid (parts.resolve_gateway_model_definition_names_for_use request s).1
  pub secrets_keeps :
      (request : AuthorizationRequest) (s : S)
      → Valid s
      → Valid (parts.resolve_gateway_secret_names_for_use request s).1
  pub get_gateway_endpoint_keeps :
      (endpoint_id : String) (s : S) → Valid s → Valid (parts.get_gateway_endpoint endpoint_id s).1
  pub get_gateway_model_definition_keeps :
      (definition_id : String) (s : S)
      → Valid s
      → Valid (parts.get_gateway_model_definition definition_id s).1
  pub filter_keeps :
      (identity : RequestIdentity) (workspace : String) (policy : Option CollectionPolicy)
      (request : AuthorizationRequest) (s : S)
      → Valid s
      → Step Valid
          (λ found. IsSame request found.0)
          (parts.apply_request_collection_filter identity workspace policy request s)
  pub normalize_keeps :
      (policy : Option CollectionPolicy) (request : AuthorizationRequest)
      (found : AuthorizationRequest × Bool)
      → parts.normalize_collection_request request policy ≡ ok found
      → IsSame request found.0

pub record Promises {S : Type 0} (parts : Collaborators S) (authorizer : Authorizer S)
    : Type 1 where
  pub Valid : S → Type 0
  -- What stands behind the answer of `is_allowed`, and of `can_access_workspace`.
  pub Granted : RequestIdentity → Query → Type 0
  pub Open : RequestIdentity → String → String → Type 0
  pub is_allowed_grants :
      (identity : RequestIdentity) (q : Query) (s : S)
      → Valid s
      → Step Valid
          (λ allowed. allowed ≡ true → Granted identity q)
          (authorizer.is_allowed identity q s)
  pub can_access_workspace_opens :
      (identity : RequestIdentity) (workspace verb : String) (s : S)
      → Valid s
      → Step Valid
          (λ allowed. allowed ≡ true → Open identity workspace verb)
          (authorizer.can_access_workspace identity workspace verb s)
  pub parts_keep : PartsKeep Valid parts

pub Step-kept :
    {S A : Type 0} (Valid : S → Type 0) (r : Outcome A × S)
    → Valid r.1
    → Step Valid (λ a. Unit {0}) r
Step-kept Valid (ok a, s) v = (tt, v)
Step-kept Valid (raised e, s) v = v

module _ {S : Type 0} {parts : Collaborators S} {authorizer : Authorizer S}
    (promises : Promises parts authorizer) where
  module _ (identity : RequestIdentity) (query_of : String → Query) where
    abbrev pub NamesGranted : List String → Type 0
    NamesGranted names = All (λ name. promises.Granted identity (query_of name)) names

    all_allowed-grants :
        (names : List String) (s : S)
        → promises.Valid s
        → Step promises.Valid
            (λ allowed. allowed ≡ true → NamesGranted names)
            (all_allowed authorizer identity query_of names s)
    unfolding all_allowed
    all_allowed-grants [] s v = ((λ _. tt), v)
    all_allowed-grants (name ∷ names) s v =
        Step-continue promises.Valid
          (λ allowed. allowed ≡ true → promises.Granted identity (query_of name)) _ _
          (authorizer.is_allowed identity (query_of name) s)
          (promises.is_allowed_grants identity (query_of name) s v)
          (next (all_allowed-grants names))
      where
        next :
            ((t : S)
              → promises.Valid t
              → Step promises.Valid
                  (λ allowed. allowed ≡ true → NamesGranted names)
                  (all_allowed authorizer identity query_of names t))
            → (allowed : Bool) (t : S)
            → (allowed ≡ true → promises.Granted identity (query_of name))
            → promises.Valid t
            → Step promises.Valid
                (λ all. all ≡ true → NamesGranted (name ∷ names))
                ((if allowed then all_allowed authorizer identity query_of names else pure false) t)
        next rest true t g w =
            Step-weaken promises.Valid _ (λ all. all ≡ true → NamesGranted (name ∷ names))
              (all_allowed authorizer identity query_of names t) (λ b h e. (g refl, h e)) (rest t w)
        next rest false t g w = ((λ e. cc), w)

    -- Names that are allowed are there, and each is granted.
    pub names_allowed-grants :
        (names : List String) (s : S)
        → promises.Valid s
        → Step promises.Valid
            (λ allowed. allowed ≡ true → (has_names names ≡ true) × NamesGranted names)
            (names_allowed authorizer identity query_of names s)
    unfolding names_allowed
    names_allowed-grants [] s v = ((λ e. cc), v)
    names_allowed-grants (name ∷ names) s v =
        Step-weaken promises.Valid (λ allowed. allowed ≡ true → NamesGranted (name ∷ names))
          (λ allowed. allowed ≡ true → (true ≡ true) × NamesGranted (name ∷ names))
          (all_allowed authorizer identity query_of (name ∷ names) s) (λ b h e. (refl, h e))
          (all_allowed-grants (name ∷ names) s v)
