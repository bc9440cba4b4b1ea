-- ===== src/Auth/Authorize/Contract/Changes.antt =====
-- How a request changes on its way through the authorization.
use mlflow_integration.Shared.{
  String, Bool, Option, none, some, Outcome, ok, raised, ◌≡◌, refl, if_intro, not, ◌&&◌, subst,
  ok_injective, ◌∙◌,
}
use mlflow_integration.Shared.Json.{Json}
use mlflow_integration.Auth.Identity.{RequestIdentity}
use mlflow_integration.Auth.Rules.{AuthorizationRule, CollectionPolicy}
use mlflow_integration.Shared.Text.{upper}
use mlflow_integration.Auth.Credentials.{spells}
use mlflow_integration.Auth.Request
use mlflow_integration.Auth.Request.{AuthorizationRequest}
use mlflow_integration.Auth.Authorize.{Authorizer, Collaborators, with_loaded_body}
use mlflow_integration.Auth.Authorize.Contract.{Promises, Step, Step-lift, IsSame, IsSame-refl}

pub IsSame-trans : {r s t : AuthorizationRequest} → IsSame r s → IsSame s t → IsSame r t
IsSame-trans h k = record {
  path = k.path ∙ h.path;
  method = k.method ∙ h.method;
  headers = k.headers ∙ h.headers;
  path_params = k.path_params ∙ h.path_params;
}

load-IsSame :
    (parse_json : String → Option Json) (request : AuthorizationRequest)
    (body : Option (Outcome Json)) (later : AuthorizationRequest)
    → Request.load parse_json request body ≡ ok later
    → IsSame request later
load-IsSame parse_json request none later h =
    subst (IsSame request) (ok_injective h) (IsSame-refl request)
load-IsSame parse_json request (some (raised e)) later h = cc
load-IsSame parse_json request (some (ok v)) later h =
    subst (IsSame request) (ok_injective h)
      (record { path = refl; method = refl; headers = refl; path_params = refl })

-- Loading the body changes nothing else that the rules are about.
pub ensure_json_body-IsSame :
    (parse_json : String → Option Json) (allow_get_body : Bool)
    (request later : AuthorizationRequest)
    → Request.ensure_json_body parse_json allow_get_body request ≡ ok later
    → IsSame request later
unfolding Request.ensure_json_body
ensure_json_body-IsSame parse_json allow_get_body request later =
    if_intro (λ m. m ≡ ok later → IsSame request later) (not (Request.is_null request.json_body))
      (λ _. as_it_was)
      λ _.
        if_intro (λ m. m ≡ ok later → IsSame request later)
          (spells (upper request.method) "GET"
            && Request.has_params request.query_params
            && not allow_get_body)
          (λ _. as_it_was) λ _. load-IsSame parse_json request request.ensure_json_body later
  where
    as_it_was : ok request ≡ ok later → IsSame request later
    as_it_was h = subst (IsSame request) (ok_injective h) (IsSame-refl request)

-- What the authorization makes of a request, one step after another: its body is loaded, its workspace is set to the one
-- that a rule takes out of it, or a collection policy normalizes or filters it.
pub data Leads {S : Type 0} {parts : Collaborators S} {authorizer : Authorizer S}
    (promises : Promises parts authorizer) (request : AuthorizationRequest)
    : AuthorizationRequest → Type 0 where
  unchanged : Leads promises request request
  loads :
      {later last : AuthorizationRequest}
      → Leads promises request later
      → (allow_get_body : Bool)
      → Request.ensure_json_body parts.parse_json allow_get_body later ≡ ok last
      → Leads promises request last
  scopes :
      {later : AuthorizationRequest}
      → Leads promises request later
      → (rule : AuthorizationRule) (name : String)
      → Request.extract_workspace_scope_from_request later rule ≡ some name
      → Leads promises request (record later { workspace = some name })
  normalizes :
      {later : AuthorizationRequest}
      → Leads promises request later
      → (policy : Option CollectionPolicy) (found : AuthorizationRequest × Bool)
      → parts.normalize_collection_request later policy ≡ ok found
      → Leads promises request found.0
  filters :
      {later : AuthorizationRequest}
      → Leads promises request later
      → (identity : RequestIdentity) (workspace : String) (policy : Option CollectionPolicy)
        (found : AuthorizationRequest × Bool) (s t : S)
      → promises.Valid s
      → parts.apply_request_collection_filter identity workspace policy later s ≡ (ok found, t)
      → Leads promises request found.0

module _ {S : Type 0} {parts : Collaborators S} {authorizer : Authorizer S}
    (promises : Promises parts authorizer) where
  pub Leads-trans :
      {r s t : AuthorizationRequest} → Leads promises r s → Leads promises s t → Leads promises r t
  Leads-trans h unchanged = h
  Leads-trans h (loads k allow_get_body e) = loads (Leads-trans h k) allow_get_body e
  Leads-trans h (scopes k rule name e) = scopes (Leads-trans h k) rule name e
  Leads-trans h (normalizes k policy found e) = normalizes (Leads-trans h k) policy found e
  Leads-trans h (filters k identity workspace policy found s t v e) =
      filters (Leads-trans h k) identity workspace policy found s t v e

  pub Leads-IsSame :
      {request later : AuthorizationRequest} → Leads promises request later → IsSame request later
  Leads-IsSame {request} unchanged = IsSame-refl request
  Leads-IsSame (loads h allow_get_body e) =
      IsSame-trans (Leads-IsSame h) (ensure_json_body-IsSame parts.parse_json allow_get_body _ _ e)
  Leads-IsSame (scopes h rule name e) =
      let same = Leads-IsSame h in
      record {
        path = same.path;
        method = same.method;
        headers = same.headers;
        path_params = same.path_params;
      }
  Leads-IsSame (normalizes h policy found e) =
      IsSame-trans (Leads-IsSame h) (promises.parts_keep.normalize_keeps policy _ found e)
  Leads-IsSame (filters {later} h identity workspace policy found s t v e) =
      let kept : Step promises.Valid (λ f. IsSame later f.0) (ok found, t) =
        subst (Step promises.Valid (λ f. IsSame later f.0)) e
          (promises.parts_keep.filter_keeps identity workspace policy later s v) in
      IsSame-trans (Leads-IsSame h) kept.0

  pub with_loaded_body-Leads :
      (allow_get_body : Bool) (request : AuthorizationRequest) (s : S)
      → promises.Valid s
      → Step promises.Valid
          (Leads promises request)
          (with_loaded_body parts allow_get_body request s)
  with_loaded_body-Leads allow_get_body request s v =
      Step-lift promises.Valid (Leads promises request)
        (Request.ensure_json_body parts.parse_json allow_get_body request) s
        (λ later e. loads unchanged allow_get_body e) v
