-- ===== src/Auth/Access.antt =====
-- auth/authorizer.py, `KubernetesAuthorizer`: access reviews behind a cache. What Kubernetes answers
-- to a review is a parameter: `status.allowed`, or an exception.
pub mod Soundness
pub mod Workspaces
use mlflow_integration.Shared.{
  String, Bool, true, false, ◌&&◌, not, Option, none, some, List, [], ◌∷◌, ℕ, if◌then◌else◌,
  nat_eqb, string_eq, option_eq, Eq, ◌==◌, Outcome, ok, raised, api, mlflow, internal_error,
  unauthenticated, permission_denied, Failure, ◌≡◌, ◌↔◌, arith, eq_iff, equal_option_iff,
}
use mlflow_integration.Shared.Action.{Action, ◌>>=◌, ◌>>◌, pure, lift}
use mlflow_integration.Auth.Expiring.{Stored, Probe, absent, live, expired, probe, discard, set}
use mlflow_integration.Auth.Identity.{
  AuthorizationMode, self_subject_access_review, subject_access_review, RequestIdentity,
  subject_hash, or_blank,
}
use Prim.Native.Char.{code}
use Prim.Native.String
use Prim.Native.String.{[], ◌∷◌}

-- `_AuthorizationCacheKey`
pub record AccessKey : Type 0 where
  pub identity_hash : String
  pub namespace : String
  pub resource : String
  pub subresource : Option String
  pub verb : String
  pub resource_name : Option String

abbrev pub same_key : AccessKey → AccessKey → Bool
same_key j k =
    j.identity_hash == k.identity_hash
    && j.namespace == k.namespace
    && j.resource == k.resource
    && j.subresource == k.subresource
    && j.verb == k.verb
    && j.resource_name == k.resource_name

pub same_key_iff : (j k : AccessKey) → (same_key j k ≡ true) ↔ (j ≡ k)
same_key_iff j k = ground (
  arith,
  eq_iff j.identity_hash k.identity_hash,
  eq_iff j.namespace k.namespace,
  eq_iff j.resource k.resource,
  equal_option_iff j.subresource k.subresource,
  eq_iff j.verb k.verb,
  equal_option_iff j.resource_name k.resource_name,
)

instance abbrev pub access_key_eq : Eq AccessKey
access_key_eq = record { equal = same_key; equal_iff = same_key_iff }

-- resource_type.replace("_", "")
unfoldable pub without_underscores : String → String
without_underscores [] = ""
without_underscores (c ∷ s) =
    let rest = without_underscores s in if nat_eqb (code c) b'_' then rest else c ∷ rest

-- `_effective_resource_name_for_access_review`
unfoldable pub effective_name : String → Option String → Option String → Option String
effective_name verb subresource none = none
effective_name verb subresource (some name) =
    if verb == "watch"
    then none
    else if verb == "create" && subresource == none
    then none
    else some name

-- The settings of a `KubernetesAuthorizer` that a review reads.
pub record Settings : Type 0 where
  pub mode : AuthorizationMode
  pub ttl : ℕ
  pub group : String

-- The arguments of `is_allowed`, without the identity.
pub record Query : Type 0 where
  pub resource_type : String
  pub verb : String
  pub namespace : String
  pub subresource : Option String
  pub resource_name : Option String

-- `V1ResourceAttributes`
pub record Attributes : Type 0 where
  pub group : String
  pub resource : String
  pub verb : String
  pub namespace : String
  pub subresource : Option String
  pub name : Option String

-- Whom a review is about: the bearer of a token, or a user with groups.
pub data Subject : Type 0 where
  of_token : String → Subject
  of_user : String → List String → Subject

abbrev pub subject_of : AuthorizationMode → RequestIdentity → Subject
subject_of self_subject_access_review identity = of_token (or_blank identity.token)
subject_of subject_access_review identity = of_user (or_blank identity.user) identity.groups

unfoldable pub key_of : Query → String → AccessKey
unfolding without_underscores effective_name
key_of query identity_hash = record {
  identity_hash = identity_hash;
  namespace = query.namespace;
  resource = without_underscores query.resource_type;
  subresource = query.subresource;
  verb = query.verb;
  resource_name = effective_name query.verb query.subresource query.resource_name;
}

abbrev pub attributes_of : String → AccessKey → Attributes
attributes_of group key = record {
  group = group;
  resource = key.resource;
  verb = key.verb;
  namespace = key.namespace;
  subresource = key.subresource;
  name = key.resource_name;
}

-- The arguments of `is_allowed` in `can_access_workspace`.
abbrev pub workspace_query : String → String → String → Query
workspace_query workspace verb resource = record {
  resource_type = resource;
  verb = verb;
  namespace = workspace;
  subresource = none;
  resource_name = none;
}

-- `WORKSPACE_PERMISSION_RESOURCE_PRIORITY` of auth/constants.py
abbrev pub workspace_permission_resources : List String
workspace_permission_resources =
    "experiments" ∷ "datasets" ∷ "mcpservers" ∷ "registeredmodels" ∷ "gatewaysecrets"
    ∷ "gatewayendpoints" ∷ "gatewaymodeldefinitions" ∷ "gatewaybudgets" ∷ "gatewayguardrails"
    ∷ "skills" ∷ []

required : Outcome (Option Bool) → Outcome Bool
required (ok (some allowed)) = ok allowed
required (ok none) = raised (mlflow internal_error)
required (raised failure) = raised failure

-- The `except` clause of `is_allowed`.
unfoldable pub review_failed : Failure → Failure
review_failed (api status) = mlflow (
    if nat_eqb status 401
    then unauthenticated
    else if nat_eqb status 403
    then permission_denied
    else internal_error)
review_failed failure = failure

translate : Outcome Bool → Outcome Bool
unfolding review_failed
translate (ok allowed) = ok allowed
translate (raised failure) = raised (review_failed failure)

abbrev pub Reviews : Type 0
Reviews = Stored AccessKey Bool

-- `max_entries` of `_ExpiringCache.__init__`
abbrev pub max_entries : ℕ
max_entries = 10000

abbrev pub returning : Bool → Outcome (Unit {0}) → Outcome Bool
returning allowed (ok _) = ok allowed
returning allowed (raised failure) = raised failure

-- `self._cache.set(cache_key, allowed)`, and the end of `is_allowed`
pub remember : Settings → AccessKey → ℕ → Bool → Action Reviews Bool
remember settings key later allowed reviews =
    let (done, stored) = set settings.ttl max_entries key allowed later reviews in
    (returning allowed done, stored)

module _ (sha256 : String → String) (review : Subject → Attributes → Outcome (Option Bool)) where
  -- `_submit_self_subject_access_review`, `_submit_subject_access_review`
  unfoldable pub submit : Settings → RequestIdentity → AccessKey → Outcome Bool
  unfolding required
  submit settings identity key =
      required (review (subject_of settings.mode identity) (attributes_of settings.group key))

  -- `is_allowed`, where the cache has no answer.
  pub ask : Settings → RequestIdentity → AccessKey → ℕ → Action Reviews Bool
  unfolding translate submit remember
  ask settings identity key later =
      lift (translate (submit settings identity key)) >>= remember settings key later

  pub cached_or_asked :
      Settings → RequestIdentity → AccessKey → ℕ → Probe Bool → Action Reviews Bool
  unfolding ask
  cached_or_asked settings identity key later (live allowed) reviews = (ok allowed, reviews)
  cached_or_asked settings identity key later absent reviews =
      ask settings identity key later reviews
  cached_or_asked settings identity key later (expired observed) reviews =
      ask settings identity key later (discard key observed reviews)

  pub allowed_under : Settings → RequestIdentity → AccessKey → ℕ → ℕ → Action Reviews Bool
  unfolding cached_or_asked
  allowed_under settings identity key now later reviews =
      cached_or_asked settings identity key later (probe key now reviews) reviews

  -- `is_allowed`. It reads the clock when it looks into the cache and when it writes to it.
  unfoldable pub is_allowed : Settings → RequestIdentity → Query → ℕ → ℕ → Action Reviews Bool
  unfolding allowed_under key_of
  is_allowed settings identity query now later =
      lift (subject_hash sha256 settings.mode identity) >>= λ hash.
      allowed_under settings identity (key_of query hash) now later

  -- The loop of `can_access_workspace`. `clock` gives the two times that the call for a resource
  -- reads.
  unfoldable pub any_allowed :
      Settings
      → RequestIdentity
      → String
      → String
      → (String → ℕ × ℕ)
      → List String
      → Action Reviews Bool
  any_allowed settings identity verb workspace clock [] reviews = (ok false, reviews)
  any_allowed settings identity verb workspace clock (resource ∷ resources) reviews =
      (is_allowed settings identity (workspace_query workspace verb resource) (clock resource).0
            (clock resource).1
          >>= λ allowed.
              if allowed
              then pure true
              else any_allowed settings identity verb workspace clock resources)
        reviews

  -- `can_access_workspace`
  unfoldable pub can_access_workspace :
      Settings → RequestIdentity → String → String → (String → ℕ × ℕ) → Action Reviews Bool
  unfolding any_allowed
  can_access_workspace settings identity workspace verb clock =
      lift (subject_hash sha256 settings.mode identity) >>= λ hash.
      any_allowed settings identity verb workspace clock workspace_permission_resources
