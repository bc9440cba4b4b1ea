-- ===== src/Auth/Authorize/Kubernetes.antt =====
-- `KubernetesAuthorizer` as the authorizer of a request: the cache of reviews, and a count of the calls. `times` gives
-- the two times that a call reads the clock at; a call of `can_access_workspace` reads it for each resource.
use mlflow_integration.Shared.{
  String, Bool, true, false, Option, ℕ, suc, Outcome, ok, raised, Some, ◌≡◌, subst,
}
use mlflow_integration.Shared.Action.{Action}
use mlflow_integration.Auth.Identity.{RequestIdentity}
use mlflow_integration.Auth.Access
use mlflow_integration.Auth.Access.{Query, Subject, Attributes, Reviews}
use mlflow_integration.Auth.Access.Soundness.{IsSound, IsAnswered, After, is_allowed-IsAnswered}
use mlflow_integration.Auth.Access.Workspaces.{IsDecided, IsAccess, can_access_workspace-IsDecided}
use mlflow_integration.Auth.Authorize.{Authorizer, Collaborators}
use mlflow_integration.Auth.Authorize.Contract.{Promises, PartsKeep, Step, Step-weaken}

-- The cache, and how many calls there were.
abbrev pub Caches : Type 0
Caches = Reviews × ℕ

abbrev pub counted : {A : Type 0} → ℕ → Outcome A × Reviews → Outcome A × Caches
counted n (outcome, reviews) = (outcome, (reviews, suc n))

module _ (sha256 : String → String) (review : Subject → Attributes → Outcome (Option Bool))
    (settings : Access.Settings) (times : ℕ → String → ℕ × ℕ) where
  pub allowed : RequestIdentity → Query → Action Caches Bool
  unfolding Access.is_allowed
  allowed identity query (reviews, n) = counted n (
      Access.is_allowed sha256 review settings identity query (times n query.resource_type).0
        (times n query.resource_type).1 reviews)

  pub open_to : RequestIdentity → String → String → Action Caches Bool
  unfolding Access.can_access_workspace
  open_to identity workspace verb (reviews, n) =
      counted n (
        Access.can_access_workspace sha256 review settings identity workspace verb (times n)
          reviews)

  unfoldable pub kubernetes_authorizer : Authorizer Caches
  unfolding allowed open_to
  kubernetes_authorizer = record { is_allowed = allowed; can_access_workspace = open_to }

  abbrev pub IsSoundCache : Caches → Type 0
  IsSoundCache caches = IsSound sha256 review settings caches.0

  -- Kubernetes allowed a review of one of the resources in the workspace.
  abbrev pub IsOpen : RequestIdentity → String → String → Type 0
  IsOpen identity workspace verb =
      Some (IsAccess sha256 review settings identity workspace verb (λ resource. (0, 0)) true)
        Access.workspace_permission_resources

  counted-Step :
      (n : ℕ) (P : Bool → Type 0) (r : Outcome Bool × Reviews)
      → After sha256 review settings P r
      → Step IsSoundCache P (counted n r)
  counted-Step n P (ok allowed, reviews) h = h
  counted-Step n P (raised e, reviews) h = h

  pub allowed-Step :
      (identity : RequestIdentity) (query : Query) (caches : Caches)
      → IsSoundCache caches
      → Step IsSoundCache
          (λ b. b ≡ true → IsAnswered sha256 review settings identity query true)
          (allowed identity query caches)
  unfolding allowed
  allowed-Step identity query (reviews, n) v =
      Step-weaken IsSoundCache (IsAnswered sha256 review settings identity query)
        (λ b. b ≡ true → IsAnswered sha256 review settings identity query true)
        (counted n (
          Access.is_allowed sha256 review settings identity query (times n query.resource_type).0
            (times n query.resource_type).1 reviews))
        (λ b w e. subst (IsAnswered sha256 review settings identity query) e w)
        (counted-Step n (IsAnswered sha256 review settings identity query)
          (Access.is_allowed sha256 review settings identity query (times n query.resource_type).0
            (times n query.resource_type).1 reviews)
          (is_allowed-IsAnswered sha256 review settings identity query
            (times n query.resource_type).0 (times n query.resource_type).1 reviews v))

  pub open_to-Step :
      (identity : RequestIdentity) (workspace verb : String) (caches : Caches)
      → IsSoundCache caches
      → Step IsSoundCache
          (λ b. b ≡ true → IsOpen identity workspace verb)
          (open_to identity workspace verb caches)
  unfolding open_to
  open_to-Step identity workspace verb (reviews, n) v =
      Step-weaken IsSoundCache
        (IsDecided sha256 review settings identity workspace verb (times n)
          Access.workspace_permission_resources)
        (λ b. b ≡ true → IsOpen identity workspace verb)
        (counted n (
          Access.can_access_workspace sha256 review settings identity workspace verb (times n)
            reviews))
        decided
        (counted-Step n
          (IsDecided sha256 review settings identity workspace verb (times n)
            Access.workspace_permission_resources)
          (Access.can_access_workspace sha256 review settings identity workspace verb (times n)
            reviews)
          (can_access_workspace-IsDecided sha256 review settings identity workspace verb (times n)
            reviews v))
    where
      decided :
          (b : Bool)
          → IsDecided sha256 review settings identity workspace verb
              (times n)
              Access.workspace_permission_resources
              b
          → b ≡ true
          → IsOpen identity workspace verb
      decided true w e = w
      decided false w e = cc

  -- The authorizer keeps what it promises: with it, a grant is an answer that Kubernetes gave, and an open workspace is
  -- one in which it allowed a resource.
  unfoldable pub kubernetes_promises :
      (parts : Collaborators Caches)
      → PartsKeep IsSoundCache parts
      → Promises parts kubernetes_authorizer
  unfolding kubernetes_authorizer
  kubernetes_promises parts keep = record {
    Valid = IsSoundCache;
    Granted = λ identity query. IsAnswered sha256 review settings identity query true;
    Open = IsOpen;
    is_allowed_grants = allowed-Step;
    can_access_workspace_opens = open_to-Step;
    parts_keep = keep;
  }
