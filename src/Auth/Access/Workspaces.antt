-- ===== src/Auth/Access/Workspaces.antt =====
-- `can_access_workspace` and the resources that it asks about.
use mlflow_integration.Shared.{
  String, Bool, true, false, Option, List, [], ◌∷◌, ℕ, if◌then◌else◌, Outcome, ok, raised, All,
  Some, inl, inr,
}
use mlflow_integration.Shared.Action.{pure, continue}
use mlflow_integration.Auth.Identity.{RequestIdentity, subject_hash}
use mlflow_integration.Auth.Access.{
  Settings, Attributes, Subject, Reviews, is_allowed, any_allowed, workspace_query,
  can_access_workspace, workspace_permission_resources,
}
use mlflow_integration.Auth.Access.Soundness.{IsAnswered, IsSound, After, is_allowed-IsAnswered}

module _ (sha256 : String → String) (review : Subject → Attributes → Outcome (Option Bool))
    (settings : Settings) (identity : RequestIdentity) (workspace verb : String)
    (clock : String → ℕ × ℕ) where
  -- Kubernetes gave this answer about a resource in the workspace.
  abbrev pub IsAccess : Bool → String → Type 0
  IsAccess allowed resource =
      IsAnswered sha256 review settings identity (workspace_query workspace verb resource) allowed

  -- An answer over a list of resources: one review allowed it, or every one denied it.
  abbrev pub IsDecided : List String → Bool → Type 0
  IsDecided resources true = Some (IsAccess true) resources
  IsDecided resources false = All (IsAccess false) resources

  any_allowed-IsDecided :
      (resources : List String) (reviews : Reviews)
      → IsSound sha256 review settings reviews
      → After sha256 review settings
          (IsDecided resources)
          (any_allowed sha256 review settings identity verb workspace clock resources reviews)
  unfolding any_allowed
  any_allowed-IsDecided [] reviews v = (tt, v)
  any_allowed-IsDecided (resource ∷ resources) reviews v =
      by_first
        (is_allowed sha256 review settings identity (workspace_query workspace verb resource)
          (clock resource).0 (clock resource).1 reviews)
        (is_allowed-IsAnswered sha256 review settings identity
          (workspace_query workspace verb resource) (clock resource).0 (clock resource).1 reviews v)
        (any_allowed-IsDecided resources)
    where
      extended :
          (r : Outcome Bool × Reviews)
          → IsAccess false resource
          → After sha256 review settings (IsDecided resources) r
          → After sha256 review settings (IsDecided (resource ∷ resources)) r
      extended (ok true, kept) denied (w, s) = (inr w, s)
      extended (ok false, kept) denied (w, s) = ((denied, w), s)
      extended (raised f, kept) denied s = s

      by_first :
          (r : Outcome Bool × Reviews)
          → After sha256 review settings (λ allowed. IsAccess allowed resource) r
          → ((kept : Reviews)
              → IsSound sha256 review settings kept
              → After sha256 review settings
                  (IsDecided resources)
                  (any_allowed sha256 review settings identity verb workspace clock resources kept))
          → After sha256 review settings (IsDecided (resource ∷ resources)) (
              continue
                (λ allowed.
                  if allowed
                  then pure true
                  else any_allowed sha256 review settings identity verb workspace clock resources)
                r)
      by_first (ok true, kept) (w, s) rest = (inl w, s)
      by_first (ok false, kept) (w, s) rest = extended _ w (rest kept s)
      by_first (raised f, kept) s rest = s

  -- `can_access_workspace` answers `True` only if Kubernetes allowed one of the listed resources, and
  -- `False` only if it denied every one of them, if every cached answer is one that Kubernetes gave.
  -- No exception counts as either.
  pub can_access_workspace-IsDecided :
      (reviews : Reviews)
      → IsSound sha256 review settings reviews
      → After sha256 review settings
          (IsDecided workspace_permission_resources)
          (can_access_workspace sha256 review settings identity workspace verb clock reviews)
  unfolding can_access_workspace
  can_access_workspace-IsDecided reviews v = by_hash (subject_hash sha256 settings.mode identity)
    where
      by_hash :
          (h : Outcome String)
          → After sha256 review settings (IsDecided workspace_permission_resources) (
              continue
                (λ hash.
                  any_allowed sha256 review settings identity verb workspace clock
                    workspace_permission_resources)
                (h, reviews))
      by_hash (ok hash) = any_allowed-IsDecided workspace_permission_resources reviews v
      by_hash (raised f) = v
