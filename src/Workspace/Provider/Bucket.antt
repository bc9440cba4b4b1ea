-- ===== src/Workspace/Provider/Bucket.antt =====
-- What becomes of a bucket and the artifact path of a configuration.
use mlflow_integration.Shared.{
  String, Bool, true, false, not, Option, none, some, string_eq, Outcome, ok, raised, ◌≡◌, refl,
  if_intro, Ensures, ◌⊎◌, inl, inr,
}
use Prim.Native.String.{[], ◌∷◌}
use mlflow_integration.Shared.Action.{Action, Returns, continue-Returns}
use mlflow_integration.Shared.Text.{nonempty, strip}
use mlflow_integration.Workspace.Paths.{validate_artifact_path}
use mlflow_integration.Workspace.Paths.Safety.{IsBelow, validate_artifact_path-IsBelow}
use mlflow_integration.Workspace.Provider.{Provider, below, root_at, artifact_root}

module _ (decode : String → Option String) (append_to_uri_path : String → String → String) where
  -- What a checked path makes of a bucket: nothing if none is left of it.
  abbrev pub IsPlaced : String → Option String → String → Type 0
  IsPlaced bucket none root = root ≡ bucket
  IsPlaced bucket (some valid) root = root ≡ append_to_uri_path bucket valid

  -- What the path of a configuration makes of a bucket: nothing if it is absent or blank, and else what
  -- `append_to_uri_path` makes of the bucket and of the path that the check returned, which has no
  -- segment "", "." or "..".
  abbrev pub IsAt : String → Option String → String → Type 0
  IsAt bucket none root = root ≡ bucket
  IsAt bucket (some path) root =
      ((nonempty (strip path) ≡ false) × (root ≡ bucket))
      ⊎ ((valid : Option String) × (validate_artifact_path (strip path) ≡ ok valid)
          × IsBelow valid
          × IsPlaced bucket valid root)

  module _ (path : Option String) (bucket : String) where
    -- The two parts of a location in an overridden workspace: what the path makes of the bucket.
    abbrev pub IsOverride : Option String × Bool → Provider → Type 0
    IsOverride r p =
        (r.1 ≡ false) × ((place : String) × IsAt bucket path place × (r.0 ≡ some place))

  root_at-IsOverride :
      (path bucket : String) (p : Provider)
      → Returns
          (IsOverride (some path) bucket)
          (root_at decode append_to_uri_path bucket (strip path) p)
  unfolding root_at below
  root_at-IsOverride path bucket p =
      if_intro
        (λ (m : Action Provider (Option String × Bool)).
          Returns (IsOverride (some path) bucket) (m p))
        (not (nonempty (strip path)))
        (λ e. (refl, (bucket, inl (not-true (nonempty (strip path)) e, refl), refl)))
        (λ _.
          continue-Returns
            (λ valid _. (validate_artifact_path (strip path) ≡ ok valid) × IsBelow valid)
            (IsOverride (some path) bucket) _ (validate_artifact_path (strip path), p)
            (checked (validate_artifact_path (strip path)) refl
              (validate_artifact_path-IsBelow (strip path)))
            (λ valid q safe. (
              refl,
              (
                below decode append_to_uri_path bucket valid,
                inr (valid, safe.0, safe.1, below-IsPlaced valid),
                refl,
              ),
            )))
    where
      below-IsPlaced :
          (valid : Option String)
          → IsPlaced bucket valid (below decode append_to_uri_path bucket valid)
      below-IsPlaced none = refl
      below-IsPlaced (some valid) = refl

      not-true : (b : Bool) → not b ≡ true → b ≡ false
      not-true true e = cc
      not-true false e = refl

      checked :
          (m : Outcome (Option String))
          → validate_artifact_path (strip path) ≡ m
          → Ensures IsBelow m
          → Returns
              (λ valid _. (validate_artifact_path (strip path) ≡ ok valid) × IsBelow valid)
              (m, p)
      checked (ok valid) e h = (e, h)
      checked (raised failure) e h = tt

  blank : (path : String) → nonempty path ≡ false → nonempty (strip path) ≡ false
  unfolding nonempty strip
  blank [] e = refl
  blank (c ∷ path) e = cc

  pub artifact_root-IsOverride :
      (path : Option String) (bucket : String) (p : Provider)
      → Returns (IsOverride path bucket) (artifact_root decode append_to_uri_path bucket path p)
  unfolding artifact_root
  artifact_root-IsOverride none bucket p = (refl, (bucket, refl, refl))
  artifact_root-IsOverride (some path) bucket p =
      if_intro
        (λ (m : Action Provider (Option String × Bool)).
          Returns (IsOverride (some path) bucket) (m p))
        (nonempty path) (λ _. root_at-IsOverride path bucket p)
        (λ e. (refl, (bucket, inl (blank path e, refl), refl)))
