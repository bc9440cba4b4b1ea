-- ===== src/Auth/Identity.antt =====
-- auth/core.py, `_RequestIdentity`, and the modes of auth/authorizer.py. `sha256` stands for the
-- hexadecimal digest of a text's UTF-8 encoding.
use mlflow_integration.Shared.{
  String, Bool, true, false, not, Option, none, some, List, [], ◌∷◌, if◌then◌else◌, ltb, nat_eqb,
  Outcome, ok, raised, mlflow, unauthenticated,
}
use mlflow_integration.Shared.Text.{nonempty, strip, join}
use Prim.Native.Char.{code}
use Prim.Native.String.{[], ◌∷◌}

pub data AuthorizationMode : Type 0 where
  self_subject_access_review subject_access_review : AuthorizationMode

pub record RequestIdentity : Type 0 where
  pub token : Option String
  pub user : Option String
  pub groups : List String

-- `value or ""`
abbrev pub or_blank : Option String → String
or_blank none = ""
or_blank (some s) = s

-- s < t
unfoldable pub is_before : String → String → Bool
is_before s [] = false
is_before [] (d ∷ t) = true
is_before (c ∷ s) (d ∷ t) =
    let rest = is_before s t in if nat_eqb (code c) (code d) then rest else ltb (code c) (code d)

unfoldable pub insert : String → List String → List String
unfolding is_before
insert s [] = s ∷ []
insert s (t ∷ texts) =
    let rest = insert s texts in if is_before t s then t ∷ rest else s ∷ t ∷ texts

-- sorted(texts)
unfoldable pub sorted : List String → List String
unfolding insert
sorted [] = []
sorted (s ∷ texts) = insert s (sorted texts)

-- What `subject_hash` hashes of a forwarded user.
unfoldable pub serialize : String → List String → String
unfolding sorted join
serialize user groups = join "\0" (user ∷ join "\0" (sorted groups) ∷ [])

module _ (sha256 : String → String) where
  -- `subject_hash`
  unfoldable pub subject_hash : AuthorizationMode → RequestIdentity → Outcome String
  unfolding nonempty strip serialize
  subject_hash self_subject_access_review identity =
      if not (nonempty (or_blank identity.token))
      then raised (mlflow unauthenticated)
      else ok (sha256 (or_blank identity.token))
  subject_hash subject_access_review identity =
      let user = strip (or_blank identity.user) in
      if not (nonempty user)
      then raised (mlflow unauthenticated)
      else ok (sha256 (serialize user identity.groups))
