-- ===== src/Workspace/Paths/Safety.antt =====
-- The artifact paths that `_validate_artifact_path` accepts.
use mlflow_integration.Shared.{
  String, Bool, true, false, ◌&&◌, ◌||◌, not, Option, none, some, List, [], ◌∷◌, string_eq, ◌==◌,
  ◌≡◌, ◌≢◌, refl, arith, eq_iff, All, if_intro, Bool-cases, inl, inr, ◌⊎◌, subst, Ensures, sym, ◌∙◌,
}
use mlflow_integration.Shared.Text.{starts_with, has_infix, split, join}
use mlflow_integration.Shared.Splitting.{Lacks, split-Lacks, split-join, split-nil, starts_with-nil}
use mlflow_integration.Workspace.Paths.{
  push_comps, initial_slashes, or_dot, normpath, validate_artifact_path,
}
use mlflow_integration.Workspace.Paths.Stack.{
  IsPlain, IsNormal, reverse-IsNormal, push_comps-IsStack,
}
use mathlib.Core.List.{reverse}
use text.Mathlib.TextLemmas.{nil-append, cons-append, cons≢nil}
use mathlib.Core.Bool.{false≢true}
use Prim.Native.String

or_dot_same : (s : String) → s ≢ "" → or_dot s ≡ s
or_dot_same s h = ground (arith, eq_iff s "")

slash-starts : (s t : String) → starts_with (String.◌++◌ (String.◌∷◌ "/" s) t) "/" ≡ true
slash-starts s t = rw cons-append (unfold starts_with in starts_with-nil (String.◌++◌ s t))

slash-nonempty : (s t : String) → String.◌++◌ (String.◌∷◌ "/" s) t ≢ ""
slash-nonempty s t h = cons≢nil (rw cons-append at h)

slash_path : (s t : String) → starts_with (or_dot (String.◌++◌ (String.◌∷◌ "/" s) t)) "/" ≡ true
slash_path s t =
    rw (or_dot_same (String.◌++◌ (String.◌∷◌ "/" s) t) (slash-nonempty s t)) (slash-starts s t)

-- An absolute path stays absolute.
absolute-starts :
    (path t : String)
    → starts_with path "/" ≡ true
    → starts_with (or_dot (String.◌++◌ (initial_slashes path) t)) "/" ≡ true
unfolding initial_slashes
absolute-starts path t h =
    if_intro (λ s. starts_with (or_dot (String.◌++◌ s t)) "/" ≡ true)
      (starts_with path "//" && not (starts_with path "///")) (λ _. slash_path "/" t)
      (λ _.
        if_intro (λ s. starts_with (or_dot (String.◌++◌ s t)) "/" ≡ true) (starts_with path "/")
          (λ _. slash_path "" t) (λ no. cc))

-- The text that `normpath` gives to a relative path.
abbrev joined : List String → String
joined comps = or_dot (String.◌++◌ "" (join "/" comps))

climbs : String → Bool
climbs n = n == ".." || starts_with n "../" || has_infix n "/../"

dots-append :
    (s : String)
    → String.◌++◌ ".." (String.◌∷◌ "/" s) ≡ String.◌∷◌ "." (String.◌∷◌ "." (String.◌∷◌ "/" s))
dots-append s = rw (cons-append, cons-append, nil-append)

dots-starts :
    (s : String) → starts_with (String.◌∷◌ "." (String.◌∷◌ "." (String.◌∷◌ "/" s))) "../" ≡ true
unfolding starts_with
dots-starts s = starts_with-nil s

up-joined :
    (seg : String) (rest : List String)
    → joined (".." ∷ seg ∷ rest)
      ≡ String.◌∷◌ "." (String.◌∷◌ "." (String.◌∷◌ "/" (join "/" (seg ∷ rest))))
unfolding join
up-joined seg rest = rw (nil-append, dots-append) (or_dot_same _ cons≢nil)

up-climbs : (rest : List String) → climbs (joined (".." ∷ rest)) ≡ true
unfolding climbs
up-climbs [] = unfold join in refl
up-climbs (seg ∷ rest) = rw up-joined (ground (arith, dots-starts (join "/" (seg ∷ rest))))

split-joined :
    (p : String) (ps : List String)
    → All (Lacks b'/') (p ∷ ps)
    → p ≢ ""
    → split b'/' (joined (p ∷ ps)) ≡ p ∷ ps
split-joined p ps l n = rw (nil-append, or_dot_same (join "/" (p ∷ ps)) full) back
  where
    back : split b'/' (join "/" (p ∷ ps)) ≡ p ∷ ps
    back = split-join b'/' "/" p ps refl l

    full : join "/" (p ∷ ps) ≢ ""
    full empty = n (head_of (rw empty at back))
      where
        head_of : split b'/' "" ≡ p ∷ ps → p ≡ ""
        head_of e = cc (split-nil b'/')

joined-nil : (joined [] == ".") ≡ true
unfolding join
joined-nil = refl

-- The segments of a joined path that passed the three tests.
joined-IsPlain :
    (comps : List String)
    → IsNormal comps
    → climbs (joined comps) ≡ false
    → (joined comps == ".") ≡ false
    → All IsPlain (split b'/' (joined comps))
joined-IsPlain comps h c d = by_shape comps h.lacks h.plain c d
  where
    by_shape :
        (cs : List String)
        → All (Lacks b'/') cs
        → (cs ≡ []) ⊎ (All IsPlain cs) ⊎ ((rest : List String) × (cs ≡ ".." ∷ rest))
        → climbs (joined cs) ≡ false
        → (joined cs == ".") ≡ false
        → All IsPlain (split b'/' (joined cs))
    by_shape [] l s c d = cc joined-nil
    by_shape (p ∷ ps) l (inl e) c d = cc
    by_shape (p ∷ ps) l (inr (inl plain)) c d = rw (split-joined p ps l plain.0.0) plain
    by_shape (p ∷ ps) l (inr (inr (rest, e))) c d =
        absurd (false≢true (sym c ∙ rw e (up-climbs rest)))

two_slashes : (path : String) → starts_with path "/" ≡ false → starts_with path "//" ≡ false
unfolding starts_with
two_slashes String.[] h = refl
two_slashes (String.◌∷◌ d s) h = ground (arith, starts_with-nil s)

relative_prefix : (path : String) → starts_with path "/" ≡ false → initial_slashes path ≡ ""
unfolding initial_slashes
relative_prefix path h = rw (two_slashes path h, h)

-- The segments that `normpath` keeps of a relative path.
abbrev kept_segments : String → List String
kept_segments path = reverse (push_comps false [] (split b'/' path))

normpath-relative :
    (path : String)
    → (path == "") ≡ false
    → starts_with path "/" ≡ false
    → normpath path ≡ joined (kept_segments path)
unfolding normpath
normpath-relative path e h = rw (e, relative_prefix path h, h)

normpath-absolute :
    (path : String)
    → (path == "") ≡ false
    → starts_with path "/" ≡ true
    → starts_with (normpath path) "/" ≡ true
unfolding normpath
normpath-absolute path e h = rw e (absolute-starts path _ h)

normpath-IsPlain :
    (path : String)
    → starts_with (normpath path) "/" ≡ false
    → climbs (normpath path) ≡ false
    → (normpath path == ".") ≡ false
    → All IsPlain (split b'/' (normpath path))
normpath-IsPlain path a c d = elim (Bool-cases (path == "")) [
  | inl empty ↦ absurd (false≢true (sym d ∙ normpath-empty empty))
  | inr full ↦ elim (Bool-cases (starts_with path "/")) [
    | inl absolute ↦ absurd (false≢true (sym a ∙ normpath-absolute path full absolute))
    | inr relative ↦
        let e = normpath-relative path full relative in
        subst (λ n. All IsPlain (split b'/' n)) (sym e)
          (joined-IsPlain (kept_segments path)
            (reverse-IsNormal _
              (push_comps-IsStack [] (split b'/' path) (split-Lacks b'/' path) tt))
            (rw e at c) (rw e at d))
  ]
]
  where
    normpath-empty : (path == "") ≡ true → (normpath path == ".") ≡ true
    normpath-empty h = unfold normpath in rw h

-- What an accepted path is made of.
abbrev pub IsBelow : Option String → Type 0
IsBelow none = Unit
IsBelow (some path) = All IsPlain (split b'/' path)

-- A path that `_validate_artifact_path` returns has no segment "", "." or "..": it is relative and
-- names something below the directory that it is appended to. This holds whatever the configured
-- path was.
pub validate_artifact_path-IsBelow : (path : String) → Ensures IsBelow (validate_artifact_path path)
unfolding validate_artifact_path climbs
validate_artifact_path-IsBelow path =
    if_intro (Ensures IsBelow) (has_infix path "\\") (λ _. tt)
      (λ _.
        if_intro (Ensures IsBelow) (starts_with (normpath path) "/") (λ _. tt)
          (λ a.
            if_intro (Ensures IsBelow) (climbs (normpath path)) (λ _. tt)
              (λ c.
                if_intro (Ensures IsBelow) (normpath path == ".") (λ _. tt)
                  (λ d. normpath-IsPlain path a c d))))
