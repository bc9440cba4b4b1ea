-- ===== src/Auth/Templates/Matching.antt =====
-- The texts that a compiled path matches.
use mlflow_integration.Shared.{
  String, Bool, true, false, ◌&&◌, ◌||◌, List, [], ◌∷◌, ◌≡◌, ◌↔◌, ◌⊎◌, inl, inr, refl, ap, sym,
  subst, arith,
}
use mlflow_integration.Auth.Templates.{Class, PathToken, one, many, admits, fullmatch}
use Prim.Native.Char.{Char, code}
use Prim.Native.String
use Prim.Native.String.{[], ◌∷◌}
use text.Mathlib.TextLemmas.{nil-append, cons-append}

-- Every character of a text is in the class.
abbrev pub AllIn : Class → String → Type 0
AllIn k [] = Unit
AllIn k (c ∷ s) = (admits k (code c) ≡ true) × AllIn k s

-- A text is cut into one piece for each token: a character, or a piece that is not empty, of the token's class.
abbrev pub Matches : List PathToken → String → Type 0
Matches [] s = s ≡ ""
Matches (one k ∷ ts) s =
    (c : Char) × (rest : String) × (s ≡ c ∷ rest) × (admits k (code c) ≡ true) × Matches ts rest
Matches (many k ∷ ts) s =
    (c : Char) × (word : String) × (rest : String) × (s ≡ c ∷ String.◌++◌ word rest)
    × AllIn k (c ∷ word)
    × Matches ts rest

and-cases : (a b : Bool) → (a && b) ≡ true → (a ≡ true) × (b ≡ true)
and-cases true b e = (refl, e)
and-cases false b e = cc

or-cases : (a b : Bool) → (a || b) ≡ true → (a ≡ true) ⊎ (b ≡ true)
or-cases true b e = inl refl
or-cases false b e = inr e

-- A word that goes on by one more character.
more-Matches :
    (k : Class) (ts : List PathToken) (c : Char) (s : String)
    → admits k (code c) ≡ true
    → Matches (many k ∷ ts) s
    → Matches (many k ∷ ts) (c ∷ s)
more-Matches k ts c s a (d, word, rest, e, all, m) =
    (c, d ∷ word, rest, rw cons-append (ap (λ t. c ∷ t) e), (a, all), m)

fullmatch-Matches : (ts : List PathToken) (s : String) → fullmatch ts s ≡ true → Matches ts s
unfolding fullmatch
fullmatch-Matches [] [] h = refl
fullmatch-Matches [] (c ∷ s) h = cc
fullmatch-Matches (one k ∷ ts) [] h = cc
fullmatch-Matches (many k ∷ ts) [] h = cc
fullmatch-Matches (one k ∷ ts) (c ∷ s) h =
    let (a, m) = and-cases (admits k (code c)) (fullmatch ts s) h in
    (c, s, refl, a, fullmatch-Matches ts s m)
fullmatch-Matches (many k ∷ ts) (c ∷ s) h =
    by_cases (fullmatch-Matches ts s) (fullmatch-Matches (many k ∷ ts) s)
  where
    by_cases :
        (fullmatch ts s ≡ true → Matches ts s)
        → (fullmatch (many k ∷ ts) s ≡ true → Matches (many k ∷ ts) s)
        → Matches (many k ∷ ts) (c ∷ s)
    by_cases last more =
        let (a, b) =
          and-cases (admits k (code c)) (fullmatch ts s || fullmatch (many k ∷ ts) s) h in
        elim (or-cases (fullmatch ts s) (fullmatch (many k ∷ ts) s) b) [
          | inl m ↦ (c, "", s, rw nil-append refl, (a, tt), last m)
          | inr m ↦ more-Matches k ts c s a (more m)
        ]

many-fullmatch :
    (k : Class) (ts : List PathToken) (c : Char) (word rest : String)
    → AllIn k (c ∷ word)
    → fullmatch ts rest ≡ true
    → fullmatch (many k ∷ ts) (c ∷ String.◌++◌ word rest) ≡ true
unfolding fullmatch
many-fullmatch k ts c [] rest all m = rw nil-append (rw (all.0, m) refl)
many-fullmatch k ts c (d ∷ word) rest all m =
    rw cons-append (ground (arith, all.0, many-fullmatch k ts d word rest all.1 m))

Matches-fullmatch : (ts : List PathToken) (s : String) → Matches ts s → fullmatch ts s ≡ true
unfolding fullmatch
Matches-fullmatch [] s h = subst (λ t. fullmatch [] t ≡ true) (sym h) refl
Matches-fullmatch (one k ∷ ts) s (c, rest, e, a, m) =
    subst (λ t. fullmatch (one k ∷ ts) t ≡ true) (sym e) (rw (a, Matches-fullmatch ts rest m) refl)
Matches-fullmatch (many k ∷ ts) s (c, word, rest, e, all, m) =
    subst (λ t. fullmatch (many k ∷ ts) t ≡ true) (sym e)
      (many-fullmatch k ts c word rest all (Matches-fullmatch ts rest m))

-- The match of a compiled path succeeds exactly when the text can be cut into one piece for each token of the path: one
-- character of the class of a plain token, and for a parameter a piece that is not empty and has no slash, or no newline
-- if it is a `path:` parameter.
pub fullmatch-iff-Matches :
    (ts : List PathToken) (s : String) → (fullmatch ts s ≡ true) ↔ Matches ts s
fullmatch-iff-Matches ts s = (fullmatch-Matches ts s, Matches-fullmatch ts s)
