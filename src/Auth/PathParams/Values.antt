-- ===== src/Auth/PathParams/Values.antt =====
-- The values that a match of a named pattern gives the parameters.
use mlflow_integration.Shared.{
  String, true, false, Option, none, some, List, [], ◌∷◌, ◌++◌, ℕ, if_intro, nat_eqb, string_eq,
  ◌≡◌, refl, ap, sym, ◌∙◌, arith,
}
use mlflow_integration.Shared.Text.{nonempty}
use mlflow_integration.Auth.Templates.{codes, Class, admits}
use mlflow_integration.Auth.Templates.Matching.{AllIn}
use mlflow_integration.Auth.PathParams.{
  NamedToken, literal, group, Captures, begin, grow, preferred, match_named,
}
use Prim.Native.Char.{Char, code}
use Prim.Native.String.{[], ◌∷◌}

-- The codes of the path with values in place of its parameters.
abbrev pub filled : List NamedToken → Captures → List ℕ
filled [] captures = []
filled (literal d ∷ ts) captures = d ∷ filled ts captures
filled (group k name ∷ ts) [] = []
filled (group k name ∷ ts) ((name', value) ∷ captures) = codes value ++ filled ts captures

-- A value for each parameter, by its name: not empty, and of the characters that the parameter takes.
abbrev pub AreValues : List NamedToken → Captures → Type 0
AreValues [] [] = Unit
AreValues [] (v ∷ captures) = ⊥
AreValues (literal d ∷ ts) captures = AreValues ts captures
AreValues (group k name ∷ ts) [] = ⊥
AreValues (group k name ∷ ts) ((name', value) ∷ captures) =
    (name' ≡ name) × (nonempty value ≡ true) × AllIn k value × AreValues ts captures

-- The values, put in the places of their parameters, give the text.
abbrev pub Fill : List NamedToken → String → Captures → Type 0
Fill ts s captures = (filled ts captures ≡ codes s) × AreValues ts captures

-- What a match returns: values that give the text, or nothing where no values do.
abbrev pub IsMatch : List NamedToken → String → Option Captures → Type 0
IsMatch ts s none = (captures : Captures) → ¬ Fill ts s captures
IsMatch ts s (some captures) = Fill ts s captures

pub cons-cases : (x y : ℕ) (xs ys : List ℕ) → List.◌∷◌ x xs ≡ List.◌∷◌ y ys → (x ≡ y) × (xs ≡ ys)
cons-cases x y xs ys h = (cc, cc)

same_character :
    (d : ℕ) (ts : List NamedToken) (c : Char) (s : String) (o : Option Captures)
    → nat_eqb d (code c) ≡ true
    → IsMatch ts s o
    → IsMatch (literal d ∷ ts) (c ∷ s) o
same_character d ts c s none e h =
    λ captures (f, v). h captures ((cons-cases d (code c) _ _ f).1, v)
same_character d ts c s (some captures) e (f, v) =
    (rw (f) (ap (λ t. t ∷ codes s) (ground (arith, e))), v)

other_character :
    (d : ℕ) (ts : List NamedToken) (c : Char) (s : String)
    → nat_eqb d (code c) ≡ false
    → IsMatch (literal d ∷ ts) (c ∷ s) none
other_character d ts c s e captures (f, v) =
    let p = (cons-cases d (code c) _ _ f).0 in ground (arith, e, p)

module _ (k : Class) (name : String) (ts : List NamedToken) (c : Char) (s : String) where
  grown :
      (more last : Option Captures)
      → admits k (code c) ≡ true
      → IsMatch (group k name ∷ ts) s more
      → IsMatch ts s last
      → IsMatch (group k name ∷ ts) (c ∷ s) (preferred (grow c more) (begin name c last))
  unfolding nonempty
  grown (some []) last a (f, v) l = absurd v
  grown (some ((name', value) ∷ captures)) last a (f, (e, n, w, v)) l =
      (ap (λ t. List.◌∷◌ (code c) t) f, (e, refl, (a, w), v))
  grown none (some captures) a m (f, v) =
      (ap (λ t. List.◌∷◌ (code c) t) f, (refl, refl, (a, tt), v))
  grown none none a m l = no_values
    where
      no_values : (captures : Captures) → ¬ Fill (group k name ∷ ts) (c ∷ s) captures
      no_values [] (f, v) = absurd v
      no_values ((name', []) ∷ captures) (f, (e, n, w, v)) = cc
      no_values ((name', d ∷ []) ∷ captures) (f, (e, n, w, v)) =
          l captures ((cons-cases (code d) (code c) _ _ f).1, v)
      no_values ((name', d ∷ d' ∷ value) ∷ captures) (f, (e, n, w, v)) =
          m ((name', d' ∷ value) ∷ captures)
            ((cons-cases (code d) (code c) _ _ f).1, (e, refl, w.1, v))

  refused : admits k (code c) ≡ false → IsMatch (group k name ∷ ts) (c ∷ s) none
  unfolding nonempty
  refused a [] (f, v) = absurd v
  refused a ((name', []) ∷ captures) (f, (e, n, w, v)) = cc
  refused a ((name', d ∷ value) ∷ captures) (f, (e, n, w, v)) =
      let same : code d ≡ code c = (cons-cases (code d) (code c) _ _ f).0 in
      let admitted : admits k (code c) ≡ true = ap (λ t. admits k t) (sym same) ∙ w.0 in cc

-- The match of a named pattern returns values for its parameters, each not empty and of the characters that the parameter
-- takes, which put in their places give the text; it returns nothing only if no such values do.
pub match_named-IsMatch : (ts : List NamedToken) (s : String) → IsMatch ts s (match_named ts s)
unfolding match_named nonempty
match_named-IsMatch [] [] = (refl, tt)
match_named-IsMatch [] (c ∷ s) = λ captures (f, v). cc
match_named-IsMatch (literal d ∷ ts) [] = λ captures (f, v). cc
match_named-IsMatch (group k name ∷ ts) [] = no_values
  where
    no_values : (captures : Captures) → ¬ Fill (group k name ∷ ts) "" captures
    no_values [] (f, v) = absurd v
    no_values ((name', []) ∷ captures) (f, (e, n, w, v)) = cc
    no_values ((name', d ∷ value) ∷ captures) (f, (e, n, w, v)) = cc
match_named-IsMatch (literal d ∷ ts) (c ∷ s) =
    let rest = match_named-IsMatch ts s in
    if_intro (IsMatch (literal d ∷ ts) (c ∷ s)) (nat_eqb d (code c))
      (λ e. same_character d ts c s (match_named ts s) e rest) (λ e. other_character d ts c s e)
match_named-IsMatch (group k name ∷ ts) (c ∷ s) =
    let last = match_named-IsMatch ts s in
    let more = match_named-IsMatch (group k name ∷ ts) s in
    if_intro (IsMatch (group k name ∷ ts) (c ∷ s)) (admits k (code c))
      (λ a. grown k name ts c s (match_named (group k name ∷ ts) s) (match_named ts s) a more last)
      (λ a. refused k name ts c s a)
