-- ===== src/Auth/PathParams/RoundTrip.antt =====
-- The values of the parameters, and the path that they fill.
use mlflow_integration.Shared.{
  String, true, Option, none, some, List, [], ◌∷◌, ◌++◌, ℕ, if_intro, string_eq, ◌==◌, ◌≡◌, refl,
  ap, sym, subst, ◌∙◌, eq_iff, All, arith,
}
use mlflow_integration.Auth.Templates.{codes, exactly, not_slash, not_newline, admits}
use mlflow_integration.Auth.Templates.Matching.{AllIn}
use mlflow_integration.Auth.PathParams.{
  NamedToken, literal, group, Captures, match_named, NamedPattern, captured, extract_path_params,
}
use mlflow_integration.Auth.PathParams.Values.{
  filled, AreValues, Fill, IsMatch, cons-cases, match_named-IsMatch,
}
use text.Mathlib.TextEquality.{Char-path}
use Prim.Native.Char.{Char, code}
use Prim.Native.String.{[], ◌∷◌}

-- The end of the path, or a slash.
abbrev pub EndOrSlash : List NamedToken → Type 0
EndOrSlash [] = Unit
EndOrSlash (literal d ∷ ts) = d ≡ b'/'
EndOrSlash (group k name ∷ ts) = ⊥

-- A parameter of one segment stands before a slash or at the end, and one of several segments at the end.
abbrev pub IsSegmented : List NamedToken → Type 0
IsSegmented [] = Unit
IsSegmented (literal d ∷ ts) = IsSegmented ts
IsSegmented (group (exactly c) name ∷ ts) = ⊥
IsSegmented (group not_slash name ∷ ts) = EndOrSlash ts × IsSegmented ts
IsSegmented (group not_newline name ∷ []) = Unit
IsSegmented (group not_newline name ∷ t ∷ ts) = ⊥

abbrev AtEnd : List ℕ → Type 0
AtEnd [] = Unit
AtEnd (d ∷ r) = d ≡ b'/'

filled-AtEnd :
    (ts : List NamedToken) (captures : Captures) → EndOrSlash ts → AtEnd (filled ts captures)
filled-AtEnd [] captures h = tt
filled-AtEnd (literal d ∷ ts) captures h = h
filled-AtEnd (group k name ∷ ts) captures h = absurd h

AtEnd-no_segment :
    (c : Char) (r r' : List ℕ)
    → admits not_slash (code c) ≡ true
    → AtEnd r
    → r ≡ List.◌∷◌ (code c) r'
    → ⊥
unfolding admits
AtEnd-no_segment c [] r' a h e = cc
AtEnd-no_segment c (d ∷ r) r' a h e =
    let p : d ≡ code c = (cons-cases d (code c) r r' e).0 in ground (arith, a, h, p)

-- Two segments that go on to the same text are one.
same_segment :
    (v w : String) (r r' : List ℕ)
    → AllIn not_slash v
    → AllIn not_slash w
    → AtEnd r
    → AtEnd r'
    → codes v ++ r ≡ codes w ++ r'
    → (v ≡ w) × (r ≡ r')
same_segment [] [] r r' a b h h' e = (refl, e)
same_segment [] (d ∷ w) r r' a b h h' e = absurd (AtEnd-no_segment d r (codes w ++ r') b.0 h e)
same_segment (c ∷ v) [] r r' a b h h' e =
    absurd (AtEnd-no_segment c r' (codes v ++ r) a.0 h' (sym e))
same_segment (c ∷ v) (d ∷ w) r r' a b h h' e =
    let (p, q) = cons-cases (code c) (code d) (codes v ++ r) (codes w ++ r') e in
    let (vw, rr) = same_segment v w r r' a.1 b.1 h h' q in
    (λ i. String.◌∷◌ (Char-path c d p i) (vw i), rr)

same_rest : (v w : String) → codes v ++ [] ≡ codes w ++ [] → v ≡ w
same_rest [] [] e = refl
same_rest [] (d ∷ w) e = cc
same_rest (c ∷ v) [] e = cc
same_rest (c ∷ v) (d ∷ w) e =
    let (p, q) = cons-cases (code c) (code d) (codes v ++ []) (codes w ++ []) e in
    λ i. String.◌∷◌ (Char-path c d p i) (same_rest v w q i)

-- No two families of values fill a path alike.
filled-injective :
    (ts : List NamedToken) (a b : Captures)
    → IsSegmented ts
    → AreValues ts a
    → AreValues ts b
    → filled ts a ≡ filled ts b
    → a ≡ b
filled-injective [] [] [] s va vb e = refl
filled-injective [] [] (y ∷ b) s va vb e = absurd vb
filled-injective [] (x ∷ a) b s va vb e = absurd va
filled-injective (literal d ∷ ts) a b s va vb e =
    filled-injective ts a b s va vb (cons-cases d d (filled ts a) (filled ts b) e).1
filled-injective (group (exactly c) name ∷ ts) a b s va vb e = absurd s
filled-injective (group not_slash name ∷ ts) [] b s va vb e = absurd va
filled-injective (group not_slash name ∷ ts) (x ∷ a) [] s va vb e = absurd vb
filled-injective (group not_slash name ∷ ts) ((n, v) ∷ a) ((n', w) ∷ b) (h, s) (p, _, av, va)
      (p', _, aw, vb) e =
    let (vw, rest) =
      same_segment v w (filled ts a) (filled ts b) av aw (filled-AtEnd ts a h) (filled-AtEnd ts b h)
        e in
    let ab = filled-injective ts a b s va vb rest in λ i. List.◌∷◌ ((p ∙ sym p') i, vw i) (ab i)
filled-injective (group not_newline name ∷ []) [] b s va vb e = absurd va
filled-injective (group not_newline name ∷ []) (x ∷ a) [] s va vb e = absurd vb
filled-injective (group not_newline name ∷ []) ((n, v) ∷ x ∷ a) b s (_, _, _, va) vb e = absurd va
filled-injective (group not_newline name ∷ []) ((n, v) ∷ []) ((n', w) ∷ y ∷ b) s va (_, _, _, vb)
      e =
    absurd vb
filled-injective (group not_newline name ∷ []) ((n, v) ∷ []) ((n', w) ∷ []) s (p, _, _, va)
      (p', _, _, vb) e =
    let vw = same_rest v w e in λ i. List.◌∷◌ ((p ∙ sym p') i, vw i) []
filled-injective (group not_newline name ∷ t ∷ ts) a b s va vb e = absurd s

match_named-filled :
    (ts : List NamedToken) (s : String) (captures : Captures)
    → IsSegmented ts
    → Fill ts s captures
    → match_named ts s ≡ some captures
match_named-filled ts s captures h (f, v) = by_result (match_named ts s) (match_named-IsMatch ts s)
  where
    by_result : (o : Option Captures) → IsMatch ts s o → o ≡ some captures
    by_result none m = absurd (m captures (f, v))
    by_result (some other) (f', v') =
        ap some (filled-injective ts other captures h v' v (f' ∙ sym f))

-- No values fill the pattern to give the path, if it is for the method.
abbrev pub IsPassed : String → String → NamedPattern → Type 0
IsPassed request_path method p =
    p.verb ≡ method → (captures : Captures) → ¬ Fill p.tokens request_path captures

passed_none :
    (ts : List NamedToken) (s : String)
    → ((captures : Captures) → ¬ Fill ts s captures)
    → match_named ts s ≡ none
passed_none ts s h = by_result (match_named ts s) (match_named-IsMatch ts s)
  where
    by_result : (o : Option Captures) → IsMatch ts s o → o ≡ none
    by_result none m = refl
    by_result (some captures) m = absurd (h captures m)

-- The parameters that were put into the template of a request come back from its path, if no pattern that is registered
-- before gives the path for the method.
pub extract_path_params-filled :
    (before later : List NamedPattern) (p : NamedPattern) (request_path : String)
    (captures : Captures)
    → All (IsPassed request_path p.verb) before
    → IsSegmented p.tokens
    → Fill p.tokens request_path captures
    → extract_path_params (before ++ p ∷ later) request_path p.verb ≡ captures
unfolding extract_path_params
extract_path_params-filled [] later p request_path captures passed s f =
    rw ((eq_iff p.verb p.verb).1 refl, match_named-filled p.tokens request_path captures s f) refl
extract_path_params-filled (q ∷ before) later p request_path captures (h, passed) s f =
    let rest = extract_path_params-filled before later p request_path captures passed s f in
    if_intro (λ found. found ≡ captures) (q.verb == p.verb)
      (λ v.
        let missed = passed_none q.tokens request_path (h ((eq_iff q.verb p.verb).0 v)) in
        subst
          (λ o.
            captured o (extract_path_params (before ++ p ∷ later) request_path p.verb) ≡ captures)
          (sym missed) rest)
      (λ _. rest)
