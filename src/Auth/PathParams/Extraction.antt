-- ===== src/Auth/PathParams/Extraction.antt =====
-- The parameters of a path, from the templates that are registered.
use mlflow_integration.Shared.{
  String, false, Option, none, some, List, [], ◌∷◌, ◌++◌, ℕ, map, if_intro, string_eq, ◌==◌, ◌≡◌,
  ◌≢◌, refl, ap, sym, subst, ◌∙◌, ◌⊎◌, inl, inr, eq_iff, All,
}
use mlflow_integration.Auth.Templates.{codes}
use mlflow_integration.Auth.Templates.Pieces.{
  Piece, plain_text, one_segment, many_segments, printed, IsReadable,
}
use mlflow_integration.Auth.Templates.Printing.{AllIn-Lacks_slash, AllIn-Lacks_newline}
use mlflow_integration.Auth.PathParams.{
  NamedToken, literals, compile_named_path_pattern, Captures, match_named, NamedPattern, captured,
  extract_path_params,
}
use mlflow_integration.Auth.PathParams.Values.{filled, AreValues, IsMatch, match_named-IsMatch}
use mlflow_integration.Auth.PathParams.Printing.{
  spelled, AreParameters, Gives, named_of, compile_named_path_pattern-printed,
}

filled-literals :
    (cs : List ℕ) (ts : List NamedToken) (captures : Captures)
    → filled (literals cs ++ ts) captures ≡ cs ++ filled ts captures
filled-literals [] ts captures = refl
filled-literals (c ∷ cs) ts captures = ap (λ l. c ∷ l) (filled-literals cs ts captures)

filled-spelled :
    (pieces : List Piece) (captures : Captures)
    → filled (named_of pieces) captures ≡ spelled pieces captures
filled-spelled [] captures = refl
filled-spelled (plain_text t ∷ pieces) captures =
    filled-literals (codes t) (named_of pieces) captures
    ∙ ap (λ l. codes t ++ l) (filled-spelled pieces captures)
filled-spelled (one_segment name ∷ pieces) [] = refl
filled-spelled (one_segment name ∷ pieces) ((n, v) ∷ captures) =
    ap (λ l. codes v ++ l) (filled-spelled pieces captures)
filled-spelled (many_segments name ∷ pieces) [] = refl
filled-spelled (many_segments name ∷ pieces) ((n, v) ∷ captures) =
    ap (λ l. codes v ++ l) (filled-spelled pieces captures)

module _ (ts : List NamedToken) (captures : Captures) where
  to_literals : (cs : List ℕ) → AreValues ts captures → AreValues (literals cs ++ ts) captures
  to_literals [] h = h
  to_literals (c ∷ cs) h = to_literals cs h

  of_literals : (cs : List ℕ) → AreValues (literals cs ++ ts) captures → AreValues ts captures
  of_literals [] h = h
  of_literals (c ∷ cs) h = of_literals cs h

AreValues-AreParameters :
    (pieces : List Piece) (captures : Captures)
    → AreValues (named_of pieces) captures
    → AreParameters pieces captures
AreValues-AreParameters [] [] h = tt
AreValues-AreParameters [] (v ∷ captures) h = absurd h
AreValues-AreParameters (plain_text t ∷ pieces) captures h =
    AreValues-AreParameters pieces captures (of_literals (named_of pieces) captures (codes t) h)
AreValues-AreParameters (one_segment name ∷ pieces) [] h = absurd h
AreValues-AreParameters (one_segment name ∷ pieces) ((n, v) ∷ captures) (e, f, a, h) =
    (e, f, (AllIn-Lacks_slash v).0 a, AreValues-AreParameters pieces captures h)
AreValues-AreParameters (many_segments name ∷ pieces) [] h = absurd h
AreValues-AreParameters (many_segments name ∷ pieces) ((n, v) ∷ captures) (e, f, a, h) =
    (e, f, (AllIn-Lacks_newline v).0 a, AreValues-AreParameters pieces captures h)

AreParameters-AreValues :
    (pieces : List Piece) (captures : Captures)
    → AreParameters pieces captures
    → AreValues (named_of pieces) captures
AreParameters-AreValues [] [] h = tt
AreParameters-AreValues [] (v ∷ captures) h = absurd h
AreParameters-AreValues (plain_text t ∷ pieces) captures h =
    to_literals (named_of pieces) captures (codes t) (AreParameters-AreValues pieces captures h)
AreParameters-AreValues (one_segment name ∷ pieces) [] h = absurd h
AreParameters-AreValues (one_segment name ∷ pieces) ((n, v) ∷ captures) (e, f, a, h) =
    (e, f, (AllIn-Lacks_slash v).1 a, AreParameters-AreValues pieces captures h)
AreParameters-AreValues (many_segments name ∷ pieces) [] h = absurd h
AreParameters-AreValues (many_segments name ∷ pieces) ((n, v) ∷ captures) (e, f, a, h) =
    (e, f, (AllIn-Lacks_newline v).1 a, AreParameters-AreValues pieces captures h)

-- Values that give the path, or nothing where no values do.
abbrev IsReading : List Piece → String → Option Captures → Type 0
IsReading pieces path none = (captures : Captures) → ¬ Gives pieces path captures
IsReading pieces path (some captures) = Gives pieces path captures

IsMatch-IsReading :
    (pieces : List Piece) (path : String) (o : Option Captures)
    → IsMatch (named_of pieces) path o
    → IsReading pieces path o
IsMatch-IsReading pieces path none h = λ captures (f, v).
    h captures (filled-spelled pieces captures ∙ f, AreParameters-AreValues pieces captures v)
IsMatch-IsReading pieces path (some captures) (f, v) =
    (sym (filled-spelled pieces captures) ∙ f, AreValues-AreParameters pieces captures v)

match_named-IsReading :
    (pieces : List Piece) (path : String)
    → IsReadable pieces
    → IsReading pieces path (match_named (compile_named_path_pattern (printed pieces)) path)
match_named-IsReading pieces path h =
    subst (λ ts. IsReading pieces path (match_named ts path))
      (sym (compile_named_path_pattern-printed pieces h))
      (IsMatch-IsReading pieces path (match_named (named_of pieces) path)
        (match_named-IsMatch (named_of pieces) path))

-- A template and the method that it is for, and its entry of `_PATH_PARAM_PATTERNS`.
abbrev pub Template : Type 0
Template = List Piece × String

abbrev pub registered : Template → NamedPattern
registered (pieces, verb) = record {
  tokens = compile_named_path_pattern (printed pieces);
  verb = verb;
}

-- The values that give the path in the first template for the method in which any values do, and no values if there is
-- none.
abbrev pub AreExtracted : List Template → String → String → Captures → Type 0
AreExtracted [] path method values = values ≡ []
AreExtracted ((pieces, verb) ∷ templates) path method values =
    ((verb ≡ method) × Gives pieces path values)
    ⊎ (((verb ≢ method) ⊎ ((captures : Captures) → ¬ Gives pieces path captures))
        × AreExtracted templates path method values)

-- For templates whose pieces can be read in one way, compiled by `_compile_named_path_pattern` and registered in this
-- order, `_extract_path_params` returns values that give the path in the first template for the method in which any
-- values do: for each parameter, under its name, a piece that is not empty and has no slash, or no newline if it is a
-- `path:` parameter. It returns no values if there is no such template.
pub extract_path_params-AreExtracted :
    (templates : List Template) (path method : String)
    → All (λ template. IsReadable template.0) templates
    → AreExtracted templates path method
        (extract_path_params (map registered templates) path method)
unfolding extract_path_params
extract_path_params-AreExtracted [] path method h = refl
extract_path_params-AreExtracted ((pieces, verb) ∷ templates) path method (h, hs) =
    let rest = extract_path_params (map registered templates) path method in
    let later = extract_path_params-AreExtracted templates path method hs in
    if_intro (AreExtracted ((pieces, verb) ∷ templates) path method) (verb == method)
      (λ same.
        by_reading ((eq_iff verb method).0 same) rest later
          (match_named (compile_named_path_pattern (printed pieces)) path)
          (match_named-IsReading pieces path h))
      (λ other. inr (inl (λ e. differ e other), later))
  where
    by_reading :
        verb ≡ method
        → (rest : Captures) → AreExtracted templates path method rest
        → (o : Option Captures) → IsReading pieces path o
        → AreExtracted ((pieces, verb) ∷ templates) path method (captured o rest)
    by_reading e rest later none missed = inr (inr missed, later)
    by_reading e rest later (some captures) gives = inl (e, gives)

    differ : verb ≡ method → (verb == method) ≡ false → ⊥
    differ e other = let same = (eq_iff verb method).1 e in cc
