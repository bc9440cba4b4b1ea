-- ===== src/Auth/PathParams/Printing.antt =====
-- The text of a template, compiled by `_compile_named_path_pattern`, and the values of its parameters.
use mlflow_integration.Shared.{String, true, false, List, [], ◌∷◌, ◌++◌, ℕ, ◌≡◌, refl, ap, ◌∙◌}
use mlflow_integration.Shared.Text.{nonempty, starts_with, drop}
use mlflow_integration.Shared.Splitting.{Lacks}
use mlflow_integration.Auth.Templates.{codes, not_slash, not_newline}
use mlflow_integration.Auth.Templates.Pieces.{
  Piece, plain_text, one_segment, many_segments, printed, IsReadable,
}
use mlflow_integration.Auth.PathParams.{
  NamedToken, literal, group, literals, group_of, between, within, move, named_tokens,
  compile_named_path_pattern, Captures,
}
use Prim.Native.Char.{code}
use Prim.Native.String
use Prim.Native.String.{[], ◌∷◌}
use text.Mathlib.TextLemmas.{nil-append, cons-append, append-nil, append_assoc}

-- The codes of the path that the pieces give with these values in the places of the parameters.
abbrev pub spelled : List Piece → Captures → List ℕ
spelled [] captures = []
spelled (plain_text t ∷ pieces) captures = codes t ++ spelled pieces captures
spelled (one_segment name ∷ pieces) [] = []
spelled (one_segment name ∷ pieces) ((name', value) ∷ captures) =
    codes value ++ spelled pieces captures
spelled (many_segments name ∷ pieces) [] = []
spelled (many_segments name ∷ pieces) ((name', value) ∷ captures) =
    codes value ++ spelled pieces captures

-- A value for each parameter, by its name: not empty, and without a slash, or without a newline if it has several
-- segments.
abbrev pub AreParameters : List Piece → Captures → Type 0
AreParameters [] [] = Unit
AreParameters [] (v ∷ captures) = ⊥
AreParameters (plain_text t ∷ pieces) captures = AreParameters pieces captures
AreParameters (one_segment name ∷ pieces) [] = ⊥
AreParameters (one_segment name ∷ pieces) ((name', value) ∷ captures) =
    (name' ≡ name) × (nonempty value ≡ true) × Lacks b'/' value × AreParameters pieces captures
AreParameters (many_segments name ∷ pieces) [] = ⊥
AreParameters (many_segments name ∷ pieces) ((name', value) ∷ captures) =
    (name' ≡ name) × (nonempty value ≡ true) × Lacks 10 value × AreParameters pieces captures

abbrev pub Gives : List Piece → String → Captures → Type 0
Gives pieces path captures = (spelled pieces captures ≡ codes path) × AreParameters pieces captures

-- The tokens of the pieces.
abbrev pub named_of : List Piece → List NamedToken
named_of [] = []
named_of (plain_text t ∷ pieces) = literals (codes t) ++ named_of pieces
named_of (one_segment name ∷ pieces) = group not_slash name ∷ named_of pieces
named_of (many_segments name ∷ pieces) = group not_newline name ∷ named_of pieces

scan-plain :
    (t s : String)
    → Lacks b'<' t
    → named_tokens between (String.◌++◌ t s) ≡ literals (codes t) ++ named_tokens between s
unfolding named_tokens move
scan-plain [] s h = rw nil-append refl
scan-plain (c ∷ t) s (h, hs) =
    rw (cons-append, h) (ap (λ ts. literal (code c) ∷ ts) (scan-plain t s hs))

scan-name :
    (name token s : String)
    → Lacks b'>' name
    → named_tokens (within token) (String.◌++◌ name (">" ∷ s))
      ≡ group_of (String.◌++◌ token name) ++ named_tokens between s
unfolding named_tokens move
scan-name [] token s h = rw (nil-append, append-nil) refl
scan-name (c ∷ name) token s (h, hs) =
    rw (cons-append, h)
      (scan-name name (String.◌++◌ token (c ∷ "")) s hs
        ∙ ap (λ t. group_of t ++ named_tokens between s)
            (append_assoc token (c ∷ "") name
              ∙ ap (λ t. String.◌++◌ token t)
                  (cons-append c "" name ∙ ap (λ t. c ∷ t) (nil-append name))))

segment_lem :
    (name : String)
    → nonempty name ≡ true
    → starts_with name "path:" ≡ false
    → group_of name ≡ group not_slash name ∷ []
unfolding group_of nonempty
segment_lem [] n h = cc
segment_lem (c ∷ name) n h = rw h refl

pub prefix_lem : (name : String) → String.◌++◌ "path:" name ≡ "p" ∷ "a" ∷ "t" ∷ "h" ∷ ":" ∷ name
prefix_lem name =
    cons-append "p" "ath:" name
    ∙ ap (λ t. "p" ∷ t)
        (cons-append "a" "th:" name
          ∙ ap (λ t. "a" ∷ t)
              (cons-append "t" "h:" name
                ∙ ap (λ t. "t" ∷ t)
                    (cons-append "h" ":" name
                      ∙ ap (λ t. "h" ∷ t)
                          (cons-append ":" "" name ∙ ap (λ t. ":" ∷ t) (nil-append name)))))

segments_lem :
    (name : String) → group_of ("p" ∷ "a" ∷ "t" ∷ "h" ∷ ":" ∷ name) ≡ group not_newline name ∷ []
unfolding group_of starts_with drop
segments_lem name = refl

named_tokens-printed :
    (pieces : List Piece)
    → IsReadable pieces
    → named_tokens between (printed pieces) ≡ named_of pieces
unfolding named_tokens move
named_tokens-printed [] h = refl
named_tokens-printed (plain_text t ∷ pieces) (h, hs) =
    scan-plain t (printed pieces) h
    ∙ ap (λ ts. literals (codes t) ++ ts) (named_tokens-printed pieces hs)
named_tokens-printed (one_segment name ∷ pieces) (n, p, h, hs) =
    scan-name name "" (printed pieces) h
    ∙ (ap (λ ts. ts ++ named_tokens between (printed pieces))
          (ap group_of (nil-append name) ∙ segment_lem name n p)
        ∙ ap (λ ts. group not_slash name ∷ ts) (named_tokens-printed pieces hs))
named_tokens-printed (many_segments name ∷ pieces) (h, hs) =
    scan-name name "path:" (printed pieces) h
    ∙ (ap (λ ts. ts ++ named_tokens between (printed pieces))
          (ap group_of (prefix_lem name) ∙ segments_lem name)
        ∙ ap (λ ts. group not_newline name ∷ ts) (named_tokens-printed pieces hs))

-- A template compiles to the named tokens of its pieces.
pub compile_named_path_pattern-printed :
    (pieces : List Piece)
    → IsReadable pieces
    → compile_named_path_pattern (printed pieces) ≡ named_of pieces
unfolding compile_named_path_pattern
compile_named_path_pattern-printed pieces h = named_tokens-printed pieces h
