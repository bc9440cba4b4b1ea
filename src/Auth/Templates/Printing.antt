-- ===== src/Auth/Templates/Printing.antt =====
-- The text of a template, compiled by `_re_compile_path`, and the paths that match.
use mlflow_integration.Shared.{String, not, List, [], ◌∷◌, ◌++◌, ℕ, nat_eqb, ◌≡◌, ◌↔◌, refl, arith}
use mlflow_integration.Shared.Splitting.{Lacks}
use mlflow_integration.Auth.Templates.{
  codes, Class, not_slash, not_newline, PathToken, many, admits, plain_all,
}
use mlflow_integration.Auth.Templates.Matching.{AllIn}
use mlflow_integration.Auth.Templates.Pieces.{Piece, plain_text, one_segment, many_segments}
use Prim.Native.Char.{Char, code}
use Prim.Native.String
use Prim.Native.String.{[], ◌∷◌}

-- The tokens of the pieces.
abbrev tokens_of : List Piece → List PathToken
tokens_of [] = []
tokens_of (plain_text t ∷ pieces) = plain_all (codes t) ++ tokens_of pieces
tokens_of (one_segment name ∷ pieces) = many not_slash ∷ tokens_of pieces
tokens_of (many_segments name ∷ pieces) = many not_newline ∷ tokens_of pieces

abbrev path_codes : List ℕ
path_codes = b':' ∷ b'h' ∷ b't' ∷ b'a' ∷ b'p' ∷ []

AllIn-Lacks :
    (k : Class) (n : ℕ)
    → ((d : ℕ) → admits k d ≡ not (nat_eqb d n))
    → (s : String) → AllIn k s ↔ Lacks n s
AllIn-Lacks k n e [] = (λ h. tt, λ h. tt)
AllIn-Lacks k n e (c ∷ s) =
    let rest = AllIn-Lacks k n e s in
    (
      λ h. (ground (arith, e (code c), h.0), rest.0 h.1),
      λ h. (ground (arith, e (code c), h.0), rest.1 h.1),
    )

pub AllIn-Lacks_slash : (s : String) → AllIn not_slash s ↔ Lacks b'/' s
AllIn-Lacks_slash s = AllIn-Lacks not_slash b'/' (λ d. unfold admits in refl) s

pub AllIn-Lacks_newline : (s : String) → AllIn not_newline s ↔ Lacks 10 s
AllIn-Lacks_newline s = AllIn-Lacks not_newline 10 (λ d. unfold admits in refl) s
