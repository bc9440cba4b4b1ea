-- ===== src/Auth/Templates/Pieces.antt =====
-- Templates of paths as pieces, independent of `_re_compile_path`: their text, and the paths that they stand for.
use mlflow_integration.Shared.{String, true, false, List, [], ◌∷◌, ℕ, ◌≡◌, ◌≢◌, ◌⊎◌}
use mlflow_integration.Shared.Text.{nonempty, starts_with}
use mlflow_integration.Shared.Splitting.{Lacks}
use Prim.Native.Char.{Char, code}
use Prim.Native.String
use Prim.Native.String.{[], ◌∷◌}

-- A text, a parameter of one segment with its name, and a parameter of several.
pub data Piece : Type 0 where
  plain_text one_segment many_segments : String → Piece

-- A parameter is `<name>` or `<path:name>`.
abbrev pub printed : List Piece → String
printed [] = ""
printed (plain_text t ∷ pieces) = String.◌++◌ t (printed pieces)
printed (one_segment name ∷ pieces) = "<" ∷ String.◌++◌ name (">" ∷ printed pieces)
printed (many_segments name ∷ pieces) =
    "<" ∷ "p" ∷ "a" ∷ "t" ∷ "h" ∷ ":" ∷ String.◌++◌ name (">" ∷ printed pieces)

-- The text of the pieces can be read in one way: no text has a `<`, and no name a `>`, and the name of a parameter of one
-- segment is not empty and does not look like the other kind.
abbrev pub IsReadable : List Piece → Type 0
IsReadable [] = Unit
IsReadable (plain_text t ∷ pieces) = Lacks b'<' t × IsReadable pieces
IsReadable (one_segment name ∷ pieces) =
    (nonempty name ≡ true)
    × (starts_with name "path:" ≡ false)
    × Lacks b'>' name
    × IsReadable pieces
IsReadable (many_segments name ∷ pieces) = Lacks b'>' name × IsReadable pieces

-- A character of a path in the place of one of a text: a dot stands for any but a newline.
abbrev pub StandsFor : Char → Char → Type 0
StandsFor c d = (code d ≡ code c) ⊎ ((code c ≡ b'.') × (code d ≢ 10))

-- A path that goes on with `Then` after a text.
abbrev pub FitsText : String → (String → Type 0) → String → Type 0
FitsText [] Then s = Then s
FitsText (c ∷ t) Then s =
    (d : Char) × (rest : String) × (s ≡ d ∷ rest) × StandsFor c d × FitsText t Then rest

-- A path that goes on with `Then` after a piece that is not empty and lacks the character.
abbrev pub FitsParameter : ℕ → (String → Type 0) → String → Type 0
FitsParameter n Then s =
    (c : Char) × (word : String) × (rest : String) × (s ≡ c ∷ String.◌++◌ word rest)
    × Lacks n (c ∷ word)
    × Then rest

-- The paths that the pieces stand for.
abbrev pub FitsPieces : List Piece → String → Type 0
FitsPieces [] s = s ≡ ""
FitsPieces (plain_text t ∷ pieces) s = FitsText t (FitsPieces pieces) s
FitsPieces (one_segment name ∷ pieces) s = FitsParameter b'/' (FitsPieces pieces) s
FitsPieces (many_segments name ∷ pieces) s = FitsParameter 10 (FitsPieces pieces) s
