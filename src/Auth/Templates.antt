-- ===== src/Auth/Templates.antt =====
-- auth/core.py, `_re_compile_path`: the pattern of a path with parameters, and its match.
pub mod Matching
pub mod Pieces
pub mod Printing
use mlflow_integration.Shared.{
  String, Bool, true, false, ◌&&◌, ◌||◌, not, List, [], ◌∷◌, ◌++◌, ℕ, if◌then◌else◌, nat_eqb,
}
use mathlib.Core.List.{reverse}
use Prim.Native.Char.{Char, code}
use Prim.Native.String.{[], ◌∷◌}

abbrev pub codes : String → List ℕ
codes [] = []
codes (c ∷ s) = code c ∷ codes s

-- What a character of a path may be: `_re_compile_path` leaves the literal parts of a path as they are, so that a dot
-- stands for any character but a newline. Every other character is taken as plain.
pub data Class : Type 0 where
  exactly : ℕ → Class
  not_slash not_newline : Class

-- One character, or one and more.
pub data PathToken : Type 0 where
  one many : Class → PathToken

unfoldable pub admits : Class → ℕ → Bool
admits (exactly c) d = nat_eqb c d
admits not_slash d = not (nat_eqb d b'/')
admits not_newline d = not (nat_eqb d 10)

-- A character outside `<…>`.
abbrev pub plain : ℕ → PathToken
plain c = if nat_eqb c b'.' then one not_newline else one (exactly c)

-- A text outside `<…>`, from its codes.
abbrev pub plain_all : List ℕ → List PathToken
plain_all [] = []
plain_all (c ∷ codes) = plain c ∷ plain_all codes

-- `match.group(1).startswith("path:")`
abbrev pub begins : List ℕ → List ℕ → Bool
begins codes [] = true
begins [] (d ∷ prefix) = false
begins (c ∷ codes) (d ∷ prefix) = nat_eqb c d && begins codes prefix

abbrev pub parameter : List ℕ → PathToken
parameter name =
    if begins name (b'p' ∷ b'a' ∷ b't' ∷ b'h' ∷ b':' ∷ []) then many not_newline else many not_slash

-- Outside `<…>`, or inside, with the codes since `<` in reverse.
pub data Scan : Type 0 where
  outside : Scan
  inside : List ℕ → Scan

-- `<([^>]+)>`: an empty pair of brackets is plain, and so is a bracket that is never closed.
closed : List ℕ → List PathToken
closed [] = plain_all (b'<' ∷ b'>' ∷ [])
closed (c ∷ seen) = parameter (reverse (c ∷ seen)) ∷ []

scanned : Scan → ℕ → Scan × List PathToken
unfolding closed
scanned outside c = if nat_eqb c b'<' then (inside [], []) else (outside, plain c ∷ [])
scanned (inside seen) c = if nat_eqb c b'>' then (outside, closed seen) else (inside (c ∷ seen), [])

path_tokens_from : Scan → String → List PathToken
unfolding scanned
path_tokens_from outside [] = []
path_tokens_from (inside seen) [] = plain_all (b'<' ∷ reverse seen)
path_tokens_from scan (c ∷ s) =
    let (scan', out) = scanned scan (code c) in out ++ path_tokens_from scan' s

-- `_re_compile_path`
unfoldable pub re_compile_path : String → List PathToken
unfolding path_tokens_from
re_compile_path path = path_tokens_from outside path

-- pattern.fullmatch(path) is not None
unfoldable pub fullmatch : List PathToken → String → Bool
unfolding admits
fullmatch [] [] = true
fullmatch [] (c ∷ s) = false
fullmatch (t ∷ ts) [] = false
fullmatch (one k ∷ ts) (c ∷ s) = let rest = fullmatch ts s in admits k (code c) && rest
fullmatch (many k ∷ ts) (c ∷ s) =
    let last = fullmatch ts s in
    let more = fullmatch (many k ∷ ts) s in admits k (code c) && (last || more)
