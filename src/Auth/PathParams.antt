-- ===== src/Auth/PathParams.antt =====
-- auth/compiler.py, `_compile_named_path_pattern` and `_extract_path_params`: the parameters of a request's path. A
-- parameter's name is taken to be one that `re` accepts, and no two of a path are the same.
pub mod Values
pub mod RoundTrip
pub mod Printing
pub mod Extraction
use mlflow_integration.Shared.{
  String, Bool, true, false, Option, none, some, List, [], ◌∷◌, ◌++◌, ℕ, if◌then◌else◌, nat_eqb,
  string_eq, ◌==◌,
}
use mlflow_integration.Shared.Text.{starts_with, drop}
use mlflow_integration.Auth.Templates.{codes, Class, not_slash, not_newline, admits}
use Prim.Native.Char.{Char, code}
use Prim.Native.String
use Prim.Native.String.{[], ◌∷◌}

-- A character that stands for itself, by its code, or a group with its name: one character of a class, and more.
pub data NamedToken : Type 0 where
  literal : ℕ → NamedToken
  group : Class → String → NamedToken

abbrev pub literals : List ℕ → List NamedToken
literals [] = []
literals (c ∷ cs) = literal c ∷ literals cs

-- The body of the loop over the matches of `<([^>]+)>`; an empty pair of brackets is none.
unfoldable pub group_of : String → List NamedToken
unfolding starts_with drop
group_of [] = literals (b'<' ∷ b'>' ∷ [])
group_of (c ∷ token) =
    if starts_with (c ∷ token) "path:"
    then group not_newline (drop 5 (c ∷ token)) ∷ []
    else group not_slash (c ∷ token) ∷ []

-- Between two matches, or behind a `<` with what came since.
pub data Cursor : Type 0 where
  between : Cursor
  within : String → Cursor

unfoldable pub move : Cursor → Char → Cursor × List NamedToken
unfolding group_of
move between c = if nat_eqb (code c) b'<' then (within "", []) else (between, literal (code c) ∷ [])
move (within token) c =
    if nat_eqb (code c) b'>'
    then (between, group_of token)
    else (within (String.◌++◌ token (c ∷ [])), [])

unfoldable pub named_tokens : Cursor → String → List NamedToken
unfolding move
named_tokens between [] = []
named_tokens (within token) [] = literals (b'<' ∷ codes token)
named_tokens cursor (c ∷ s) = let (cursor', out) = move cursor c in out ++ named_tokens cursor' s

-- `_compile_named_path_pattern`
unfoldable pub compile_named_path_pattern : String → List NamedToken
unfolding named_tokens
compile_named_path_pattern path = named_tokens between path

-- What a match captures: the groups in their order.
abbrev pub Captures : Type 0
Captures = List (String × String)

-- The first group takes the character and nothing else.
abbrev pub begin : String → Char → Option Captures → Option Captures
begin name c none = none
begin name c (some captures) = some ((name, c ∷ []) ∷ captures)

-- The first group takes the character before what it has.
abbrev pub grow : Char → Option Captures → Option Captures
grow c none = none
grow c (some []) = none
grow c (some ((name, value) ∷ captures)) = some ((name, c ∷ value) ∷ captures)

abbrev pub preferred : Option Captures → Option Captures → Option Captures
preferred none second = second
preferred (some captures) second = some captures

-- `pattern.fullmatch(request_path)` and its `groupdict()`: a group takes as much as it can.
unfoldable pub match_named : List NamedToken → String → Option Captures
unfolding admits
match_named [] [] = some []
match_named [] (c ∷ s) = none
match_named (t ∷ ts) [] = none
match_named (literal d ∷ ts) (c ∷ s) =
    let rest = match_named ts s in if nat_eqb d (code c) then rest else none
match_named (group k name ∷ ts) (c ∷ s) =
    let last = match_named ts s in
    let more = match_named (group k name ∷ ts) s in
    if admits k (code c) then preferred (grow c more) (begin name c last) else none

-- An entry of `_PATH_PARAM_PATTERNS`.
pub record NamedPattern : Type 0 where
  pub tokens : List NamedToken
  pub verb : String

-- return {...}, or the next entry
abbrev pub captured : Option Captures → Captures → Captures
captured none rest = rest
captured (some captures) rest = captures

-- `_extract_path_params`
unfoldable pub extract_path_params : List NamedPattern → String → String → Captures
unfolding match_named
extract_path_params [] request_path method = []
extract_path_params (p ∷ patterns) request_path method =
    let rest = extract_path_params patterns request_path method in
    if p.verb == method then captured (match_named p.tokens request_path) rest else rest
