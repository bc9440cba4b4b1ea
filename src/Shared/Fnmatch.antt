-- ===== src/Shared/Fnmatch.antt =====
-- Python's `fnmatch.fnmatchcase`: `*`, `?`, `[seq]` and `[!seq]`, all else literal. A pattern is
-- first cut into tokens, as `fnmatch.translate` does on its way to a regular expression.
pub mod Laws
use Prim.Native.Nat.{ℕ}
use Prim.Native.Char.{code}
use Prim.Native.String.{String, [], ◌∷◌}
use mathlib.Core.Bool.{Bool, true, false, not, ◌&&◌, ◌||◌, xor}
use mathlib.Core.List.{List, [], ◌∷◌, ◌++◌, reverse}
use mlflow_integration.Shared.Tests.{nat_eqb, leb, if◌then◌else◌, any}

-- A member of a `[seq]`: one character, or a range, which is empty if its ends are swapped.
pub data Item : Type 0 where
  single : ℕ → Item
  range : ℕ → ℕ → Item

pub data Token : Type 0 where
  star any_char : Token
  literal : ℕ → Token
  class : Bool → List Item → Token

-- Where the scan stands: outside brackets, right after `[`, right after `[!` or before the first
-- member, or among the members, which are kept in reverse.
pub data Mode : Type 0 where
  outside opening : Mode
  first : Bool → Mode
  inside : Bool → List ℕ → Mode

has_bracket : String → Bool
has_bracket [] = false
has_bracket (c ∷ s) = nat_eqb (code c) b']' || has_bracket s

-- A first `]` is a member, and does not close the class.
closes_first : String → Bool
unfolding has_bracket
closes_first [] = false
closes_first (c ∷ s) = has_bracket s

-- Is there a bracket that closes the class which starts before `s`?
closes : String → Bool
unfolding closes_first
closes [] = false
closes (c ∷ s) = if nat_eqb (code c) b'!' then closes_first s else closes_first (c ∷ s)

items : List ℕ → List Item
items [] = []
items (a ∷ []) = single a ∷ []
items (a ∷ b ∷ []) = single a ∷ single b ∷ []
items (a ∷ b ∷ c ∷ s) =
    let ranged : List Item = range a c ∷ items s in
    let plain : List Item = single a ∷ items (b ∷ c ∷ s) in if nat_eqb b b'-' then ranged else plain

member : Bool → List ℕ → ℕ → Mode × List Token
unfolding items
member negated seen c =
    if nat_eqb c b']'
    then (outside, class negated (items (reverse seen)) ∷ [])
    else (inside negated (c ∷ seen), [])

-- One character `c` of the pattern, with `s` after it.
step : Mode → ℕ → String → Mode × List Token
unfolding closes member
step outside c s =
    if nat_eqb c b'*'
    then (outside, star ∷ [])
    else if nat_eqb c b'?'
    then (outside, any_char ∷ [])
    else if nat_eqb c b'[' && closes s
    then (opening, [])
    else (outside, literal c ∷ [])
step opening c s = if nat_eqb c b'!' then (first true, []) else (inside false (c ∷ []), [])
step (first negated) c s = (inside negated (c ∷ []), [])
step (inside negated seen) c s = member negated seen c

tokens_from : Mode → String → List Token
tokens_from mode [] = []
tokens_from mode (c ∷ s) = let (mode', out) = step mode (code c) s in out ++ tokens_from mode' s

pub tokens : String → List Token
unfolding tokens_from step
tokens pattern = tokens_from outside pattern

in_item : ℕ → Item → Bool
in_item c (single a) = nat_eqb c a
in_item c (range a b) = leb a c && leb c b

-- Does the token accept the character? (A star accepts any.)
unfoldable pub accepts : Token → ℕ → Bool
unfolding in_item
accepts star c = true
accepts any_char c = true
accepts (literal a) c = nat_eqb c a
accepts (class negated members) c = xor negated (any (in_item c) members)

unfoldable pub match_tokens : List Token → String → Bool
unfolding accepts
match_tokens [] [] = true
match_tokens [] (c ∷ s) = false
match_tokens (star ∷ ts) [] = match_tokens ts ""
match_tokens (t ∷ ts) [] = false
match_tokens (star ∷ ts) (c ∷ s) =
    let here = match_tokens ts (c ∷ s) in
    let later = match_tokens (star ∷ ts) s in if here then true else later
match_tokens (t ∷ ts) (c ∷ s) =
    let rest = match_tokens ts s in if accepts t (code c) then rest else false

unfoldable pub fnmatchcase : String → String → Bool
unfolding tokens match_tokens
fnmatchcase name pattern = match_tokens (tokens pattern) name
