-- ===== src/Shared/Fnmatch/Laws.antt =====
-- `match_tokens` and what the tokens of a pattern mean.
use Prim.Native.Char.{Char, code}
use Prim.Native.String.{String, [], ◌∷◌}
use mathlib.Core.Path.{◌≡◌, refl}
use mathlib.Core.Logic.{◌↔◌, inl, inr}
use mathlib.Core.Bool.{true}
use mathlib.Core.List.{List, [], ◌∷◌}
use native.Mathlib.Omega.{arith}
use mlflow_integration.Shared.Tests.{Bool-cases}
use mlflow_integration.Shared.Fnmatch.{
  Token, star, any_char, literal, class, tokens, accepts, match_tokens, fnmatchcase,
}

-- A star stands for any text, every other token for one character that it accepts.
pub data Matches : List Token → String → Type 0 where
  done : Matches [] ""
  skip : {ts : List Token} {s : String} → Matches ts s → Matches (star ∷ ts) s
  more :
      {ts : List Token} {s : String} (c : Char)
      → Matches (star ∷ ts) s
      → Matches (star ∷ ts) (c ∷ s)
  one :
      {ts : List Token} {s : String} (t : Token) (c : Char)
      → accepts t (code c) ≡ true
      → Matches ts s
      → Matches (t ∷ ts) (c ∷ s)

sound : (ts : List Token) (s : String) → match_tokens ts s ≡ true → Matches ts s
unfolding match_tokens
sound [] [] h = done
sound [] (c ∷ s) h = cc
sound (star ∷ ts) [] h = skip (sound ts "" h)
sound (any_char ∷ ts) [] h = cc
sound (literal a ∷ ts) [] h = cc
sound (class n m ∷ ts) [] h = cc
sound (star ∷ ts) (c ∷ s) h = elim (Bool-cases (match_tokens ts (c ∷ s))) [
  | inl here ↦ skip (sound ts (c ∷ s) here)
  | inr later ↦ more c (sound (star ∷ ts) s (ground arith))
]
sound (any_char ∷ ts) (c ∷ s) h = one any_char c (ground arith) (sound ts s (ground arith))
sound (literal a ∷ ts) (c ∷ s) h = one (literal a) c (ground arith) (sound ts s (ground arith))
sound (class n m ∷ ts) (c ∷ s) h = one (class n m) c (ground arith) (sound ts s (ground arith))

star-empty :
    (ts : List Token) (s : String) → match_tokens ts s ≡ true → match_tokens (star ∷ ts) s ≡ true
unfolding match_tokens
star-empty ts [] h = h
star-empty ts (c ∷ s) h = ground arith

complete : {ts : List Token} {s : String} → Matches ts s → match_tokens ts s ≡ true
unfolding match_tokens
complete done = refl
complete (skip {ts = ts} {s = s} m) = star-empty ts s (complete m)
complete (more {ts = ts} {s = s} c m) = ground (arith, complete m)
complete (one {ts = ts} {s = s} star c a m) = ground (arith, star-empty ts s (complete m))
complete (one any_char c a m) = ground (arith, complete m)
complete (one (literal l) c a m) = ground (arith, complete m)
complete (one (class n l) c a m) = ground (arith, complete m)

-- `fnmatchcase(name, pattern)` is true exactly when the name can be cut into pieces that the tokens
-- of the pattern stand for, one after the other.
pub fnmatchcase_iff :
    (name pattern : String) → (fnmatchcase name pattern ≡ true) ↔ Matches (tokens pattern) name
unfolding fnmatchcase
fnmatchcase_iff name pattern = (sound (tokens pattern) name, complete)
