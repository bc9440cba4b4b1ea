-- ===== src/Shared/Text.antt =====
-- The methods of Python's `str` that the source calls. A `str` is a native `String`, taken apart
-- one character at a time.
use Prim.Native.Nat.{ℕ, zero, suc, ◌+◌, ◌-◌}
use Prim.Native.Char.{Char, code}
use Prim.Native.String
use Prim.Native.String.{String, [], ◌∷◌}
use mathlib.Core.Bool.{Bool, true, false, not, ◌&&◌, ◌||◌}
use mathlib.Core.Option.{Option, none, some}
use mathlib.Core.List.{List, [], ◌∷◌}
use mlflow_integration.Shared.Tests.{nat_eqb, leb, if◌then◌else◌, ◌==◌, string_eq}

-- `bool(s)`
unfoldable pub nonempty : String → Bool
nonempty [] = false
nonempty (c ∷ s) = true

-- `bool(s)` for a value that may be `None`
abbrev pub truthy : Option String → Bool
truthy none = false
truthy (some s) = nonempty s

-- s.startswith(t)
unfoldable pub starts_with : String → String → Bool
starts_with s [] = true
starts_with [] (d ∷ t) = false
starts_with (c ∷ s) (d ∷ t) = nat_eqb (code c) (code d) && starts_with s t

-- s.endswith(t)
unfoldable pub ends_with : String → String → Bool
ends_with [] t = t == ""
ends_with (c ∷ s) t = (c ∷ s) == t || ends_with s t

-- `t in s`
unfoldable pub has_infix : String → String → Bool
unfolding starts_with
has_infix [] t = starts_with "" t
has_infix (c ∷ s) t = starts_with (c ∷ s) t || has_infix s t

-- s[n:]
unfoldable pub drop : ℕ → String → String
drop zero s = s
drop (suc n) [] = ""
drop (suc n) (c ∷ s) = drop n s

-- len(s)
unfoldable pub size : String → ℕ
size [] = 0
size (c ∷ s) = suc (size s)

-- `str.isspace` of one character
unfoldable pub is_space : ℕ → Bool
is_space c =
    (leb 9 c && leb c 13)
    || (leb 28 c && leb c 32)
    || nat_eqb c 0x85
    || nat_eqb c 0xa0
    || nat_eqb c 0x1680
    || (leb 0x2000 c && leb c 0x200a)
    || nat_eqb c 0x2028
    || nat_eqb c 0x2029
    || nat_eqb c 0x205f
    || nat_eqb c 0x3000

unfoldable pub lstrip : String → String
unfolding is_space
lstrip [] = ""
lstrip (c ∷ s) = let rest = lstrip s in if is_space (code c) then rest else c ∷ s

unfoldable pub rstrip : String → String
unfolding is_space nonempty
rstrip [] = ""
rstrip (c ∷ s) =
    let rest = rstrip s in if is_space (code c) && not (nonempty rest) then "" else c ∷ rest

-- s.strip()
unfoldable pub strip : String → String
unfolding lstrip rstrip
strip s = rstrip (lstrip s)

-- s.rstrip("/")
unfoldable pub rstrip_slash : String → String
unfolding nonempty
rstrip_slash [] = ""
rstrip_slash (c ∷ s) =
    let rest = rstrip_slash s in
    if nat_eqb (code c) b'/' && not (nonempty rest) then "" else c ∷ rest

-- s.lower(), on the ASCII letters alone: the source compares what it lowers with ASCII words that
-- no other character's lower case spells.
unfoldable pub lower : String → List ℕ
lower [] = []
lower (c ∷ s) = (if leb b'A' (code c) && leb (code c) b'Z' then code c + 32 else code c) ∷ lower s

-- s.upper(), exact wherever the upper case spells an ASCII word: U+017F has the upper case `S`, and the
-- ligatures U+FB05 and U+FB06 have `ST`.
unfoldable pub upper : String → List ℕ
upper [] = []
upper (c ∷ s) =
    let rest = upper s in
    if leb b'a' (code c) && leb (code c) b'z'
    then (code c - 32) ∷ rest
    else if nat_eqb (code c) 0x17f
    then b'S' ∷ rest
    else if leb 0xfb05 (code c) && leb (code c) 0xfb06
    then b'S' ∷ b'T' ∷ rest
    else code c ∷ rest

-- Put a character before the first piece.
abbrev pub extend : Char → List String → List String
extend c [] = (c ∷ "") ∷ []
extend c (piece ∷ pieces) = (c ∷ piece) ∷ pieces

-- s.split(c), for a separator of one character
unfoldable pub split : ℕ → String → List String
split sep [] = "" ∷ []
split sep (c ∷ s) =
    let rest = split sep s in if nat_eqb (code c) sep then "" ∷ rest else extend c rest

-- c.join(pieces), for a separator of one character
unfoldable pub join : Char → List String → String
join sep [] = ""
join sep (piece ∷ []) = piece
join sep (piece ∷ piece' ∷ pieces) = String.◌++◌ piece (sep ∷ join sep (piece' ∷ pieces))
