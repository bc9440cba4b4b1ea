-- ===== src/Shared/Splitting.antt =====
-- `split` and `join` of `Text`.
use Prim.Native.Nat.{ℕ}
use Prim.Native.Char.{Char, code}
use Prim.Native.String
use Prim.Native.String.{String, [], ◌∷◌}
use mathlib.Core.Path.{◌≡◌, refl, ap}
use mathlib.Core.Bool.{true, false}
use mathlib.Core.List.{List, [], ◌∷◌}
use native.Mathlib.Omega.{arith}
use text.Mathlib.TextLemmas.{nil-append, cons-append}
use mlflow_integration.Shared.Tests.{nat_eqb, All, if_intro}
use mlflow_integration.Shared.Text.{split, join, extend, starts_with}

-- The separator does not stand in the text.
abbrev pub Lacks : ℕ → String → Type 0
Lacks sep [] = Unit
Lacks sep (c ∷ s) = (nat_eqb (code c) sep ≡ false) × Lacks sep s

extend-Lacks :
    (sep : ℕ) (c : Char) (pieces : List String)
    → nat_eqb (code c) sep ≡ false
    → All (Lacks sep) pieces
    → All (Lacks sep) (extend c pieces)
extend-Lacks sep c [] n h = ((n, tt), tt)
extend-Lacks sep c (piece ∷ pieces) n h = ((n, h.0), h.1)

-- No piece holds the separator.
pub split-Lacks : (sep : ℕ) (s : String) → All (Lacks sep) (split sep s)
unfolding split
split-Lacks sep [] = (tt, tt)
split-Lacks sep (c ∷ s) =
    if_intro (All (Lacks sep)) (nat_eqb (code c) sep) (λ _. (tt, split-Lacks sep s))
      (λ n. extend-Lacks sep c (split sep s) n (split-Lacks sep s))

split_piece : (sep : ℕ) (p : String) → Lacks sep p → split sep p ≡ p ∷ []
unfolding split
split_piece sep [] h = refl
split_piece sep (c ∷ p) h = rw (h.0, split_piece sep p h.1)

pub split-nil : (sep : ℕ) → split sep "" ≡ "" ∷ []
unfolding split
split-nil sep = refl

split-cons_other :
    (sep : ℕ) (c : Char) (s : String)
    → nat_eqb (code c) sep ≡ false
    → split sep (c ∷ s) ≡ extend c (split sep s)
unfolding split
split-cons_other sep c s h = rw h

split-cons_sep :
    (sep : ℕ) (c : Char) (s : String)
    → nat_eqb (code c) sep ≡ true
    → split sep (c ∷ s) ≡ "" ∷ split sep s
unfolding split
split-cons_sep sep c s h = rw h

split_first :
    (sep : ℕ) (p : String) (d : Char) (s : String)
    → Lacks sep p
    → nat_eqb (code d) sep ≡ true
    → split sep (String.◌++◌ p (d ∷ s)) ≡ p ∷ split sep s
split_first sep [] d s h e = rw nil-append (split-cons_sep sep d s e)
split_first sep (c ∷ p) d s h e =
    rw (cons-append, split-cons_other sep c _ h.0, split_first sep p d s h.1 e)

-- Splitting what was joined gives the pieces back, if no piece holds the separator.
pub split-join :
    (sep : ℕ) (d : Char) (p : String) (ps : List String)
    → nat_eqb (code d) sep ≡ true
    → All (Lacks sep) (p ∷ ps)
    → split sep (join d (p ∷ ps)) ≡ p ∷ ps
unfolding join
split-join sep d p [] e h = split_piece sep p h.0
split-join sep d p (q ∷ ps) e h =
    rw (split_first sep p d (join d (q ∷ ps)) h.0 e) (ap (◌∷◌ p) (split-join sep d q ps e h.1))

starts_with-cons : (c : Char) (s t : String) → starts_with (c ∷ s) (c ∷ t) ≡ starts_with s t
unfolding starts_with
starts_with-cons c s t = ground arith

pub starts_with-nil : (s : String) → starts_with s "" ≡ true
unfolding starts_with
starts_with-nil [] = refl
starts_with-nil (c ∷ s) = refl

-- A text starts with what was put before it.
pub starts_with-append : (s t : String) → starts_with (String.◌++◌ s t) s ≡ true
starts_with-append [] t = starts_with-nil (String.◌++◌ "" t)
starts_with-append (c ∷ s) t = rw (cons-append, starts_with-cons) (starts_with-append s t)
