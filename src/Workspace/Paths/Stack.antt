-- ===== src/Workspace/Paths/Stack.antt =====
-- The list of segments that `normpath` keeps, for a relative path.
use mlflow_integration.Shared.{
  String, true, false, ◌&&◌, ◌||◌, not, Option, none, some, List, [], ◌∷◌, string_eq, ◌==◌, ◌≡◌,
  ◌≢◌, refl, arith, eq_iff, All, if_intro, Bool-cases, inl, inr, ◌⊎◌,
}
use mlflow_integration.Shared.Splitting.{Lacks}
use mlflow_integration.Workspace.Paths.{top_is_up, is_empty, push_comp, push_comps}
use mathlib.Core.List.{reverse, tail, reverse_aux}

-- A segment that names an entry of the directory before it.
abbrev pub IsPlain : String → Type 0
IsPlain seg = (seg ≢ "") × (seg ≢ ".") × (seg ≢ "..")

-- What a segment on the stack of `normpath` is: with no slash, and not "" or ".".
abbrev pub IsSegment : String → Type 0
IsSegment seg = Lacks b'/' seg × (seg ≢ "") × (seg ≢ ".")

-- A segment ".." stands on ".." alone.
abbrev pub IsStack : List String → Type 0
IsStack [] = Unit
IsStack (seg ∷ rest) = IsSegment seg × IsStack rest × (seg ≡ ".." → All (λ s. s ≡ "..") rest)

only_up : (stack : List String) → IsStack stack → top_is_up stack ≡ true → All (λ s. s ≡ "..") stack
unfolding top_is_up
only_up [] h t = tt
only_up (seg ∷ rest) h t = ((eq_iff seg "..").0 t, h.2 ((eq_iff seg "..").0 t))

tail-IsStack : (stack : List String) → IsStack stack → IsStack (tail stack)
tail-IsStack [] h = tt
tail-IsStack (seg ∷ rest) h = h.1

may_stay :
    (stack : List String) (comp : String)
    → IsStack stack
    → (not (comp == "..") || (not false && is_empty stack) || top_is_up stack) ≡ true
    → comp ≡ ".."
    → All (λ s. s ≡ "..") stack
may_stay [] comp h keep up = tt
may_stay (seg ∷ rest) comp h keep up = only_up (seg ∷ rest) h (ground (arith, eq_iff comp ".."))

-- Relative paths: one round of the loop.
push_comp-IsStack :
    (stack : List String) (comp : String)
    → Lacks b'/' comp
    → IsStack stack
    → IsStack (push_comp false stack comp)
unfolding push_comp
push_comp-IsStack stack comp l h =
    if_intro IsStack (comp == "" || comp == ".") (λ _. h)
      (λ solid.
        if_intro IsStack (not (comp == "..") || (not false && is_empty stack) || top_is_up stack)
          (λ keep. (
            (l, ground (arith, eq_iff comp ""), ground (arith, eq_iff comp ".")),
            h,
            may_stay stack comp h keep,
          ))
          (λ _. tail-IsStack stack h))

pub push_comps-IsStack :
    (stack comps : List String)
    → All (Lacks b'/') comps
    → IsStack stack
    → IsStack (push_comps false stack comps)
unfolding push_comps
push_comps-IsStack stack [] l h = h
push_comps-IsStack stack (comp ∷ comps) l h =
    push_comps-IsStack (push_comp false stack comp) comps l.1 (push_comp-IsStack stack comp l.0 h)

bottom : List String → Option String
bottom [] = none
bottom (seg ∷ []) = some seg
bottom (seg ∷ seg' ∷ rest) = bottom (seg' ∷ rest)

reverse-bottom :
    (seg : String) (stack acc : List String)
    → (b : String) × (bs : List String) × (bottom (seg ∷ stack) ≡ some b)
      × (reverse_aux (seg ∷ stack) acc ≡ b ∷ bs)
unfolding bottom
reverse-bottom seg [] acc = (seg, acc, refl, refl)
reverse-bottom seg (seg' ∷ stack) acc = reverse-bottom seg' stack (seg ∷ acc)

over_kept :
    (seg seg' : String) (rest : List String)
    → IsStack (seg ∷ seg' ∷ rest)
    → All IsPlain (seg' ∷ rest)
    → All IsPlain (seg ∷ seg' ∷ rest)
over_kept seg seg' rest h k = ((h.0.1, h.0.2, λ up. k.0.2 (h.2 up).0), k)

-- A stack holds plain segments alone, unless the path begins with "..".
by_bottom :
    (seg : String) (stack : List String)
    → IsStack (seg ∷ stack)
    → All IsPlain (seg ∷ stack) ⊎ (bottom (seg ∷ stack) ≡ some "..")
unfolding bottom
by_bottom seg [] h = elim (Bool-cases (seg == "..")) [
  | inl up ↦ inr (ground (arith, eq_iff seg ".."))
  | inr down ↦ inl ((h.0.1, h.0.2, ground (arith, eq_iff seg "..")), tt)
]
by_bottom seg (seg' ∷ stack) h = elim (by_bottom seg' stack h.1) [
  | inl plain ↦ inl (over_kept seg seg' stack h plain)
  | inr up ↦ inr up
]

All-reverse_aux :
    (P : String → Type 0) (xs ys : List String) → All P xs → All P ys → All P (reverse_aux xs ys)
All-reverse_aux P [] ys h k = k
All-reverse_aux P (x ∷ xs) ys h k = All-reverse_aux P xs (x ∷ ys) h.1 (h.0, k)

lacking : (stack : List String) → IsStack stack → All (Lacks b'/') stack
lacking [] h = tt
lacking (seg ∷ rest) h = (h.0.0, lacking rest h.1)

-- What is known of the segments that `normpath` joins.
pub record IsNormal (comps : List String) : Type 0 where
  pub lacks : All (Lacks b'/') comps
  pub plain : (comps ≡ []) ⊎ (All IsPlain comps) ⊎ ((rest : List String) × (comps ≡ ".." ∷ rest))

pub reverse-IsNormal : (stack : List String) → IsStack stack → IsNormal (reverse stack)
reverse-IsNormal [] h = record { lacks = tt; plain = inl refl }
reverse-IsNormal (seg ∷ stack) h = record {
  lacks = All-reverse_aux (Lacks b'/') (seg ∷ stack) [] (lacking (seg ∷ stack) h) tt;
  plain = elim (by_bottom seg stack h) [
    | inl plain ↦ inr (inl (All-reverse_aux IsPlain (seg ∷ stack) [] plain tt))
    | inr up ↦ let (b, bs, low, eq) = reverse-bottom seg stack [] in inr (inr (bs, cc))
  ];
}
