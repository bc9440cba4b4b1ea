-- ===== src/Workspace/Globs/Merging.antt =====
-- The patterns of `_merge_globs`: which are in the result, and how often.
use mlflow_integration.Shared.{
  String, Bool, true, false, ◌||◌, Option, none, some, List, [], ◌∷◌, ◌++◌, if◌then◌else◌, ◌≡◌,
  refl, contains, string_eq, any, arith, Bool-cases, inl, inr, ◌==◌,
}
use mlflow_integration.Workspace.Globs.{
  Merge, add_pattern, add_patterns, add_lists, merge_globs, is_excluded,
}
use mlflow_integration.Shared.Fnmatch.{fnmatchcase}
use text.Mathlib.TextEquality.{eq_iff}

abbrev pub is_distinct : List String → Bool
is_distinct [] = true
is_distinct (x ∷ xs) = if contains xs x then false else is_distinct xs

contains-concat :
    (xs : List String) (x y : String) → contains (xs ++ x ∷ []) y ≡ (contains xs y || x == y)
contains-concat [] x y = ground arith
contains-concat (z ∷ xs) x y = ground (arith, contains-concat xs x y)

is_distinct-concat :
    (xs : List String) (x : String)
    → is_distinct xs ≡ true
    → contains xs x ≡ false
    → is_distinct (xs ++ x ∷ []) ≡ true
is_distinct-concat [] x h n = refl
is_distinct-concat (z ∷ xs) x h n =
    ground (arith, contains-concat xs x z, is_distinct-concat xs x, eq_iff z x, eq_iff x z)

-- `seen` holds what `merged` holds, and `merged` holds nothing twice.
record IsMerge (m : Merge) : Type 0 where
  pub same : (p : String) → contains m.seen p ≡ contains m.merged p
  pub distinct : is_distinct m.merged ≡ true

add_pattern-IsMerge : (m : Merge) (p : String) → IsMerge m → IsMerge (add_pattern m p)
unfolding add_pattern
add_pattern-IsMerge m p h = elim (Bool-cases (contains m.seen p)) [
  | inl old ↦ rw old h
  | inr new ↦ rw new (record {
    same = λ q. ground (arith, h.same q, contains-concat m.merged p q);
    distinct = ground (arith, h.distinct, h.same p, is_distinct-concat m.merged p);
  })
]

add_pattern-contains :
    (m : Merge) (p q : String)
    → IsMerge m
    → contains (add_pattern m p).merged q ≡ (contains m.merged q || p == q)
unfolding add_pattern
add_pattern-contains m p q h = ground (arith, h.same p, contains-concat m.merged p q, eq_iff p q)

add_patterns_lem :
    (m : Merge) (ps : List String)
    → IsMerge m
    → IsMerge (add_patterns m ps)
      × ((q : String)
          → contains (add_patterns m ps).merged q ≡ (contains m.merged q || contains ps q))
unfolding add_patterns
add_patterns_lem m [] h = (h, λ q. ground arith)
add_patterns_lem m (p ∷ ps) h =
    let (k, c) = add_patterns_lem (add_pattern m p) ps (add_pattern-IsMerge m p h) in
    (k, λ q. ground (arith, c q, add_pattern-contains m p q h))

-- A list of patterns that may be `None`.
abbrev pub mentions : Option (List String) → String → Bool
mentions none p = false
mentions (some ps) p = contains ps p

add_lists_lem :
    (m : Merge) (ls : List (Option (List String)))
    → IsMerge m
    → IsMerge (add_lists m ls)
      × ((q : String)
          → contains (add_lists m ls).merged q
            ≡ (contains m.merged q || any (λ l. mentions l q) ls))
unfolding add_lists
add_lists_lem m [] h = (h, λ q. ground arith)
add_lists_lem m (none ∷ ls) h = add_lists_lem m ls h
add_lists_lem m (some [] ∷ ls) h = add_lists_lem m ls h
add_lists_lem m (some (p ∷ ps) ∷ ls) h =
    let (j, c) = add_patterns_lem m (p ∷ ps) h in
    let (k, d) = add_lists_lem (add_patterns m (p ∷ ps)) ls j in (k, λ q. ground (arith, d q, c q))

empty-IsMerge : IsMerge (record { seen = []; merged = [] })
empty-IsMerge = record { same = λ p. refl; distinct = refl }

-- The merged globs hold exactly the patterns of the lists, and none of them twice.
pub merge_globs_lem :
    (ls : List (Option (List String)))
    → (is_distinct (merge_globs ls) ≡ true)
      × ((p : String) → contains (merge_globs ls) p ≡ any (λ l. mentions l p) ls)
unfolding merge_globs
merge_globs_lem ls =
    let (k, c) = add_lists_lem (record { seen = []; merged = [] }) ls empty-IsMerge in
    (k.distinct, λ p. c p)

any-contains :
    (f : String → Bool) (xs : List String) (p : String)
    → contains xs p ≡ true
    → f p ≡ true
    → any f xs ≡ true
any-contains f [] p h k = cc
any-contains f (x ∷ xs) p h k = ground (arith, eq_iff x p, any-contains f xs p)

-- More patterns exclude more names.
pub is_excluded_mono :
    (xs ys : List String) (name : String)
    → ((p : String) → contains xs p ≡ true → contains ys p ≡ true)
    → is_excluded xs name ≡ true
    → is_excluded ys name ≡ true
unfolding is_excluded
is_excluded_mono [] ys name h e = cc
is_excluded_mono (x ∷ xs) ys name h e = elim (Bool-cases (fnmatchcase name x)) [
  | inl hit ↦ any-contains (fnmatchcase name) ys x (h x (ground (arith, eq_iff x x))) hit
  | inr miss ↦ is_excluded_mono xs ys name (λ p m. h p (ground (arith, m))) (ground arith)
]
