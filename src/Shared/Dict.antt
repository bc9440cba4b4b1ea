-- ===== src/Shared/Dict.antt =====
-- Python's `dict`: an association list in insertion order. Assigning to a key that is there keeps
-- its place; a key that was popped comes back at the end.
use Prim.Native.Nat.{suc, ◌≤◌}
use mathlib.Core.Path.{◌≡◌, refl}
use mathlib.Core.Logic.{◌≢◌, ◌⊎◌, inl, inr}
use mathlib.Core.Bool.{true}
use mathlib.Core.Option.{Option, none, some}
use mathlib.Core.List.{List, [], ◌∷◌}
use native.Mathlib.Omega.{arith}
use mlflow_integration.Shared.Tests.{
  Eq, ◌==◌, if◌then◌else◌, if_intro, is_some, Bool-cases, All, length,
}

abbrev pub Dict {ℓ κ} : Type ℓ → Type κ → Type (ℓ ⊔ κ)
Dict K V = List (K × V)

module _ {ℓ κ} {K : Type ℓ} {V : Type κ} ⦃e : Eq K⦄ where
  -- d.get(k)
  unfoldable pub find : K → Dict K V → Option V
  find k [] = none
  find k ((j, v) ∷ d) = if j == k then some v else find k d

  -- d[k] = v
  unfoldable pub put : K → V → Dict K V → Dict K V
  put k v [] = (k, v) ∷ []
  put k v ((j, w) ∷ d) = if j == k then (j, v) ∷ d else (j, w) ∷ put k v d

  -- d.pop(k, None)
  unfoldable pub pop : K → Dict K V → Dict K V
  pop k [] = []
  pop k ((j, w) ∷ d) = let rest = pop k d in if j == k then rest else (j, w) ∷ rest

  pub find-put :
      (k j : K) (v : V) (d : Dict K V) → find j (put k v d) ≡ (if k == j then some v else find j d)
  unfolding find put
  find-put k j v [] = refl
  find-put k j v ((i, w) ∷ d) =
      ground (arith, e.equal_iff k j, e.equal_iff i k, e.equal_iff i j, find-put k j v d)

  -- A key stays where another one is put, and is there once it is put.
  pub find-put_kept :
      (k j : K) (v : V) (d : Dict K V)
      → is_some (find j d) ≡ true
      → is_some (find j (put k v d)) ≡ true
  find-put_kept k j v d h =
      rw find-put (if_intro (λ o. is_some o ≡ true) (k == j) (λ _. refl) (λ _. h))

  pub find-put_self : (k : K) (v : V) (d : Dict K V) → find k (put k v d) ≡ some v
  find-put_self k v d = rw (find-put, (e.equal_iff k k).1 refl) refl

  -- A key that is in the dict is its first key, or a key of the rest.
  pub find-cons :
      (k j : K) (v : V) (d : Dict K V)
      → is_some (find j ((k, v) ∷ d)) ≡ true
      → (k ≡ j) ⊎ (is_some (find j d) ≡ true)
  unfolding find
  find-cons k j v d h = elim (Bool-cases (k == j)) [
    | inl t ↦ inl ((e.equal_iff k j).0 t)
    | inr f ↦ inr (ground (arith, f, h))
  ]

  pub find-pop : (k j : K) (d : Dict K V) → find j (pop k d) ≡ (if k == j then none else find j d)
  unfolding find pop
  find-pop k j [] = ground arith
  find-pop k j ((i, w) ∷ d) =
      ground (arith, e.equal_iff k j, e.equal_iff i k, e.equal_iff i j, find-pop k j d)

  pub length-put : (k : K) (v : V) (d : Dict K V) → length (put k v d) ≤ suc (length d)
  unfolding put
  length-put k v [] = omega arith
  length-put k v ((i, w) ∷ d) = ground (arith, length-put k v d)

  pub length-pop : (k : K) (d : Dict K V) → length (pop k d) ≤ length d
  unfolding pop
  length-pop k [] = omega arith
  length-pop k ((i, w) ∷ d) = ground (arith, length-pop k d)

  -- No entry of `d` has the key `k`.
  abbrev pub IsFresh : K → Dict K V → Type ℓ
  IsFresh k d = All (λ entry. entry.0 ≢ k) d

  -- The keys of `d` differ from one another.
  abbrev pub IsDistinct : Dict K V → Type ℓ
  IsDistinct [] = Unit
  IsDistinct ((k, v) ∷ d) = IsFresh k d × IsDistinct d

  pub IsFresh-pop_self : (k : K) (d : Dict K V) → IsFresh k (pop k d)
  unfolding pop
  IsFresh-pop_self k [] = tt
  IsFresh-pop_self k ((i, w) ∷ d) = ground (arith, e.equal_iff i k, IsFresh-pop_self k d)

  pub IsFresh-pop : (k j : K) (d : Dict K V) → IsFresh j d → IsFresh j (pop k d)
  unfolding pop
  IsFresh-pop k j [] h = tt
  IsFresh-pop k j ((i, w) ∷ d) h = ground (arith, IsFresh-pop k j d h.1)

  IsFresh-put : (k j : K) (v : V) (d : Dict K V) → k ≢ j → IsFresh j d → IsFresh j (put k v d)
  unfolding put
  IsFresh-put k j v [] n h = (n, tt)
  IsFresh-put k j v ((i, w) ∷ d) n h = ground (arith, IsFresh-put k j v d n h.1)

  pub pop-IsDistinct : (k : K) (d : Dict K V) → IsDistinct d → IsDistinct (pop k d)
  unfolding pop
  pop-IsDistinct k [] h = tt
  pop-IsDistinct k ((i, w) ∷ d) h = ground (arith, pop-IsDistinct k d h.1, IsFresh-pop k i d h.0)

  pub put-IsDistinct : (k : K) (v : V) (d : Dict K V) → IsDistinct d → IsDistinct (put k v d)
  unfolding put
  put-IsDistinct k v [] h = (tt, tt)
  put-IsDistinct k v ((i, w) ∷ d) h =
      ground (arith, e.equal_iff i k, put-IsDistinct k v d h.1, IsFresh-put k i v d)

  pub find-IsFresh : (k : K) (d : Dict K V) → IsFresh k d → find k d ≡ none
  unfolding find
  find-IsFresh k [] h = refl
  find-IsFresh k ((i, w) ∷ d) h = ground (arith, e.equal_iff i k, find-IsFresh k d h.1)

module _ {ℓ κ μ} {K : Type ℓ} {V : Type κ} ⦃e : Eq K⦄ (P : K → V → Type μ) where
  -- `P` holds of every entry.
  abbrev pub Entries : Dict K V → Type μ
  Entries [] = Unit
  Entries ((k, v) ∷ d) = P k v × Entries d

  pub put-Entries : (k : K) (v : V) (d : Dict K V) → P k v → Entries d → Entries (put k v d)
  unfolding put
  put-Entries k v [] p h = (p, tt)
  put-Entries k v ((i, w) ∷ d) p h = ground (arith, e.equal_iff i k, put-Entries k v d p h.1)

  pub pop-Entries : (k : K) (d : Dict K V) → Entries d → Entries (pop k d)
  unfolding pop
  pop-Entries k [] h = tt
  pop-Entries k ((i, w) ∷ d) h = ground (arith, pop-Entries k d h.1)

  pub find-Entries : (k : K) (d : Dict K V) {v : V} → Entries d → find k d ≡ some v → P k v
  unfolding find
  find-Entries k [] h q = cc
  find-Entries k ((i, w) ∷ d) {v} h q =
      ground (arith, e.equal_iff i k, find-Entries k d {v = v} h.1)
