-- ===== src/Workspace/Namespaces/Reads.antt =====
-- `get_namespace`: what a reader gets, and the answer `None`.
use mlflow_integration.Shared.{
  String, true, false, Option, none, some, List, [], ◌∷◌, ℕ, string_eq, ◌==◌, Outcome, ok, raised,
  mlflow, api, http, ◌≡◌, refl, subst, Ensures, ok_injective, if_intro, Ensures-bind, Bool-cases,
  All, ◌≢◌, inl, inr,
}
use mlflow_integration.Shared.Text.{nonempty}
use mlflow_integration.Shared.Dict.{find, find-Entries}
use text.Mathlib.TextEquality.{eq_iff}
use mlflow_integration.Workspace.Manifest.{Manifest}
use mlflow_integration.Workspace.Globs.{is_excluded}
use mlflow_integration.Workspace.Namespaces.{
  NamespaceInfo, NamespaceCache, usable, metadata_name, named_info, extract_info, pick_named,
  cached_or_verified, first_named, verify_namespace, get_namespace, wait_until_ready, NamespaceApi,
  status_code,
}
use mlflow_integration.Workspace.Namespaces.Invariant.{
  usable_lem, IsWorkspace, IsValid, extract_info-IsWorkspace,
}
use mathlib.Core.Option.{some-injective}
use mathlib.Core.Logic.{◌↔◌, ◌⊎◌}

-- Whatever information there is, it is of a namespace of that name.
abbrev pub IsFound : List String → String → Option NamespaceInfo → Type 0
IsFound globs name r = (info : NamespaceInfo) → r ≡ some info → IsWorkspace globs name info

IsFound-some :
    (globs : List String) (name : String) (info : NamespaceInfo)
    → IsWorkspace globs name info
    → IsFound globs name (some info)
IsFound-some globs name info w = λ i e. subst (IsWorkspace globs name) (some-injective info i e) w

pick_named-IsFound :
    (globs : List String) (name : String) (o later : Option NamespaceInfo)
    → ((i : NamespaceInfo) → o ≡ some i → IsWorkspace globs i.name i)
    → IsFound globs name later
    → IsFound globs name (pick_named name o later)
unfolding pick_named
pick_named-IsFound globs name none later w k = k
pick_named-IsFound globs name (some i) later w k =
    if_intro (IsFound globs name) (i.name == name)
      (λ same.
        IsFound-some globs name i
          (subst (λ key. IsWorkspace globs key i) ((eq_iff i.name name).0 same) (w i refl)))
      (λ _. k)

first_named-IsFound :
    (globs : List String) (name : String) (items : List Manifest)
    → IsFound globs name (first_named globs name items)
unfolding first_named
first_named-IsFound globs name [] = λ i e. cc
first_named-IsFound globs name (ns ∷ rest) =
    pick_named-IsFound globs name (extract_info globs ns) (first_named globs name rest)
      (λ i e. (extract_info-IsWorkspace globs ns i e).0) (first_named-IsFound globs name rest)

verify_namespace-IsFound :
    (globs : List String) (name : String) (answer : Outcome (List Manifest))
    → Ensures (IsFound globs name) (verify_namespace globs name answer)
unfolding verify_namespace
verify_namespace-IsFound globs name (ok items) = first_named-IsFound globs name items
verify_namespace-IsFound globs name (raised (api status)) = tt
verify_namespace-IsFound globs name (raised http) = tt
verify_namespace-IsFound globs name (raised _) = tt

cached_or_verified-IsFound :
    (list : NamespaceApi) (name : String) (c : NamespaceCache) (o : Option NamespaceInfo)
    → IsFound c.exclude_globs name o
    → Ensures (IsFound c.exclude_globs name) (cached_or_verified list name c o)
unfolding cached_or_verified
cached_or_verified-IsFound list name c (some info) h = h
cached_or_verified-IsFound list name c none h =
    if_intro (Ensures (IsFound c.exclude_globs name)) (is_excluded c.exclude_globs name) (λ _. h)
      (λ _. verify_namespace-IsFound c.exclude_globs name (list name c.label_selector))

-- On a cache that satisfies the invariant, the information that `get_namespace` returns is that of a
-- namespace of the name it was asked for, which no glob excludes, whether it comes from the cache or
-- from the API.
pub get_namespace-IsWorkspace :
    {globs : List String} (list : NamespaceApi) (name : String) (c : NamespaceCache)
    → IsValid globs c
    → Ensures (IsFound c.exclude_globs name) (get_namespace list name c)
unfolding get_namespace
get_namespace-IsWorkspace list name c v =
    Ensures-bind (λ _. Unit {0}) (IsFound c.exclude_globs name) (wait_until_ready c)
      (λ _. cached_or_verified list name c (find name c.namespaces)) (ready_or_not c)
      (λ _ _.
        cached_or_verified-IsFound list name c (find name c.namespaces)
          (λ i e. find-Entries (IsWorkspace c.exclude_globs) name c.namespaces v.entries e))
  where
    ready_or_not : (d : NamespaceCache) → Ensures (λ _. Unit {0}) (wait_until_ready d)
    ready_or_not d = if_intro (Ensures (λ _. Unit {0})) d.ready (λ _. tt) (λ _. tt)

-- The item has that name, and the name is not empty.
abbrev pub HasName : String → Manifest → Type 0
HasName name ns = (metadata_name ns.metadata ≡ some name) × (nonempty name ≡ true)

usable-some : (name : String) → nonempty name ≡ true → usable (some name) ≡ some name
usable-some name h = unfold usable in rw h refl

module _ (globs : List String) (name : String) where
  pick_named-none : (o later : Option NamespaceInfo) → pick_named name o later ≡ none → later ≡ none
  unfolding pick_named
  pick_named-none none later h = h
  pick_named-none (some i) later h =
      if_intro (λ p. p ≡ none → later ≡ none) (i.name == name) (λ _ e. cc) (λ _ e. e) h

  named-not-none :
      (ns : Manifest) (later : Option NamespaceInfo)
      → is_excluded globs name ≡ false
      → HasName name ns
      → pick_named name (extract_info globs ns) later ≢ none
  unfolding pick_named extract_info named_info
  named-not-none ns later shown (named, full) =
      rw (named, usable-some name full, shown, (eq_iff name name).1 refl) (λ e. cc)

  missing-none :
      (ns : Manifest) (o later : Option NamespaceInfo)
      → extract_info globs ns ≡ o
      → ¬ HasName name ns
      → later ≡ none
      → pick_named name o later ≡ none
  unfolding pick_named
  missing-none ns none later e other h = h
  missing-none ns (some i) later e other h =
      if_intro (λ p. p ≡ none) (i.name == name)
        (λ same.
          let found =
            usable_lem (metadata_name ns.metadata) (extract_info-IsWorkspace globs ns i e).1 in
          let key : i.name ≡ name = (eq_iff i.name name).0 same in
          absurd (
            other (
              subst (λ n. (metadata_name ns.metadata ≡ some n) × (nonempty n ≡ true)) key
                (found.1, found.0))))
        (λ _. h)

  first_named-none :
      (items : List Manifest)
      → is_excluded globs name ≡ false
      → first_named globs name items ≡ none
      → All (λ ns. ¬ HasName name ns) items
  unfolding first_named
  first_named-none [] shown h = tt
  first_named-none (ns ∷ rest) shown h = (
    λ named. named-not-none ns (first_named globs name rest) shown named h,
    first_named-none rest shown (pick_named-none (extract_info globs ns) _ h),
  )

  none-first_named :
      (items : List Manifest)
      → All (λ ns. ¬ HasName name ns) items
      → first_named globs name items ≡ none
  unfolding first_named
  none-first_named [] h = refl
  none-first_named (ns ∷ rest) (other, h) =
      missing-none ns (extract_info globs ns) (first_named globs name rest) refl other
        (none-first_named rest h)

module _ (list : NamespaceApi) (name : String) (c : NamespaceCache) where
  -- Why there is no such namespace: its name is excluded, or the API returned a list without an item of the name.
  abbrev pub IsAbsent : Type 0
  IsAbsent =
      (is_excluded c.exclude_globs name ≡ true)
      ⊎ ((items : List Manifest) × (list name c.label_selector ≡ ok items)
          × All (λ ns. ¬ HasName name ns) items)

  verified_absent :
      (answer : Outcome (List Manifest))
      → is_excluded c.exclude_globs name ≡ false
      → verify_namespace c.exclude_globs name answer ≡ ok none
      → (items : List Manifest) × (answer ≡ ok items) × All (λ ns. ¬ HasName name ns) items
  unfolding verify_namespace
  verified_absent (ok items) shown h =
      (items, refl, first_named-none c.exclude_globs name items shown (ok_injective h))
  verified_absent (raised (api status)) shown h = cc
  verified_absent (raised http) shown h = cc
  verified_absent (raised _) shown h = cc

  absent_reason :
      (o : Option NamespaceInfo)
      → cached_or_verified list name c o ≡ ok none
      → (o ≡ none) × IsAbsent
  unfolding cached_or_verified
  absent_reason (some info) h = cc
  absent_reason none h = elim (Bool-cases (is_excluded c.exclude_globs name)) [
    | inl hidden ↦ (refl, inl hidden)
    | inr shown ↦ (refl, inr (verified_absent (list name c.label_selector) shown (rw shown at h)))
  ]

  absent_answer : IsAbsent → cached_or_verified list name c none ≡ ok none
  unfolding cached_or_verified verify_namespace
  absent_answer (inl hidden) = rw hidden
  absent_answer (inr (items, listed, without)) =
      elim (Bool-cases (is_excluded c.exclude_globs name)) [
        | inl hidden ↦ rw hidden
        | inr shown ↦ rw (shown, listed, none-first_named c.exclude_globs name items without)
      ]

  -- On a ready cache, `get_namespace` answers `None` exactly when the name is not cached and is either
  -- excluded by a glob or the name of no item of a list that the API did return; an empty name is the
  -- name of no item.
  pub get_namespace-absent_iff :
      c.ready ≡ true
      → (get_namespace list name c ≡ ok none) ↔ ((find name c.namespaces ≡ none) × IsAbsent)
  unfolding get_namespace wait_until_ready
  get_namespace-absent_iff r = (
    λ h. absent_reason (find name c.namespaces) (rw r at h),
    λ (miss, why). rw (r, miss) (absent_answer why),
  )

  -- For a name that is neither cached nor excluded, an `ApiException` is raised on as an
  -- `MlflowException` with the code of its HTTP status.
  pub get_namespace-raises :
      (status : ℕ)
      → c.ready ≡ true
      → find name c.namespaces ≡ none
      → is_excluded c.exclude_globs name ≡ false
      → list name c.label_selector ≡ raised (api status)
      → get_namespace list name c ≡ raised (mlflow (status_code status))
  unfolding get_namespace wait_until_ready cached_or_verified verify_namespace
  get_namespace-raises status r miss shown fails = rw (r, miss, shown, fails)
