-- ===== src/Auth/Compiler/Coverage.antt =====
-- The tables that `_compile_authorization_rules` builds, and what is registered in them.
use mlflow_integration.Shared.{
  String, Bool, true, false, ◌&&◌, Option, none, some, List, [], ◌∷◌, ◌++◌, if_intro, is_some, all,
  All, Some, string_eq, ◌≡◌, refl, ap, subst, ◌⊎◌, inl, inr, arith, Bool-cases,
}
use mlflow_integration.Shared.Dict.{find, find-put_kept, find-put_self, find-cons}
use mlflow_integration.Auth.Rules.{AuthorizationRule}
use mlflow_integration.Auth.Tables.{Route, route_eq, PathTable}
use mlflow_integration.Auth.Templates.{re_compile_path}
use mlflow_integration.Auth.Compiler.{
  RegexRule, Compiled, is_templated, add_rules, add_methods, routes_of, has_path_rules, missing,
  by_handler, add_path_rules,
}

-- Rules for the path, as it is registered, and the method: an exact entry, or one with the pattern of the path.
abbrev pub IsEntry : String → String → RegexRule → Type 0
IsEntry path method entry = (entry.pattern ≡ re_compile_path path) × (entry.verb ≡ method)

abbrev pub HasEntry : Compiled → String → String → Type 0
HasEntry c path method =
    (is_templated path ≡ false → is_some (find (path, method) c.exact) ≡ true)
    × (is_templated path ≡ true → Some (IsEntry path method) c.regex)

-- Nothing that was registered is lost, and no gap is closed.
pub record Extends (c d : Compiled) : Type 0 where
  pub entries : (path method : String) → HasEntry c path method → HasEntry d path method
  pub gaps : d.uncovered ≡ [] → c.uncovered ≡ []

pub Extends-refl : (c : Compiled) → Extends c c
Extends-refl c = record { entries = λ path method h. h; gaps = λ h. h }

pub Extends-trans : {c d f : Compiled} → Extends c d → Extends d f → Extends c f
Extends-trans h k = record {
  entries = λ path method g. k.entries path method (h.entries path method g);
  gaps = λ g. h.gaps (k.gaps g);
}

Some-append : {A : Type 0} (P : A → Type 0) (xs ys : List A) → Some P xs → Some P (xs ++ ys)
Some-append P [] ys h = absurd h
Some-append P (x ∷ xs) ys (inl h) = inl h
Some-append P (x ∷ xs) ys (inr h) = inr (Some-append P xs ys h)

Some-last : {A : Type 0} (P : A → Type 0) (xs : List A) (y : A) → P y → Some P (xs ++ y ∷ [])
Some-last P [] y h = inl h
Some-last P (x ∷ xs) y h = inr (Some-last P xs y h)

and-cases : (a b : Bool) → (a && b) ≡ true → (a ≡ true) × (b ≡ true)
and-cases true b e = (refl, e)
and-cases false b e = cc

pub append-eq-nil : {A : Type 0} (xs ys : List A) → xs ++ ys ≡ [] → (xs ≡ []) × (ys ≡ [])
append-eq-nil [] ys h = (refl, h)
append-eq-nil (x ∷ xs) ys h = cc

module _ (path method : String) (rules : List AuthorizationRule) (c : Compiled) where
  add_rules-Extends : Extends c (add_rules path method rules c)
  unfolding add_rules
  add_rules-Extends =
      if_intro (Extends c) (is_templated path)
        (λ _. record {
          entries = λ p m h. (h.0, λ t. Some-append (IsEntry p m) c.regex _ (h.1 t));
          gaps = λ h. h;
        })
        (λ _. record {
          entries =
              λ p m h. ((λ t. find-put_kept (path, method) (p, m) rules c.exact (h.0 t)), h.1);
          gaps = λ h. h;
        })

  add_rules-HasEntry : HasEntry (add_rules path method rules c) path method
  unfolding add_rules
  add_rules-HasEntry =
      if_intro (λ d. HasEntry d path method) (is_templated path)
        (λ t. (
          (λ f. cc),
          λ _.
              Some-last (IsEntry path method) c.regex
                (record { pattern = re_compile_path path; verb = method; rules = rules })
                (refl, refl),
        ))
        (λ f. ((λ _. ap is_some (find-put_self (path, method) rules c.exact)), λ t. cc))

add_methods-Extends :
    (path : String) (rules : List AuthorizationRule) (methods : List String) (c : Compiled)
    → Extends c (add_methods path rules methods c)
unfolding add_methods
add_methods-Extends path rules [] c = Extends-refl c
add_methods-Extends path rules (method ∷ methods) c =
    Extends-trans (add_rules-Extends path method rules c)
      (add_methods-Extends path rules methods (add_rules path method rules c))

add_methods-HasEntry :
    (path : String) (rules : List AuthorizationRule) (methods : List String) (c : Compiled)
    → All (HasEntry (add_methods path rules methods c) path) methods
unfolding add_methods
add_methods-HasEntry path rules [] c = tt
add_methods-HasEntry path rules (method ∷ methods) c = (
  (add_methods-Extends path rules methods (add_rules path method rules c)).entries path method
      (add_rules-HasEntry path method rules c),
  add_methods-HasEntry path rules methods (add_rules path method rules c),
)

pub add_path_rules-Extends : (table : PathTable) (c : Compiled) → Extends c (add_path_rules table c)
unfolding add_path_rules
add_path_rules-Extends [] c = Extends-refl c
add_path_rules-Extends (((path, method), rules) ∷ table) c =
    Extends-trans (add_rules-Extends path method rules c)
      (add_path_rules-Extends table (add_rules path method rules c))

pub add_path_rules-HasEntry :
    (table : PathTable) (c : Compiled) (path method : String)
    → has_path_rules table (path, method) ≡ true
    → HasEntry (add_path_rules table c) path method
unfolding add_path_rules find
add_path_rules-HasEntry [] c path method h = cc
add_path_rules-HasEntry (((p, m), rules) ∷ table) c path method h =
    by_key (find-cons (p, m) (path, method) rules table h)
      (add_path_rules-HasEntry table (add_rules p m rules c) path method)
  where
    by_key :
        (◌≡◌ {A = Route} (p, m) (path, method)) ⊎ (has_path_rules table (path, method) ≡ true)
        → (has_path_rules table (path, method) ≡ true
            → HasEntry (add_path_rules table (add_rules p m rules c)) path method)
        → HasEntry (add_path_rules table (add_rules p m rules c)) path method
    by_key (inl t) rest =
        subst
          (λ (route : Route).
            HasEntry (add_path_rules table (add_rules p m rules c)) route.0 route.1)
          t
          ((add_path_rules-Extends table (add_rules p m rules c)).entries p m
            (add_rules-HasEntry p m rules c))
    by_key (inr r) rest = rest r

module _ (path_rules : PathTable) where
  -- An entry for each method, already or from the table of paths.
  abbrev pub WillHave : Compiled → String → List String → Type 0
  WillHave c path methods =
      All (λ method. HasEntry c path method ⊎ (has_path_rules path_rules (path, method) ≡ true))
        methods

  all-WillHave :
      (c : Compiled) (path : String) (methods : List String)
      → all (λ method. has_path_rules path_rules (path, method)) methods ≡ true
      → WillHave c path methods
  all-WillHave c path [] h = tt
  all-WillHave c path (method ∷ methods) h =
      let (a, b) = and-cases (has_path_rules path_rules (path, method)) _ h in
      (inr a, all-WillHave c path methods b)

  All-inl :
      (c : Compiled) (path : String) (methods : List String)
      → All (HasEntry c path) methods
      → WillHave c path methods
  All-inl c path [] h = tt
  All-inl c path (method ∷ methods) h = (inl h.0, All-inl c path methods h.1)

  no_routes :
      (c : Compiled) (path : String) (methods : List String)
      → routes_of path methods ≡ []
      → WillHave c path methods
  no_routes c path [] h = tt
  no_routes c path (method ∷ methods) h = cc

  pub no_missing :
      (c : Compiled) (path : String) (methods : List String)
      → missing path_rules (routes_of path methods) ≡ []
      → WillHave c path methods
  unfolding missing
  no_missing c path [] h = tt
  no_missing c path (method ∷ methods) h =
      by_method (Bool-cases (has_path_rules path_rules (path, method))) (no_missing c path methods)
    where
      by_method :
          (has_path_rules path_rules (path, method) ≡ true)
            ⊎ (has_path_rules path_rules (path, method) ≡ false)
          → (missing path_rules (routes_of path methods) ≡ [] → WillHave c path methods)
          → WillHave c path (method ∷ methods)
      by_method (inl t) rest = (inr t, rest (ground (arith, t, h)))
      by_method (inr f) rest = absurd (ground (arith, f, h))

  pub by_handler-Extends :
      (path : String) (methods : List String) (rules : Option (List AuthorizationRule))
      (c : Compiled)
      → Extends c (by_handler path_rules path methods rules c)
  unfolding by_handler
  by_handler-Extends path methods none c =
      if_intro (Extends c) (all (λ method. has_path_rules path_rules (path, method)) methods)
        (λ _. Extends-refl c)
        (λ _. record { entries = λ p m h. h; gaps = λ h. (append-eq-nil c.uncovered _ h).0 })
  by_handler-Extends path methods (some rules) c = add_methods-Extends path rules methods c

  pub by_handler-WillHave :
      (path : String) (methods : List String) (rules : Option (List AuthorizationRule))
      (c : Compiled)
      → (by_handler path_rules path methods rules c).uncovered ≡ []
      → WillHave (by_handler path_rules path methods rules c) path methods
  unfolding by_handler
  by_handler-WillHave path methods none c h =
      if_intro (λ d. d.uncovered ≡ [] → WillHave d path methods)
        (all (λ method. has_path_rules path_rules (path, method)) methods)
        (λ t h. all-WillHave c path methods t)
        (λ _ h.
          no_routes (record c { uncovered = c.uncovered ++ routes_of path methods }) path methods
            (append-eq-nil c.uncovered (routes_of path methods) h).1)
        h
  by_handler-WillHave path methods (some rules) c h =
      All-inl (add_methods path rules methods c) path methods
        (add_methods-HasEntry path rules methods c)
