-- ===== src/Auth/Fastapi/Validation.antt =====
-- The FastAPI routes, the check on them, and the compiled rules.
use mlflow_integration.Shared.{
  String, Bool, true, false, ◌||◌, not, Option, List, [], ◌∷◌, if_intro, contains, string_eq, Eq,
  All, ok, raised, mlflow, internal_error, ◌≡◌, refl, ap, subst, ◌↔◌, ◌⊎◌, inl, inr, arith,
}
use mlflow_integration.Shared.Text.{nonempty}
use mlflow_integration.Auth.Credentials.{is_unprotected_path}
use mlflow_integration.Auth.Tables.{Route, route_eq, RequestTable, PathTable}
use mlflow_integration.Auth.Compiler.{
  Compiled, Endpoint, canonical, has_path_rules, add_path_rules, compile_authorization_rules,
}
use mlflow_integration.Auth.Compiler.Coverage.{HasEntry, append-eq-nil, add_path_rules-HasEntry}
use mlflow_integration.Auth.Compiler.Serving.{covered-eq}
use mlflow_integration.Auth.Fastapi.{
  FastapiRoute, fastapi_path_to_template, missing_methods, missing_of, all_missing, reported,
  validate_fastapi_route_authorization,
}

-- A method that the check leaves out, or one with rules for the template.
abbrev pub IsAllowedFor : PathTable → String → String → Type 0
IsAllowedFor path_rules template_path method =
    (contains ("HEAD" ∷ "OPTIONS" ∷ []) method ≡ true)
    ⊎ (has_path_rules path_rules (template_path, method) ≡ true)

not-true : (a : Bool) → not a ≡ false → a ≡ true
not-true true h = refl
not-true false h = cc

neither : (a b : Bool) → (not a || b) ≡ false → (a ≡ true) × (b ≡ false)
neither true b h = (refl, h)
neither false b h = cc

abbrev Empty : List Route → Type 0
Empty missing = missing ≡ []

module _ (static_prefix : Option String) (path_rules : PathTable) where
  -- A FastAPI route whose canonical path is not empty, and protected.
  abbrev pub IsGuarded : FastapiRoute → Type 0
  IsGuarded route =
      (route.is_api_route ≡ true)
      × (nonempty (canonical static_prefix route.path) ≡ true)
      × (is_unprotected_path (canonical static_prefix route.path) ≡ false)

  abbrev pub HasRules : FastapiRoute → Type 0
  HasRules route =
      IsGuarded route
      → All
          (IsAllowedFor path_rules (fastapi_path_to_template (canonical static_prefix route.path)))
          route.methods

  missing_methods-nil :
      (t p : String) (methods : List String)
      → missing_methods path_rules t p methods ≡ []
      → All (IsAllowedFor path_rules t) methods
  unfolding missing_methods
  missing_methods-nil t p [] h = tt
  missing_methods-nil t p (method ∷ methods) h =
      let rest = missing_methods path_rules t p methods in
      let later = missing_methods-nil t p methods in
      if_intro
        (λ (l : List Route).
          l ≡ [] → IsAllowedFor path_rules t method × All (IsAllowedFor path_rules t) methods)
        (contains ("HEAD" ∷ "OPTIONS" ∷ []) method) (λ a h. (inl a, later h))
        (λ _.
          if_intro
            (λ (l : List Route).
              l ≡ [] → IsAllowedFor path_rules t method × All (IsAllowedFor path_rules t) methods)
            (has_path_rules path_rules (t, method)) (λ a h. (inr a, later h)) (λ _ h. cc))
        h

  nil-missing_methods :
      (t p : String) (methods : List String)
      → All (IsAllowedFor path_rules t) methods
      → missing_methods path_rules t p methods ≡ []
  unfolding missing_methods
  nil-missing_methods t p [] h = refl
  nil-missing_methods t p (method ∷ methods) (inl a, h) = rw a (nil-missing_methods t p methods h)
  nil-missing_methods t p (method ∷ methods) (inr a, h) =
      let rest = nil-missing_methods t p methods h in
      if_intro (λ (l : List Route). l ≡ []) (contains ("HEAD" ∷ "OPTIONS" ∷ []) method) (λ _. rest)
        (λ _. rw a rest)

  missing_of-nil :
      (route : FastapiRoute) → missing_of static_prefix path_rules route ≡ [] → HasRules route
  unfolding missing_of
  missing_of-nil route h (a, n, u) =
      missing_methods-nil _ (canonical static_prefix route.path) route.methods
        (ground (arith, h, a, n, u))

  nil-missing_of :
      (route : FastapiRoute) → HasRules route → missing_of static_prefix path_rules route ≡ []
  unfolding missing_of
  nil-missing_of route h =
      if_intro Empty (not route.is_api_route) (λ _. refl)
        (λ a.
          if_intro Empty
            (not (nonempty (canonical static_prefix route.path))
              || is_unprotected_path (canonical static_prefix route.path))
            (λ _. refl)
            (λ b.
              nil-missing_methods (fastapi_path_to_template (canonical static_prefix route.path))
                (canonical static_prefix route.path) route.methods
                (h (not-true route.is_api_route a, (neither _ _ b).0, (neither _ _ b).1))))

  all_missing-nil :
      (routes : List FastapiRoute)
      → all_missing static_prefix path_rules routes ≡ []
      → All HasRules routes
  unfolding all_missing
  all_missing-nil [] h = tt
  all_missing-nil (route ∷ routes) h =
      let (first, later) = append-eq-nil (missing_of static_prefix path_rules route) _ h in
      (missing_of-nil route first, all_missing-nil routes later)

  nil-all_missing :
      (routes : List FastapiRoute)
      → All HasRules routes
      → all_missing static_prefix path_rules routes ≡ []
  unfolding all_missing
  nil-all_missing [] h = refl
  nil-all_missing (route ∷ routes) (first, later) =
      rw (nil-missing_of route first) (nil-all_missing routes later)

reported-ok : (missing : List Route) → (reported missing ≡ ok tt) → missing ≡ []
reported-ok [] h = refl
reported-ok (route ∷ missing) h = cc

reported-cases :
    (missing : List Route)
    → (reported missing ≡ ok tt) ⊎ (reported missing ≡ raised (mlflow internal_error))
reported-cases [] = inl refl
reported-cases (route ∷ missing) = inr refl

-- The check of the FastAPI routes returns exactly when every API route whose canonical path is protected, and not empty,
-- has rules under its template for each method but HEAD and OPTIONS; otherwise it raises INTERNAL_ERROR.
pub validate_fastapi_route_authorization-ok_iff :
    (static_prefix : Option String) (path_rules : PathTable) (routes : List FastapiRoute)
    → ((validate_fastapi_route_authorization static_prefix path_rules routes ≡ ok tt)
        ↔ All (HasRules static_prefix path_rules) routes)
      × ((validate_fastapi_route_authorization static_prefix path_rules routes ≡ ok tt)
          ⊎ (validate_fastapi_route_authorization static_prefix path_rules routes
              ≡ raised (mlflow internal_error)))
unfolding validate_fastapi_route_authorization
validate_fastapi_route_authorization-ok_iff static_prefix path_rules routes = (
  (
    λ h. all_missing-nil static_prefix path_rules routes (reported-ok _ h),
    λ h. ap reported (nil-all_missing static_prefix path_rules routes h),
  ),
  reported-cases (all_missing static_prefix path_rules routes),
)

-- An entry in the compiled rules for each method but HEAD and OPTIONS.
abbrev pub IsCompiled : Option String → PathTable → Compiled → FastapiRoute → Type 0
IsCompiled static_prefix path_rules c route =
    IsGuarded static_prefix path_rules route
    → All
        (λ method.
          (contains ("HEAD" ∷ "OPTIONS" ∷ []) method ≡ true)
          ⊎ HasEntry c (fastapi_path_to_template (canonical static_prefix route.path)) method)
        route.methods

allowed-compiled :
    (path_rules : PathTable) (c : Compiled) (t : String) (methods : List String)
    → All (IsAllowedFor path_rules t) methods
    → All
        (λ method.
          (contains ("HEAD" ∷ "OPTIONS" ∷ []) method ≡ true)
          ⊎ HasEntry (add_path_rules path_rules c) t method)
        methods
allowed-compiled path_rules c t [] h = tt
allowed-compiled path_rules c t (method ∷ methods) (inl a, h) =
    (inl a, allowed-compiled path_rules c t methods h)
allowed-compiled path_rules c t (method ∷ methods) (inr a, h) = (
  inr (add_path_rules-HasEntry path_rules c t method a),
  allowed-compiled path_rules c t methods h,
)

all_compiled :
    (static_prefix : Option String) (path_rules : PathTable) (built c : Compiled)
    (routes : List FastapiRoute)
    → add_path_rules path_rules built ≡ c
    → All (HasRules static_prefix path_rules) routes
    → All (IsCompiled static_prefix path_rules c) routes
all_compiled static_prefix path_rules built c [] e h = tt
all_compiled static_prefix path_rules built c (route ∷ routes) e (first, later) = (
  λ g.
      subst
        (λ d.
          All
            (λ method.
              (contains ("HEAD" ∷ "OPTIONS" ∷ []) method ≡ true)
              ⊎ HasEntry d (fastapi_path_to_template (canonical static_prefix route.path)) method)
            route.methods)
        e
        (allowed-compiled path_rules built
          (fastapi_path_to_template (canonical static_prefix route.path)) route.methods (first g)),
  all_compiled static_prefix path_rules built c routes e later,
)

-- If the compilation of the rules returns, and the check of the FastAPI routes too, with the same table of paths, the
-- compiled rules have an entry under the template of each API route whose canonical path is protected, and not empty,
-- for each of its methods but HEAD and OPTIONS.
pub validate_fastapi_route_authorization-IsCompiled :
    {H : Type 0} ⦃e : Eq H⦄ (static_prefix : Option String) (handler_of : String → Option H)
    (requests : List String) (endpoints flask_routes : List (Endpoint H))
    (request_rules : RequestTable) (path_rules : PathTable) (c : Compiled)
    (routes : List FastapiRoute)
    → compile_authorization_rules static_prefix handler_of requests endpoints flask_routes
        request_rules path_rules
      ≡ ok c
    → validate_fastapi_route_authorization static_prefix path_rules routes ≡ ok tt
    → All (IsCompiled static_prefix path_rules c) routes
unfolding compile_authorization_rules
validate_fastapi_route_authorization-IsCompiled static_prefix handler_of requests endpoints
      flask_routes request_rules path_rules c routes h v =
    all_compiled static_prefix path_rules _ c routes (covered-eq _ _ c h).1
      ((validate_fastapi_route_authorization-ok_iff static_prefix path_rules routes).0.0 v)
