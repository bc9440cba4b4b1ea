-- ===== src/Auth/Compiler/Endpoints.antt =====
-- What the loops over the endpoints and over the Flask routes leave to be done for each of them.
use mlflow_integration.Shared.{
  String, true, false, not, Option, List, [], ◌∷◌, ◌++◌, if_intro, is_some, All, Eq, ◌≡◌, inl, inr,
  arith,
}
use mlflow_integration.Shared.Text.{nonempty}
use mlflow_integration.Shared.Dict.{Dict, find}
use mlflow_integration.Auth.Credentials.{is_unprotected_path}
use mlflow_integration.Auth.Rules.{AuthorizationRule}
use mlflow_integration.Auth.Tables.{route_eq, PathTable}
use mlflow_integration.Auth.Compiler.{
  Compiled, routes_of, missing, Endpoint, canonical, add_endpoint, checked_methods, add_route,
  add_endpoints, add_routes,
}
use mlflow_integration.Auth.Compiler.Coverage.{
  Extends, Extends-refl, Extends-trans, append-eq-nil, WillHave, no_missing, by_handler-Extends,
  by_handler-WillHave,
}

module _ {H : Type 0} ⦃e : Eq H⦄ (static_prefix : Option String)
    (handlers : Dict H (List AuthorizationRule)) (path_rules : PathTable) where
  -- An endpoint that needs rules: its path is not empty, and protected once it is canonical.
  abbrev pub IsProtected : Endpoint H → Type 0
  IsProtected endpoint =
      (nonempty endpoint.path ≡ true)
      × (is_unprotected_path (canonical static_prefix endpoint.path) ≡ false)

  -- A route of the Flask application that needs rules of its own: no handler of a request class serves it.
  abbrev pub IsCustom : Endpoint H → Type 0
  IsCustom route =
      (is_unprotected_path (canonical static_prefix route.path) ≡ false)
      × (is_some (find route.handler handlers) ≡ false)

  abbrev pub EndpointSeen : Compiled → Endpoint H → Type 0
  EndpointSeen c endpoint =
      IsProtected endpoint
      → WillHave path_rules c (canonical static_prefix endpoint.path) endpoint.methods

  abbrev pub RouteSeen : Compiled → Endpoint H → Type 0
  RouteSeen c route =
      IsCustom route
      → WillHave path_rules c (canonical static_prefix route.path) (checked_methods route.methods)

  pub WillHave-later :
      (c d : Compiled) (path : String) (methods : List String)
      → Extends c d
      → WillHave path_rules c path methods
      → WillHave path_rules d path methods
  WillHave-later c d path [] k h = tt
  WillHave-later c d path (method ∷ methods) k (inl h, rest) =
      (inl (k.entries path method h), WillHave-later c d path methods k rest)
  WillHave-later c d path (method ∷ methods) k (inr h, rest) =
      (inr h, WillHave-later c d path methods k rest)

  add_endpoint-Extends :
      (endpoint : Endpoint H) (c : Compiled)
      → Extends c (add_endpoint static_prefix handlers path_rules endpoint c)
  unfolding add_endpoint
  add_endpoint-Extends endpoint c =
      if_intro (Extends c) (not (nonempty endpoint.path)) (λ _. Extends-refl c)
        λ _.
          if_intro (Extends c) (is_unprotected_path (canonical static_prefix endpoint.path))
            (λ _. Extends-refl c)
            λ _.
              by_handler-Extends path_rules (canonical static_prefix endpoint.path) endpoint.methods
                (find endpoint.handler handlers) c

  add_endpoint-Seen :
      (endpoint : Endpoint H) (c : Compiled)
      → (add_endpoint static_prefix handlers path_rules endpoint c).uncovered ≡ []
      → EndpointSeen (add_endpoint static_prefix handlers path_rules endpoint c) endpoint
  unfolding add_endpoint
  add_endpoint-Seen endpoint c =
      if_intro Seen (not (nonempty endpoint.path)) (λ t h p. absurd (ground (arith, t, p.0)))
        λ _.
          if_intro Seen (is_unprotected_path (canonical static_prefix endpoint.path))
            (λ t h p. absurd (ground (arith, t, p.1)))
            λ _ h p.
              by_handler-WillHave path_rules (canonical static_prefix endpoint.path)
                endpoint.methods (find endpoint.handler handlers) c h
    where
      Seen : Compiled → Type 0
      Seen d = d.uncovered ≡ [] → EndpointSeen d endpoint

  add_route-Extends :
      (route : Endpoint H) (c : Compiled)
      → Extends c (add_route static_prefix handlers path_rules route c)
  unfolding add_route
  add_route-Extends route c =
      if_intro (Extends c) (is_unprotected_path (canonical static_prefix route.path))
        (λ _. Extends-refl c)
        λ _.
          if_intro (Extends c) (is_some (find route.handler handlers)) (λ _. Extends-refl c)
            λ _. record { entries = λ p m h. h; gaps = λ h. (append-eq-nil c.uncovered _ h).0 }

  add_route-Seen :
      (route : Endpoint H) (c : Compiled)
      → (add_route static_prefix handlers path_rules route c).uncovered ≡ []
      → RouteSeen (add_route static_prefix handlers path_rules route c) route
  unfolding add_route
  add_route-Seen route c =
      if_intro Seen (is_unprotected_path (canonical static_prefix route.path))
        (λ t h p. absurd (ground (arith, t, p.0)))
        λ _.
          if_intro Seen (is_some (find route.handler handlers))
            (λ t h p. absurd (ground (arith, t, p.1)))
            λ _ h p.
              no_missing path_rules
                (record c {
                  uncovered =
                      c.uncovered
                      ++ missing path_rules (
                          routes_of (canonical static_prefix route.path)
                            (checked_methods route.methods));
                })
                (canonical static_prefix route.path) (checked_methods route.methods)
                (append-eq-nil c.uncovered
                  (missing path_rules (
                    routes_of (canonical static_prefix route.path) (checked_methods route.methods)))
                  h).1
    where
      Seen : Compiled → Type 0
      Seen d = d.uncovered ≡ [] → RouteSeen d route

  add_endpoints-Extends :
      (endpoints : List (Endpoint H)) (c : Compiled)
      → Extends c (add_endpoints static_prefix handlers path_rules endpoints c)
  unfolding add_endpoints
  add_endpoints-Extends [] c = Extends-refl c
  add_endpoints-Extends (endpoint ∷ endpoints) c =
      Extends-trans (add_endpoint-Extends endpoint c) (add_endpoints-Extends endpoints _)

  pub add_endpoints-Seen :
      (endpoints : List (Endpoint H)) (c : Compiled)
      → (add_endpoints static_prefix handlers path_rules endpoints c).uncovered ≡ []
      → All (EndpointSeen (add_endpoints static_prefix handlers path_rules endpoints c)) endpoints
  unfolding add_endpoints
  add_endpoints-Seen [] c h = tt
  add_endpoints-Seen (endpoint ∷ endpoints) c h =
      let added = add_endpoint static_prefix handlers path_rules endpoint c in
      let later = add_endpoints-Extends endpoints added in
      (
        λ p.
            WillHave-later added (add_endpoints static_prefix handlers path_rules endpoints added)
              (canonical static_prefix endpoint.path) endpoint.methods later
              (add_endpoint-Seen endpoint c (later.gaps h) p),
        add_endpoints-Seen endpoints added h,
      )

  pub add_routes-Extends :
      (routes : List (Endpoint H)) (c : Compiled)
      → Extends c (add_routes static_prefix handlers path_rules routes c)
  unfolding add_routes
  add_routes-Extends [] c = Extends-refl c
  add_routes-Extends (route ∷ routes) c =
      Extends-trans (add_route-Extends route c) (add_routes-Extends routes _)

  pub add_routes-Seen :
      (routes : List (Endpoint H)) (c : Compiled)
      → (add_routes static_prefix handlers path_rules routes c).uncovered ≡ []
      → All (RouteSeen (add_routes static_prefix handlers path_rules routes c)) routes
  unfolding add_routes
  add_routes-Seen [] c h = tt
  add_routes-Seen (route ∷ routes) c h =
      let added = add_route static_prefix handlers path_rules route c in
      let later = add_routes-Extends routes added in
      (
        λ p.
            WillHave-later added (add_routes static_prefix handlers path_rules routes added)
              (canonical static_prefix route.path) (checked_methods route.methods) later
              (add_route-Seen route c (later.gaps h) p),
        add_routes-Seen routes added h,
      )
