-- ===== src/Auth/Compiler/Serving.antt =====
-- The entries of endpoints and routes once the rules are compiled.
use mlflow_integration.Shared.{
  String, Option, List, [], ◌∷◌, All, Eq, ok, ◌≡◌, refl, subst, inl, inr, ok_injective,
}
use mlflow_integration.Shared.Dict.{Dict}
use mlflow_integration.Auth.Rules.{AuthorizationRule}
use mlflow_integration.Auth.Tables.{Route, route_eq, RequestTable, PathTable}
use mlflow_integration.Auth.Compiler.{
  Compiled, nothing_compiled, Endpoint, canonical, handler_rules, checked_methods, add_endpoints,
  add_routes, add_path_rules, covered, compile_authorization_rules,
}
use mlflow_integration.Auth.Compiler.Coverage.{
  HasEntry, add_path_rules-Extends, add_path_rules-HasEntry, WillHave,
}
use mlflow_integration.Auth.Compiler.Endpoints.{
  IsProtected, IsCustom, EndpointSeen, RouteSeen, WillHave-later, add_endpoints-Seen,
  add_routes-Extends, add_routes-Seen,
}

module _ (path_rules : PathTable) where
  -- The table of paths closes what was left to it.
  WillHave-HasEntry :
      (c : Compiled) (path : String) (methods : List String)
      → WillHave path_rules c path methods
      → All (HasEntry (add_path_rules path_rules c) path) methods
  WillHave-HasEntry c path [] h = tt
  WillHave-HasEntry c path (method ∷ methods) (inl h, rest) = (
    (add_path_rules-Extends path_rules c).entries path method h,
    WillHave-HasEntry c path methods rest,
  )
  WillHave-HasEntry c path (method ∷ methods) (inr h, rest) =
      (add_path_rules-HasEntry path_rules c path method h, WillHave-HasEntry c path methods rest)

All-map :
    {A : Type 0} (P Q : A → Type 0) (xs : List A) → ((x : A) → P x → Q x) → All P xs → All Q xs
All-map P Q [] f h = tt
All-map P Q (x ∷ xs) f h = (f x h.0, All-map P Q xs f h.1)

pub covered-eq :
    (routes : List Route) (c d : Compiled) → covered routes c ≡ ok d → (routes ≡ []) × (c ≡ d)
covered-eq [] c d h = (refl, ok_injective h)
covered-eq (route ∷ routes) c d h = cc

module _ {H : Type 0} ⦃e : Eq H⦄ (static_prefix : Option String)
    (handlers : Dict H (List AuthorizationRule)) (path_rules : PathTable) (c : Compiled) where
  -- Rules for every method of the endpoint, or of the route but for HEAD and OPTIONS.
  abbrev pub IsServed : Endpoint H → Type 0
  IsServed endpoint =
      IsProtected static_prefix handlers path_rules endpoint
      → All (HasEntry c (canonical static_prefix endpoint.path)) endpoint.methods

  abbrev pub IsRouteServed : Endpoint H → Type 0
  IsRouteServed route =
      IsCustom static_prefix handlers path_rules route
      → All (HasEntry c (canonical static_prefix route.path)) (checked_methods route.methods)

built-serves :
    {H : Type 0} ⦃e : Eq H⦄ (static_prefix : Option String)
    (handlers : Dict H (List AuthorizationRule)) (path_rules : PathTable)
    (endpoints routes : List (Endpoint H)) (c : Compiled)
    → (add_path_rules path_rules (
        add_routes static_prefix handlers path_rules routes
          (add_endpoints static_prefix handlers path_rules endpoints nothing_compiled))).uncovered
      ≡ []
    → add_path_rules path_rules (
        add_routes static_prefix handlers path_rules routes
          (add_endpoints static_prefix handlers path_rules endpoints nothing_compiled))
      ≡ c
    → All (IsServed static_prefix handlers path_rules c) endpoints
      × All (IsRouteServed static_prefix handlers path_rules c) routes
built-serves static_prefix handlers path_rules endpoints routes c h built =
    let first = add_endpoints static_prefix handlers path_rules endpoints nothing_compiled in
    let second = add_routes static_prefix handlers path_rules routes first in
    let later = add_routes-Extends static_prefix handlers path_rules routes first in
    let g = (add_path_rules-Extends path_rules second).gaps h in
    subst
      (λ d.
        All (IsServed static_prefix handlers path_rules d) endpoints
        × All (IsRouteServed static_prefix handlers path_rules d) routes)
      built
      (
        All-map (EndpointSeen static_prefix handlers path_rules first) _ endpoints
            (λ endpoint seen p.
              WillHave-HasEntry path_rules second (canonical static_prefix endpoint.path)
                endpoint.methods
                (WillHave-later static_prefix handlers path_rules first second
                  (canonical static_prefix endpoint.path) endpoint.methods later (seen p)))
            (add_endpoints-Seen static_prefix handlers path_rules endpoints nothing_compiled
              (later.gaps g)),
        All-map (RouteSeen static_prefix handlers path_rules second) _ routes
            (λ route seen p.
              WillHave-HasEntry path_rules second (canonical static_prefix route.path)
                (checked_methods route.methods) (seen p))
            (add_routes-Seen static_prefix handlers path_rules routes first g),
      )

-- If the compilation of the rules returns, every endpoint of MLflow whose path is not empty, and protected once it is
-- canonical, has rules for each of its methods, and so has, HEAD and OPTIONS apart, every route of the Flask application
-- whose canonical path is protected and that no handler of a request class serves: an exact entry for the canonical path,
-- or one with its pattern.
pub compile_authorization_rules-serves :
    {H : Type 0} ⦃e : Eq H⦄ (static_prefix : Option String) (handler_of : String → Option H)
    (requests : List String) (endpoints routes : List (Endpoint H)) (request_rules : RequestTable)
    (path_rules : PathTable) (c : Compiled)
    → compile_authorization_rules static_prefix handler_of requests endpoints routes request_rules
        path_rules
      ≡ ok c
    → All
        (IsServed static_prefix (handler_rules handler_of request_rules requests []) path_rules c)
        endpoints
      × All
          (IsRouteServed static_prefix
            (handler_rules handler_of request_rules requests [])
            path_rules
            c)
          routes
unfolding compile_authorization_rules
compile_authorization_rules-serves static_prefix handler_of requests endpoints routes request_rules
      path_rules c h =
    let (gaps, built) = covered-eq _ _ c h in
    built-serves static_prefix (handler_rules handler_of request_rules requests []) path_rules
      endpoints routes c gaps built
