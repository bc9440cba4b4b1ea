-- ===== src/Auth/Compiler/Lookup.antt =====
-- The lookup of a request that fits a path with an entry.
use mlflow_integration.Shared.{
  String, true, false, ◌&&◌, Option, none, some, List, [], ◌∷◌, is_some, Some, string_eq, ◌==◌,
  Outcome, ok, ◌≡◌, refl, ap, subst, ◌∙◌, ◌⊎◌, inl, inr, eq_iff, if_intro,
}
use mlflow_integration.Shared.Text.{ends_with}
use mlflow_integration.Shared.Dict.{find}
use mlflow_integration.Auth.Rules.{AuthorizationRule}
use mlflow_integration.Auth.Tables.{route_eq}
use mlflow_integration.Auth.Templates.{re_compile_path, fullmatch}
use mlflow_integration.Auth.Compiler.{
  RegexRule, Compiled, is_templated, canonical, first_match, looked_up, find_authorization_rules,
}
use mlflow_integration.Auth.Compiler.Coverage.{IsEntry, HasEntry}

-- A canonical path fits a path that is registered: it is that path, or its pattern matches it.
abbrev pub Fits : String → String → Type 0
Fits path requested =
    ((is_templated path ≡ false) × (requested ≡ path))
    ⊎ ((is_templated path ≡ true) × (fullmatch (re_compile_path path) requested ≡ true))

first_match-entry :
    (entries : List RegexRule) (path requested method : String)
    → Some (IsEntry path method) entries
    → fullmatch (re_compile_path path) requested ≡ true
    → is_some (first_match entries requested method) ≡ true
unfolding first_match
first_match-entry [] path requested method h m = absurd h
first_match-entry (entry ∷ entries) path requested method (inl (p, v)) m =
    let same : entry.verb == method ≡ true = (eq_iff entry.verb method).1 v in
    let fits : fullmatch entry.pattern requested ≡ true = ap (λ t. fullmatch t requested) p ∙ m in
    rw (same, fits) refl
first_match-entry (entry ∷ entries) path requested method (inr h) m =
    if_intro (λ (o : Option (List AuthorizationRule)). is_some o ≡ true)
      (entry.verb == method && fullmatch entry.pattern requested) (λ _. refl)
      (λ _. first_match-entry entries path requested method h m)

module _ (c : Compiled) (graphql : Outcome (Option (List AuthorizationRule)))
    (path requested method : String) where
  -- Rules are found.
  abbrev pub IsFound : Outcome (Option (List AuthorizationRule)) → Type 0
  IsFound found = (rules : List AuthorizationRule) × (found ≡ ok (some rules))

  IsFound-some : (o : Option (List AuthorizationRule)) → is_some o ≡ true → IsFound (ok o)
  IsFound-some none h = cc
  IsFound-some (some rules) h = (rules, refl)

  looked_up-IsFound :
      (exact : Option (List AuthorizationRule))
      → find (requested, method) c.exact ≡ exact
      → HasEntry c path method
      → Fits path requested
      → ends_with requested "/graphql" ≡ false
      → IsFound (looked_up c requested method exact graphql)
  unfolding looked_up
  looked_up-IsFound (some rules) q h fits g = rw g (rules, refl)
  looked_up-IsFound none q h (inl (t, e)) g =
      let there = h.0 t in
      let missing : is_some (find (path, method) c.exact) ≡ false =
        subst (λ p. is_some (find (p, method) c.exact) ≡ false) e (ap is_some q) in
      cc
  looked_up-IsFound none q h (inr (t, m)) g =
      IsFound-some (first_match c.regex requested method)
        (first_match-entry c.regex path requested method (h.1 t) m)

-- A request whose canonical path fits a path with an entry for the method finds rules, unless it is a GraphQL request,
-- which has those of its query.
pub find_authorization_rules-served :
    (static_prefix : Option String) (c : Compiled)
    (graphql : Outcome (Option (List AuthorizationRule))) (path request_path method : String)
    → HasEntry c path method
    → Fits path (canonical static_prefix request_path)
    → ends_with (canonical static_prefix request_path) "/graphql" ≡ false
    → (rules : List AuthorizationRule) × (find_authorization_rules static_prefix c graphql
          request_path method
        ≡ ok (some rules))
unfolding find_authorization_rules
find_authorization_rules-served static_prefix c graphql path request_path method h fits g =
    looked_up-IsFound c graphql path (canonical static_prefix request_path) method
      (find (canonical static_prefix request_path, method) c.exact) refl h fits g
