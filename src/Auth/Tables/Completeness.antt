-- ===== src/Auth/Tables/Completeness.antt =====
-- What the loop of `_authorize_request_async` and `_workspaces_rule` refuse with an internal error, over the
-- rules of the tables.
use mlflow_integration.Shared.{
  string_eq, String, Bool, true, false, ◌&&◌, ◌||◌, not, Option, none, some, List, [], ◌∷◌, Eq,
  if◌then◌else◌, Outcome, ok, raised, ◌>>=◌, map, all, is_some, arith, ◌≡◌, refl,
}
use mlflow_integration.Shared.Text.{truthy, nonempty}
use mlflow_integration.Shared.Dict.{Dict, find, put, Entries, put-Entries, find-Entries, find-put}
use mlflow_integration.Auth.Credentials.{is_unprotected_path}
use mlflow_integration.Auth.Rules.{AuthorizationRule, refuses_workspaces_rule}
use mlflow_integration.Auth.Tables.{
  Route, route_eq, RequestTable, PathTable, base_request_rules, base_path_rules,
  skill_registry_path_rules, update, check_skill, replace_found, check_skills,
  skill_artifact_requests, skill_artifact_routes, apply_skill_registry_deltas, authorization_rules,
}

-- A rule with a verb names a resource, one without a verb how a workspace is checked.
abbrev pub is_checked : Option String → Option String → Bool → Bool
is_checked none resource scoped = scoped
is_checked (some verb) resource scoped = truthy resource

-- No request that meets the rule ends in an internal error; a rule without a resource, which
-- `_workspaces_rule` makes, is not refused there.
abbrev pub is_complete : AuthorizationRule → Bool
is_complete r =
    (is_some r.resource || not (refuses_workspaces_rule r))
    && (if r.deny
        then is_some r.deny_message
        else is_checked r.verb r.resource (r.workspace_access_check || r.apply_workspace_filter))

abbrev pub are_complete : List AuthorizationRule → Bool
are_complete [] = false
are_complete (r ∷ rules) = is_complete r && all is_complete rules

-- The rules of a request class, and those of a route that needs rules.
abbrev pub HasRules : String → List AuthorizationRule → Type 0
HasRules request rules = are_complete rules ≡ true

abbrev pub IsGuarded : Route → List AuthorizationRule → Type 0
IsGuarded route rules = (are_complete rules || is_unprotected_path route.0) ≡ true

all-check_skill :
    (rules : List AuthorizationRule)
    → all is_complete (map check_skill rules) ≡ all is_complete rules
unfolding refuses_workspaces_rule
all-check_skill [] = refl
all-check_skill (r ∷ rules) = rw (all-check_skill rules) refl

are_complete-check_skill :
    (rules : List AuthorizationRule) → are_complete (map check_skill rules) ≡ are_complete rules
unfolding refuses_workspaces_rule
are_complete-check_skill [] = refl
are_complete-check_skill (r ∷ rules) = rw (all-check_skill rules) refl

-- `P` holds of what the call returns, and it returns.
abbrev pub Gives : {A : Type 0} → (A → Type 0) → Outcome A → Type 0
Gives P (ok a) = P a
Gives P (raised e) = ⊥

Gives-bind :
    {A B : Type 0} (P : A → Type 0) (Q : B → Type 0) (m : Outcome A) (f : A → Outcome B)
    → Gives P m
    → ((a : A) → P a → Gives Q (f a))
    → Gives Q (m >>= f)
Gives-bind P Q (ok a) f h k = k a h
Gives-bind P Q (raised e) f h k = absurd h

module _ {K : Type 0} ⦃e : Eq K⦄ where
  -- Every key is in the dict.
  abbrev HasKeys : List K → Dict K (List AuthorizationRule) → Type 0
  HasKeys [] d = Unit
  HasKeys (k ∷ keys) d = (is_some (find k d) ≡ true) × HasKeys keys d

  HasKeys-put :
      (keys : List K) (k : K) (rules : List AuthorizationRule) (d : Dict K (List AuthorizationRule))
      → HasKeys keys d
      → HasKeys keys (put k rules d)
  HasKeys-put [] k rules d h = tt
  HasKeys-put (j ∷ keys) k rules d h =
      (rw (find-put k j rules d) (ground (arith, h.0)), HasKeys-put keys k rules d h.1)

  HasKeys-update :
      (keys : List K) (d other : Dict K (List AuthorizationRule))
      → HasKeys keys d
      → HasKeys keys (update d other)
  unfolding update
  HasKeys-update keys d [] h = h
  HasKeys-update keys d ((k, rules) ∷ other) h =
      HasKeys-update keys (put k rules d) other (HasKeys-put keys k rules d h)

module _ {K : Type 0} ⦃e : Eq K⦄ (P : K → List AuthorizationRule → Type 0) where
  update-Entries :
      (d other : Dict K (List AuthorizationRule))
      → Entries P d
      → Entries P other
      → Entries P (update d other)
  unfolding update
  update-Entries d [] h o = h
  update-Entries d ((k, rules) ∷ other) h o =
      update-Entries (put k rules d) other (put-Entries P k rules d o.0 h) o.1

  module _
      (keep : (k : K) (rules : List AuthorizationRule)
        → P k rules
        → P k (map check_skill rules)) where
    replace_found-Entries :
        (keys : List K) (k : K) (found : Option (List AuthorizationRule))
        (d : Dict K (List AuthorizationRule))
        → find k d ≡ found
        → is_some found ≡ true
        → Entries P d
        → HasKeys keys d
        → Gives (λ d'. Entries P d' × HasKeys keys d') (replace_found k found d)
    unfolding replace_found
    replace_found-Entries keys k none d q s h keyed = cc
    replace_found-Entries keys k (some rules) d q s h keyed = (
      put-Entries P k (map check_skill rules) d (keep k rules (find-Entries P k d h q)) h,
      HasKeys-put keys k (map check_skill rules) d keyed,
    )

    check_skills-Entries :
        (keys : List K) (d : Dict K (List AuthorizationRule))
        → Entries P d
        → HasKeys keys d
        → Gives (Entries P) (check_skills keys d)
    unfolding check_skills
    check_skills-Entries [] d h keyed = h
    check_skills-Entries (k ∷ keys) d h keyed =
        Gives-bind (λ d'. Entries P d' × HasKeys keys d') (Entries P) (replace_found k (find k d) d)
          (check_skills keys) (replace_found-Entries keys k (find k d) d refl keyed.0 h keyed.1)
          λ d' w. check_skills-Entries keys d' w.0 w.1

-- A test of every entry of a table, by evaluation.
check_entries :
    {K : Type 0} → (K → List AuthorizationRule → Bool) → Dict K (List AuthorizationRule) → Bool
check_entries test [] = true
check_entries test ((k, rules) ∷ d) = test k rules && check_entries test d

check_entries-Entries :
    {K : Type 0} ⦃e : Eq K⦄ (test : K → List AuthorizationRule → Bool)
    (d : Dict K (List AuthorizationRule))
    → check_entries test d ≡ true
    → Entries (λ k rules. test k rules ≡ true) d
unfolding check_entries
check_entries-Entries test [] h = tt
check_entries-Entries test ((k, rules) ∷ d) h = ground (arith, check_entries-Entries test d)

has_rules : String → List AuthorizationRule → Bool
has_rules request rules = are_complete rules

is_guarded : Route → List AuthorizationRule → Bool
is_guarded route rules = are_complete rules || is_unprotected_path route.0

base_requests-HasRules : Entries HasRules base_request_rules
unfolding has_rules
base_requests-HasRules =
    check_entries-Entries has_rules base_request_rules
      (unfold check_entries refuses_workspaces_rule base_request_rules nonempty in refl)

base_paths-IsGuarded :
    (otlp_traces_path : String) → Entries IsGuarded (base_path_rules otlp_traces_path)
unfolding is_guarded
base_paths-IsGuarded otlp_traces_path =
    check_entries-Entries is_guarded (base_path_rules otlp_traces_path) (
      unfold check_entries refuses_workspaces_rule base_path_rules nonempty is_unprotected_path in
      refl)

skill_paths-IsGuarded : Entries IsGuarded skill_registry_path_rules
unfolding is_guarded
skill_paths-IsGuarded = check_entries-Entries is_guarded skill_registry_path_rules (
    unfold check_entries refuses_workspaces_rule skill_registry_path_rules nonempty
      is_unprotected_path in
    refl)

skill_requests-HasKeys : HasKeys skill_artifact_requests base_request_rules
unfolding base_request_rules find
skill_requests-HasKeys = (refl, (refl, (refl, (refl, (refl, (refl, (refl, (refl, tt))))))))

skill_routes-HasKeys :
    (otlp_traces_path : String) → HasKeys skill_artifact_routes (base_path_rules otlp_traces_path)
unfolding base_path_rules find
skill_routes-HasKeys otlp_traces_path = (refl, (refl, (refl, (refl, tt))))

abbrev pub AreGuarded : RequestTable × PathTable → Type 0
AreGuarded tables = Entries HasRules tables.0 × Entries IsGuarded tables.1

-- The tables are built without an exception, whether or not MLflow has a skill registry. No request
-- class and no path outside the unprotected ones has an empty list of rules, and each rule there
-- names a message with which it denies, a resource for its verb, or a way to check a workspace.
pub authorization_rules-IsComplete :
    (has_skill_registry : Bool) (otlp_traces_path : String)
    → Gives AreGuarded (authorization_rules has_skill_registry otlp_traces_path)
unfolding authorization_rules apply_skill_registry_deltas
authorization_rules-IsComplete false otlp_traces_path =
    (base_requests-HasRules, base_paths-IsGuarded otlp_traces_path)
authorization_rules-IsComplete true otlp_traces_path =
    Gives-bind (Entries HasRules) AreGuarded
      (check_skills skill_artifact_requests base_request_rules) _
      (check_skills-Entries HasRules (λ k rules h. rw (are_complete-check_skill rules) h)
        skill_artifact_requests base_request_rules base_requests-HasRules skill_requests-HasKeys)
      λ requests h.
        let finish : PathTable → Outcome (RequestTable × PathTable) =
          λ paths. ok (requests, paths) in
        Gives-bind (Entries IsGuarded) AreGuarded
          (check_skills skill_artifact_routes
            (update (base_path_rules otlp_traces_path) skill_registry_path_rules))
          finish
          (check_skills-Entries IsGuarded (λ k rules h. rw (are_complete-check_skill rules) h)
            skill_artifact_routes
            (update (base_path_rules otlp_traces_path) skill_registry_path_rules)
            (update-Entries IsGuarded (base_path_rules otlp_traces_path) skill_registry_path_rules
              (base_paths-IsGuarded otlp_traces_path) skill_paths-IsGuarded)
            (HasKeys-update skill_artifact_routes (base_path_rules otlp_traces_path)
              skill_registry_path_rules (skill_routes-HasKeys otlp_traces_path)))
          λ paths g. (h, g)
