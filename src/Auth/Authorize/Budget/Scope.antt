-- ===== src/Auth/Authorize/Budget/Scope.antt =====
-- What `_enforce_gateway_budget_scope` does to the request that it returns.
use mlflow_integration.Shared.{
  String, Bool, false, not, Option, ℕ, if_intro, Outcome, ok, raised, ◌>>◌, Ensures, Ensures-bind,
  Ensures-eq-ok, ◌≡◌, refl,
}
use mlflow_integration.Shared.Json.{Json}
use mlflow_integration.Auth.Rules.{AuthorizationRule}
use mlflow_integration.Auth.Request.{AuthorizationRequest, ensure_json_body}
use mlflow_integration.Auth.Authorize.Budget.{
  check_scopes, writes_budget, enforce_gateway_budget_scope,
}

-- A property that the request has, and has again once its body is loaded.
module _ (is_one : String → Bool) (digit : ℕ → Option (Option ℕ))
    (parse_json : String → Option Json) (P : AuthorizationRequest → Type 0)
    (request : AuthorizationRequest) (now : P request)
    (loaded : (later : AuthorizationRequest)
      → ensure_json_body parse_json false request ≡ ok later
      → P later) where
  checked-Ensures :
      (later : AuthorizationRequest) (done : Outcome (Unit {0}))
      → P later
      → Ensures P (done >> ok later)
  checked-Ensures later (ok _) h = h
  checked-Ensures later (raised e) h = tt

  loaded-Ensures :
      (m : Outcome AuthorizationRequest)
      → ((later : AuthorizationRequest) → m ≡ ok later → P later)
      → Ensures P m
  loaded-Ensures (ok later) h = h later refl
  loaded-Ensures (raised e) h = tt

  budget-Ensures :
      (rule : AuthorizationRule)
      → Ensures P (enforce_gateway_budget_scope is_one digit parse_json rule request)
  unfolding enforce_gateway_budget_scope
  budget-Ensures rule =
      if_intro (Ensures P) (not (writes_budget rule)) (λ _. now)
        λ _.
          Ensures-bind P P (ensure_json_body parse_json false request) _
            (loaded-Ensures (ensure_json_body parse_json false request) loaded)
            λ later h. checked-Ensures later (check_scopes is_one digit later.json_body) h

  pub enforce_gateway_budget_scope-keeps :
      (rule : AuthorizationRule) (final : AuthorizationRequest)
      → enforce_gateway_budget_scope is_one digit parse_json rule request ≡ ok final
      → P final
  enforce_gateway_budget_scope-keeps rule final h =
      Ensures-eq-ok P (enforce_gateway_budget_scope is_one digit parse_json rule request)
        (budget-Ensures rule) h
