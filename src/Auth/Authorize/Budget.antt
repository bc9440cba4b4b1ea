-- ===== src/Auth/Authorize/Budget.antt =====
-- `_enforce_gateway_budget_scope`, which rules on budget policies call. `is_one` says whether the number
-- that a JSON text spells equals 1, and `digit` what Unicode says of a character: whether `str.isdigit` holds, and
-- the decimal value that `int` reads, if it has one.
pub mod Scope
use mlflow_integration.Shared.{
  String, Bool, true, false, ◌&&◌, ◌||◌, not, Option, none, some, List, [], ◌∷◌, ℕ, zero, suc, ◌+◌,
  if◌then◌else◌, ltb, nat_eqb, is_some, string_eq, option_eq, ◌==◌, Outcome, ok, raised, ◌>>=◌,
  ◌>>◌, mlflow, invalid_parameter_value, unexpected,
}
use Prim.Native.Nat.{◌*◌}
use Prim.Native.Char.{code}
use Prim.Native.String
use Prim.Native.String.{[], ◌∷◌}
use mlflow_integration.Shared.Text.{nonempty, strip, upper, size}
use mlflow_integration.Shared.Json.{Json, null, boolean, number, text, array, object, Fields, get}
use mlflow_integration.Auth.Credentials.{spells}
use mlflow_integration.Auth.Rules.{AuthorizationRule}
use mlflow_integration.Auth.Request.{AuthorizationRequest, ensure_json_body}

-- `rule.resource == RESOURCE_GATEWAY_BUDGETS and rule.verb in {"create", "update"}`
unfoldable pub writes_budget : AuthorizationRule → Bool
writes_budget rule =
    rule.resource == some "gatewaybudgets"
    && (rule.verb == some "create" || rule.verb == some "update")

module _ (is_one : String → Bool) (digit : ℕ → Option (Option ℕ)) where
  all_digits : String → Bool
  all_digits [] = true
  all_digits (c ∷ s) = is_some (digit (code c)) && all_digits s

  next_digit : ℕ → Option (Option ℕ) → Option ℕ
  next_digit n (some (some d)) = some (10 * n + d)
  next_digit n other = none

  abbrev read_on : Option ℕ → (ℕ → Option ℕ) → Option ℕ
  read_on none go = none
  read_on (some n) go = go n

  -- int(s), of digits: nothing where it raises `ValueError`
  read_digits : ℕ → String → Option ℕ
  unfolding next_digit
  read_digits n [] = some n
  read_digits n (c ∷ s) = read_on (next_digit n (digit (code c))) (λ m. read_digits m s)

  is_number_one : Option ℕ → Outcome Bool
  is_number_one none = raised unexpected
  is_number_one (some n) = ok (nat_eqb n 1)

  -- A text, stripped: as an integer or as an upper-case word. `int` refuses more than 4300 digits.
  global_text : String → Outcome Bool
  unfolding all_digits read_digits is_number_one nonempty upper spells size
  global_text s =
      if nonempty s && all_digits s
      then (if ltb 4300 (size s) then raised unexpected else is_number_one (read_digits 0 s))
      else ok (spells (upper s) "GLOBAL")

  -- `normalized_target_scope in {1, "GLOBAL"}`, for a value that may be absent. A list or a `dict` has no hash.
  is_global_scope : Option Json → Outcome Bool
  unfolding global_text strip
  is_global_scope none = ok false
  is_global_scope (some null) = ok false
  is_global_scope (some (boolean b)) = ok b
  is_global_scope (some (number spelled)) = ok (is_one spelled)
  is_global_scope (some (text s)) = global_text (strip s)
  is_global_scope (some (array items)) = raised unexpected
  is_global_scope (some (object fields)) = raised unexpected

  refuse_global : Option Json → Outcome (Unit {0})
  unfolding is_global_scope
  refuse_global value = is_global_scope value >>= λ global.
      if global then raised (mlflow invalid_parameter_value) else ok tt

  check_scopes : Json → Outcome (Unit {0})
  unfolding refuse_global get
  check_scopes (object payload) =
      refuse_global (get "target_scope" payload) >> refuse_global (get "targetScope" payload)
  check_scopes body = raised (mlflow invalid_parameter_value)

  -- `_enforce_gateway_budget_scope`
  unfoldable pub enforce_gateway_budget_scope :
      (String → Option Json)
      → AuthorizationRule
      → AuthorizationRequest
      → Outcome AuthorizationRequest
  unfolding writes_budget check_scopes ensure_json_body
  enforce_gateway_budget_scope parse_json rule request =
      if not (writes_budget rule)
      then ok request
      else ensure_json_body parse_json false request >>= λ loaded.
          check_scopes loaded.json_body >> ok loaded
