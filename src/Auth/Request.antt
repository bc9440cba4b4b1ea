-- ===== src/Auth/Request.antt =====
-- auth/request_context.py and the functions of auth/core.py that read one request. A body that is
-- `None` is `null`. `parse_json` stands for `json.loads`, which gives nothing for a text that is not JSON.
pub mod QueryParams
use mlflow_integration.Shared.{
  String, Bool, true, false, ◌&&◌, ◌||◌, not, Option, none, some, List, [], ◌∷◌, if◌then◌else◌,
  is_some, string_eq, ◌==◌, Outcome, ok, raised, ◌>>=◌, mlflow, invalid_parameter_value, unexpected,
}
use mlflow_integration.Shared.Text.{nonempty, truthy, ends_with, strip, upper}
use mlflow_integration.Shared.Dict.{Dict, find, put}
use mlflow_integration.Shared.Json.{
  Json, null, boolean, number, text, array, object, Items, nil, cons, Fields, end, field, get,
}
use mlflow_integration.Auth.Credentials.{spells}
use mlflow_integration.Auth.Rules.{AuthorizationRule}

-- A callback that loads the body is its outcome: no request calls it twice.
pub record AuthorizationRequest : Type 0 where
  pub authorization_header : Option String
  pub forwarded_access_token : Option String
  pub remote_user_header_value : Option String
  pub remote_groups_header_value : Option String
  pub path : String
  pub method : String
  pub workspace : Option String
  pub headers : Dict String String
  pub path_params : Dict String Json
  pub query_params : Dict String Json
  pub json_body : Json
  pub graphql_payload : Option Fields
  pub ensure_json_body : Option (Outcome Json)

-- current.append(value)
abbrev pub append_item : Items → Json → Items
append_item nil v = cons v nil
append_item (cons w items) v = cons w (append_item items v)

-- What becomes of a parameter's value where another one comes.
abbrev pub with_value : Option Json → Json → Json
with_value none v = v
with_value (some (array items)) v = array (append_item items v)
with_value (some current) v = array (cons current (cons v nil))

-- The loop of `_collect_query_params`
unfoldable pub collect_into : Dict String Json → List (String × String) → Dict String Json
unfolding put find
collect_into params [] = params
collect_into params ((key, value) ∷ items) =
    collect_into (put key (with_value (find key params) (text value)) params) items

-- `_collect_query_params`
unfoldable pub collect_query_params : List (String × String) → Dict String Json
unfolding collect_into
collect_query_params items = collect_into [] items

abbrev pub first_item : Items → Option Json
first_item nil = none
first_item (cons v items) = some v

abbrev pub collapse_list : Option Json → Option Json
collapse_list (some (array items)) = first_item items
collapse_list value = value

-- `value if isinstance(value, str) and value else None`
abbrev pub nonempty_text : Option Json → Option String
unfolding nonempty
nonempty_text (some (text s)) = if nonempty s then some s else none
nonempty_text value = none

-- `_first_value`
unfoldable pub first_value : Dict String Json → String → Option String
unfolding find nonempty
first_value mapping key = nonempty_text (collapse_list (find key mapping))

-- `isinstance(value, dict)`
abbrev pub object_of : Json → Option Fields
object_of (object fields) = some fields
object_of value = none

abbrev pub parsed_object : Option Json → Option Fields
parsed_object none = none
parsed_object (some value) = object_of value

abbrev pub with_text : String → Option String → Fields → Fields
with_text key none rest = rest
with_text key (some s) rest = field key (text s) rest

abbrev pub with_object : String → Option Fields → Fields → Fields
with_object key none rest = rest
with_object key (some fields) rest = field key (object fields) rest

-- `payload or None`, which is also what the early return gives
abbrev pub nonempty_fields : Fields → Option Fields
nonempty_fields end = none
nonempty_fields (field k v rest) = some (field k v rest)

-- `request_context.json_body is None`
abbrev pub is_null : Json → Bool
is_null null = true
is_null value = false

-- `bool(params)`
abbrev pub has_params : Dict String Json → Bool
has_params [] = false
has_params (p ∷ params) = true

module _ (parse_json : String → Option Json) where
  abbrev pub variables_of : Option String → Option Fields
  variables_of none = none
  variables_of (some raw) = parsed_object (parse_json raw)

  -- `_build_graphql_payload`, from the body or from the query
  unfoldable pub payload_of : Option Fields → Dict String Json → Option Fields
  unfolding first_value
  payload_of (some fields) query_params = some fields
  payload_of none query_params = nonempty_fields (
      with_text "query" (first_value query_params "query") (
        with_text "operationName" (first_value query_params "operationName")
          (with_object "variables" (variables_of (first_value query_params "variables")) end)))

  -- `_build_graphql_payload`
  unfoldable pub build_graphql_payload : String → Json → Dict String Json → Option Fields
  unfolding payload_of ends_with
  build_graphql_payload path json_body query_params =
      if ends_with path "/graphql" then payload_of (object_of json_body) query_params else none

  -- `replace(request_context, json_body=loaded_body, …)`
  abbrev pub with_body : AuthorizationRequest → Json → AuthorizationRequest
  with_body request body = record request {
    json_body = body;
    graphql_payload = build_graphql_payload request.path body request.query_params;
    ensure_json_body = none;
  }

  abbrev pub load : AuthorizationRequest → Option (Outcome Json) → Outcome AuthorizationRequest
  load request none = ok request
  load request (some body) = body >>= λ loaded. ok (with_body request loaded)

  -- `_ensure_request_context_json_body`
  unfoldable pub ensure_json_body : Bool → AuthorizationRequest → Outcome AuthorizationRequest
  unfolding upper spells build_graphql_payload
  ensure_json_body allow_get_body request =
      if not (is_null request.json_body)
      then ok request
      else if spells (upper request.method) "GET"
          && has_params request.query_params
          && not allow_get_body
      then ok request
      else load request request.ensure_json_body

-- `value.strip()` of a text, unless it is empty
abbrev pub stripped_text : Option Json → Option String
unfolding strip nonempty
stripped_text (some (text s)) = if nonempty (strip s) then some (strip s) else none
stripped_text value = none

abbrev pub or_else : Option String → Option String → Option String
or_else none other = other
or_else (some s) other = some s

-- payload.get(key), if the payload is a `dict`
abbrev pub get_in : Json → String → Option Json
unfolding get
get_in (object fields) key = get key fields
get_in value key = none

-- `_extract_workspace_scope_from_request`
unfoldable pub extract_workspace_scope_from_request :
    AuthorizationRequest → AuthorizationRule → Option String
unfolding find strip nonempty upper spells get
extract_workspace_scope_from_request request rule =
    or_else (stripped_text (find "workspace_name" request.path_params)) (
      if not rule.workspace_access_check
      then none
      else if spells (upper request.method) "POST"
      then stripped_text (get_in request.json_body "name")
      else none)

abbrev pub first_stripped : (String → Option Json) → List String → Option String
unfolding strip nonempty
first_stripped lookup [] = none
first_stripped lookup (key ∷ keys) =
    or_else (stripped_text (lookup key)) (first_stripped lookup keys)

-- `_get_request_mapping_value`
unfoldable pub get_request_mapping_value : AuthorizationRequest → List String → Option String
unfolding find strip nonempty get
get_request_mapping_value request keys =
    or_else (first_stripped (get_in request.json_body) keys)
      (first_stripped (λ key. find key request.path_params) keys)
