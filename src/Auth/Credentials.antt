-- ===== src/Auth/Credentials.antt =====
-- auth/core.py: the bearer token and the groups of a request, and the path that its rules are looked
-- up by. The environment variable of the static prefix is an argument.
pub mod Tokens
pub mod Canonical
use mlflow_integration.Shared.{
  String, Bool, true, false, ◌&&◌, ◌||◌, not, Option, none, some, List, [], ◌∷◌, ℕ, zero, suc, ◌-◌,
  if◌then◌else◌, string_eq, nat_eqb, ◌==◌, Outcome, ok, raised, mlflow, unauthenticated, any,
  contains,
}
use mlflow_integration.Shared.Text.{
  nonempty, truthy, starts_with, drop, size, strip, rstrip_slash, lower, extend,
}
use mlflow_integration.Auth.Identity.{or_blank}
use Prim.Native.Char.{code}
use Prim.Native.String
use Prim.Native.String.{[], ◌∷◌}

-- The parts of s.partition(" ") before and after the space.
unfoldable pub before_space : String → String
before_space [] = ""
before_space (c ∷ s) = let rest = before_space s in if nat_eqb (code c) b' ' then "" else c ∷ rest

unfoldable pub after_space : String → String
after_space [] = ""
after_space (c ∷ s) = let rest = after_space s in if nat_eqb (code c) b' ' then s else rest

-- Whether codes are those of a text, and whether they begin with them.
unfoldable pub spells : List ℕ → String → Bool
spells [] [] = true
spells [] (d ∷ t) = false
spells (n ∷ codes) [] = false
spells (n ∷ codes) (d ∷ t) = nat_eqb n (code d) && spells codes t

unfoldable pub spells_start : List ℕ → String → Bool
spells_start codes [] = true
spells_start [] (d ∷ t) = false
spells_start (n ∷ codes) (d ∷ t) = nat_eqb n (code d) && spells_start codes t

-- The `raise` statements: which message it is depends on the header.
abbrev pub no_token : Outcome String
no_token = raised (mlflow unauthenticated)

-- The branches on a stripped X-Forwarded-Access-Token.
forwarded_token : String → Outcome String
unfolding nonempty spells_start lower strip drop
forwarded_token token =
    if not (nonempty token)
    then no_token
    else if spells_start (lower token) "bearer "
    then (if nonempty (strip (drop 7 token)) then ok (strip (drop 7 token)) else no_token)
    else ok token

or_forwarded : Option String → Outcome String
unfolding forwarded_token strip
or_forwarded none = no_token
or_forwarded (some header) = forwarded_token (strip header)

header_token : String → Option String → Outcome String
unfolding before_space after_space spells lower nonempty or_forwarded
header_token header forwarded =
    if spells (lower (before_space header)) "bearer" && nonempty (after_space header)
    then ok (after_space header)
    else or_forwarded forwarded

-- `_resolve_bearer_token`. An empty header has no scheme, and is like an absent one.
unfoldable pub resolve_bearer_token : Option String → Option String → Outcome String
unfolding header_token or_forwarded
resolve_bearer_token none forwarded = or_forwarded forwarded
resolve_bearer_token (some header) forwarded = header_token header forwarded

-- s.split(sep) with characters still to be skipped, which belong to a separator
unfoldable pub split_text : String → ℕ → String → List String
unfolding starts_with size
split_text sep skipped [] = "" ∷ []
split_text sep (suc skipped) (c ∷ s) = split_text sep skipped s
split_text sep zero (c ∷ s) =
    let rest = split_text sep zero s in
    let cut = split_text sep (size sep - 1) s in
    if starts_with (c ∷ s) sep then "" ∷ cut else extend c rest

-- The stripped, nonempty pieces.
unfoldable pub named_groups : List String → List String
unfolding nonempty strip
named_groups [] = []
named_groups (token ∷ tokens) =
    let rest = named_groups tokens in if nonempty (strip token) then strip token ∷ rest else rest

-- `_parse_remote_groups`
unfoldable pub parse_remote_groups : Option String → String → List String
unfolding split_text named_groups nonempty
parse_remote_groups none separator = []
parse_remote_groups (some header) separator =
    if not (nonempty header)
    then []
    else named_groups (if nonempty separator then split_text separator zero header else header ∷ [])

-- `/` and the text, unless it is there.
abbrev pub with_slash : String → String
with_slash s = if starts_with s "/" then s else String.◌++◌ "/" s

-- `_strip_prefix`, by a prefix that has its leading slash and no trailing one.
unfoldable pub strip_normalized : String → String → String
unfolding starts_with drop size
strip_normalized path normalized =
    if normalized == "/"
    then path
    else if path == normalized
    then "/"
    else if starts_with path (String.◌++◌ normalized "/")
    then with_slash (drop (size normalized) path)
    else path

-- `_strip_prefix`
unfoldable pub strip_prefix : String → Option String → String
unfolding nonempty strip rstrip_slash strip_normalized
strip_prefix path prefix =
    let normalized = rstrip_slash (strip (or_blank prefix)) in
    if not (nonempty path) || not (truthy prefix)
    then path
    else if not (nonempty normalized)
    then path
    else strip_normalized path (with_slash normalized)

-- `_STATIC_PREFIX_APPLICABLE_PREFIXES`
abbrev pub static_prefix_applicable_prefixes : List String
static_prefix_applicable_prefixes =
    "/" ∷ "/health" ∷ "/metrics" ∷ "/version" ∷ "/server-info" ∷ "/api" ∷ "/ajax-api"
    ∷ "/get-artifact" ∷ "/model-versions/get-artifact" ∷ "/static-files" ∷ "/graphql" ∷ "/gateway"
    ∷ "/v1/traces" ∷ []

-- `stripped == candidate or stripped.startswith(f"{candidate}/")`
abbrev pub is_under : String → String → Bool
is_under path candidate = path == candidate || starts_with path (String.◌++◌ candidate "/")

-- `_get_static_prefix`, of the environment variable
abbrev pub get_static_prefix : Option String → Option String
get_static_prefix variable = if truthy variable then variable else none

-- `_strip_static_prefix`
unfoldable pub strip_static_prefix : Option String → String → String
unfolding strip_prefix nonempty starts_with
strip_static_prefix variable path =
    let prefix = get_static_prefix variable in
    let stripped = strip_prefix path prefix in
    if not (truthy prefix)
    then path
    else if stripped == path
    then path
    else if any (is_under stripped) static_prefix_applicable_prefixes
    then stripped
    else path

-- `a or b`
abbrev pub or_path : Option String → String → String
or_path a b = if truthy a then or_blank a else b

-- `_canonicalize_path`
unfoldable pub canonicalize_path :
    Option String → String → Option String → Option String → Option String → Option String → String
unfolding strip_static_prefix strip_prefix nonempty
canonicalize_path static_prefix raw_path path_info scope_path root_path script_name =
    let path = or_path path_info (or_path scope_path raw_path) in
    if not (nonempty path)
    then path
    else strip_static_prefix static_prefix
        (strip_prefix (strip_prefix (with_slash path) root_path) script_name)

-- `UNPROTECTED_PATH_PREFIXES` and `UNPROTECTED_PATHS` of auth/constants.py
abbrev pub unprotected_path_prefixes : List String
unprotected_path_prefixes = "/static" ∷ "/favicon.ico" ∷ "/health" ∷ "/build" ∷ []

abbrev pub unprotected_paths : List String
unprotected_paths =
    "/" ∷ "/health" ∷ "/version" ∷ "/server-info" ∷ "/metrics" ∷ "/api/3.0/mlflow/server-info"
    ∷ "/ajax-api/3.0/mlflow/server-info" ∷ "/ajax-api/3.0/mlflow/ui-telemetry" ∷ []

-- `_is_unprotected_path`
unfoldable pub is_unprotected_path : String → Bool
unfolding starts_with
is_unprotected_path path =
    any (λ prefix. starts_with path prefix) unprotected_path_prefixes
    || contains unprotected_paths path
