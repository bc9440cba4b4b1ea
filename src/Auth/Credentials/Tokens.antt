-- ===== src/Auth/Credentials/Tokens.antt =====
-- What the parsers of the identity headers return.
use mlflow_integration.Shared.{
  String, true, not, Option, none, some, List, [], ◌∷◌, if◌then◌else◌, Outcome, ok, raised, mlflow,
  unauthenticated, ◌≡◌, refl, arith, if_intro, All, zero,
}
use mlflow_integration.Shared.Text.{nonempty, strip}
use mlflow_integration.Auth.Credentials.{
  forwarded_token, or_forwarded, header_token, resolve_bearer_token, named_groups,
  parse_remote_groups, split_text,
}

-- A token that is not empty, or the exception UNAUTHENTICATED.
abbrev pub IsToken : Outcome String → Type 0
IsToken (ok token) = nonempty token ≡ true
IsToken (raised failure) = failure ≡ mlflow unauthenticated

forwarded_token-IsToken : (token : String) → IsToken (forwarded_token token)
unfolding forwarded_token
forwarded_token-IsToken token = ground arith

or_forwarded-IsToken : (forwarded : Option String) → IsToken (or_forwarded forwarded)
unfolding or_forwarded
or_forwarded-IsToken none = refl
or_forwarded-IsToken (some header) = forwarded_token-IsToken (strip header)

header_token-IsToken :
    (header : String) (forwarded : Option String) → IsToken (header_token header forwarded)
unfolding header_token
header_token-IsToken header forwarded = ground (arith, or_forwarded-IsToken forwarded)

-- For any headers, `_resolve_bearer_token` returns a token that is not empty, or raises with the code
-- UNAUTHENTICATED.
pub resolve_bearer_token-IsToken :
    (header forwarded : Option String) → IsToken (resolve_bearer_token header forwarded)
unfolding resolve_bearer_token
resolve_bearer_token-IsToken none forwarded = or_forwarded-IsToken forwarded
resolve_bearer_token-IsToken (some header) forwarded = header_token-IsToken header forwarded

named_groups-nonempty :
    (tokens : List String) → All (λ group. nonempty group ≡ true) (named_groups tokens)
unfolding named_groups
named_groups-nonempty [] = tt
named_groups-nonempty (token ∷ tokens) = ground (arith, named_groups-nonempty tokens)

-- No group of `_parse_remote_groups` is empty, whatever the header and the separator.
pub parse_remote_groups-nonempty :
    (header : Option String) (separator : String)
    → All (λ group. nonempty group ≡ true) (parse_remote_groups header separator)
unfolding parse_remote_groups
parse_remote_groups-nonempty none separator = tt
parse_remote_groups-nonempty (some header) separator =
    if_intro (All (λ group. nonempty group ≡ true)) (not (nonempty header)) (λ _. tt)
      (λ _.
        named_groups-nonempty
          (if nonempty separator then split_text separator zero header else header ∷ []))
