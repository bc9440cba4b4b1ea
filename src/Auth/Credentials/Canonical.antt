-- ===== src/Auth/Credentials/Canonical.antt =====
-- The first character of the canonical path of a request.
use mlflow_integration.Shared.{
  String, true, false, not, Option, ◌||◌, string_eq, ◌==◌, ◌≡◌, ◌⊎◌, inl, inr, arith, if_intro, any,
}
use mlflow_integration.Shared.Text.{nonempty, truthy, starts_with, drop, size, strip, rstrip_slash}
use mlflow_integration.Shared.Splitting.{starts_with-append}
use mlflow_integration.Auth.Identity.{or_blank}
use mlflow_integration.Auth.Credentials.{
  with_slash, strip_normalized, strip_prefix, get_static_prefix, is_under, strip_static_prefix,
  or_path, canonicalize_path, static_prefix_applicable_prefixes,
}
use Prim.Native.String

abbrev pub IsAbsolute : String → Type 0
IsAbsolute path = starts_with path "/" ≡ true

with_slash-IsAbsolute : (s : String) → IsAbsolute (with_slash s)
with_slash-IsAbsolute s =
    if_intro IsAbsolute (starts_with s "/") (λ t. t) (λ _. starts_with-append "/" s)

strip_normalized-IsAbsolute :
    (path normalized : String) → IsAbsolute path → IsAbsolute (strip_normalized path normalized)
unfolding strip_normalized
strip_normalized-IsAbsolute path normalized a =
    if_intro IsAbsolute (normalized == "/") (λ _. a)
      (λ _.
        if_intro IsAbsolute (path == normalized) (λ _. starts_with-append "/" "")
          (λ _.
            if_intro IsAbsolute (starts_with path (String.◌++◌ normalized "/"))
              (λ _. with_slash-IsAbsolute (drop (size normalized) path)) (λ _. a)))

strip_prefix-IsAbsolute :
    (path : String) (prefix : Option String)
    → IsAbsolute path
    → IsAbsolute (strip_prefix path prefix)
unfolding strip_prefix
strip_prefix-IsAbsolute path prefix a =
    let normalized = rstrip_slash (strip (or_blank prefix)) in
    if_intro IsAbsolute (not (nonempty path) || not (truthy prefix)) (λ _. a)
      (λ _.
        if_intro IsAbsolute (not (nonempty normalized)) (λ _. a)
          (λ _. strip_normalized-IsAbsolute path (with_slash normalized) a))

strip_static_prefix-IsAbsolute :
    (variable : Option String) (path : String)
    → IsAbsolute path
    → IsAbsolute (strip_static_prefix variable path)
unfolding strip_static_prefix
strip_static_prefix-IsAbsolute variable path a =
    let prefix = get_static_prefix variable in
    if_intro IsAbsolute (not (truthy prefix)) (λ _. a)
      (λ _.
        if_intro IsAbsolute (strip_prefix path prefix == path) (λ _. a)
          (λ _.
            if_intro IsAbsolute
              (any (is_under (strip_prefix path prefix)) static_prefix_applicable_prefixes)
              (λ _. strip_prefix-IsAbsolute path prefix a) (λ _. a)))

-- Whatever the sources of the path and the prefixes are, the canonical path is empty or begins with
-- a slash, and it is empty only if every source is.
pub canonicalize_path-IsAbsolute :
    (static_prefix : Option String) (raw_path : String) (path_info scope_path : Option String)
    (root_path script_name : Option String)
    → let path =
        canonicalize_path static_prefix raw_path path_info scope_path root_path script_name in
      ((nonempty path ≡ false)
        × (nonempty (or_path path_info (or_path scope_path raw_path)) ≡ false))
      ⊎ IsAbsolute path
unfolding canonicalize_path
canonicalize_path-IsAbsolute static_prefix raw_path path_info scope_path root_path script_name =
    let path = or_path path_info (or_path scope_path raw_path) in
    if_intro (λ p. ((nonempty p ≡ false) × (nonempty path ≡ false)) ⊎ IsAbsolute p)
      (not (nonempty path)) (λ t. inl (ground arith, ground arith))
      (λ _. inr (
        strip_static_prefix-IsAbsolute static_prefix _ (
          strip_prefix-IsAbsolute _ script_name
            (strip_prefix-IsAbsolute _ root_path (with_slash-IsAbsolute path)))))
