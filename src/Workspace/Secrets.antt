-- ===== src/Workspace/Secrets.antt =====
-- caches.py, `SecretCache`: the bucket of each namespace, from the shared artifact-connection Secret.
-- `decode` stands for base64 and UTF-8 decoding, and gives nothing where one of them fails.
pub mod Watch
pub mod Invariant
pub mod Reads
use mlflow_integration.Shared.{
  String, Bool, true, false, Option, none, some, List, [], ◌∷◌, ℕ, if◌then◌else◌, string_eq,
  nat_eqb, ◌==◌, Outcome, ok, raised, mlflow, api, http, internal_error, Failure, ◌>>=◌, ◌>>◌,
  is_some, not,
}
use mlflow_integration.Shared.Dict.{Dict, find, put, pop}
use mlflow_integration.Shared.Text.{nonempty}
use mlflow_integration.Shared.Json
use mlflow_integration.Shared.Json.{Json, object, as_text, as_object, Fields}
use mlflow_integration.Workspace.Manifest.{
  Metadata, Manifest, EventType, added, modified, deleted, bookmark, error, other, EventObject,
  missing, raw, typed, Event, Listing,
}
use mlflow_integration.Workspace.Configs.{storage_code}
use Prim.Native.String

pub record SecretInfo : Type 0 where
  pub namespace : String
  pub bucket_uri : Option String

pub record SecretCache : Type 0 where
  pub secrets : Dict String SecretInfo
  pub resource_version : Option String
  pub ready : Bool
  pub stopped : Bool
  pub retry : Bool
  pub available : Bool

-- A nonempty text, or nothing.
abbrev pub usable : Option String → Option String
usable none = none
usable (some s) = if nonempty s then some s else none

abbrev pub namespace_of : Manifest → Option String
namespace_of secret = elim secret.metadata [ none ↦ none | some m ↦ usable m.namespace ]

abbrev pub version_of : Manifest → Option String
version_of secret = elim secret.metadata [ none ↦ none | some m ↦ m.resource_version ]

module _ (decode : String → Option String) where
  abbrev uri_of : Option String → Option String
  uri_of none = none
  uri_of (some bucket) = some (String.◌++◌ "s3://" bucket)

  decode_raw : Option String → Option String
  decode_raw none = none
  decode_raw (some s) = if nonempty s then uri_of (decode s) else none

  -- `_decode_bucket_uri`
  unfoldable pub decode_bucket_uri : Dict String String → Option String
  unfolding decode_raw
  decode_bucket_uri contents = decode_raw (find "AWS_S3_BUCKET" contents)

  secret_info : Manifest → Option String → Option SecretInfo
  secret_info secret none = none
  secret_info secret (some namespace) =
      some (record { namespace = namespace; bucket_uri = decode_bucket_uri secret.contents })

  -- `_extract_info`
  unfoldable pub extract_info : Manifest → Option SecretInfo
  unfolding secret_info
  extract_info secret = secret_info secret (namespace_of secret)

  file_info : Option SecretInfo → Dict String SecretInfo → Dict String SecretInfo
  file_info none secrets = secrets
  file_info (some info) secrets = put info.namespace info secrets

  -- The loop of `_refresh_full`.
  unfoldable pub snapshot_from : Dict String SecretInfo → List Manifest → Dict String SecretInfo
  unfolding file_info
  snapshot_from secrets [] = secrets
  snapshot_from secrets (secret ∷ rest) =
      snapshot_from (file_info (extract_info secret) secrets) rest

  -- `_refresh_full`: a 403 withdraws the cache, and every other failure is raised.
  unfoldable pub refresh_full : Outcome (Listing Manifest) → SecretCache → Outcome SecretCache
  unfolding snapshot_from
  refresh_full (ok response) c = ok (record c {
    secrets = snapshot_from [] response.items;
    resource_version = response.resource_version;
    available = true;
    ready = true;
  })
  refresh_full (raised (api status)) c =
      if nat_eqb status 403
      then ok (record c { available = false; secrets = []; resource_version = none; ready = true })
      else raised (mlflow (storage_code (api status)))
  refresh_full (raised http) c = raised (mlflow (storage_code http))
  refresh_full (raised failure) c = raised failure

  upsert : String → Option SecretInfo → Dict String SecretInfo → Dict String SecretInfo
  upsert namespace none secrets = pop namespace secrets
  upsert namespace (some info) secrets = put namespace info secrets

  -- What remains of `_handle_event` once the object has a namespace.
  apply_named : EventType → String → Manifest → SecretCache → SecretCache
  unfolding upsert
  apply_named added namespace obj c = record c {
    secrets = upsert namespace (extract_info obj) c.secrets;
    resource_version = version_of obj;
    ready = true;
  }
  apply_named modified namespace obj c = record c {
    secrets = upsert namespace (extract_info obj) c.secrets;
    resource_version = version_of obj;
    ready = true;
  }
  apply_named deleted namespace obj c = record c {
    secrets = pop namespace c.secrets;
    resource_version = version_of obj;
    ready = true;
  }
  apply_named kind namespace obj c = record c { resource_version = none }

  apply_namespace : EventType → Option String → Manifest → SecretCache → SecretCache
  unfolding apply_named
  apply_namespace kind none obj c = c
  apply_namespace kind (some namespace) obj c = apply_named kind namespace obj c

  apply_object : EventType → EventObject → SecretCache → SecretCache
  unfolding apply_namespace
  apply_object kind (typed obj) c = apply_namespace kind (namespace_of obj) obj c
  apply_object kind payload c = c

  set_version : Option String → SecretCache → SecretCache
  set_version none c = c
  set_version (some version) c = record c { resource_version = some version }

  raw_version : Option Fields → Option String
  raw_version none = none
  raw_version (some metadata) = usable (as_text (Json.get "resourceVersion" metadata))

  bookmark_version : EventObject → Option String
  unfolding raw_version
  bookmark_version missing = none
  bookmark_version (raw (object fields)) = raw_version (as_object (Json.get "metadata" fields))
  bookmark_version (raw v) = none
  bookmark_version (typed obj) = usable (version_of obj)

  handle_kind : EventType → EventObject → SecretCache → SecretCache
  unfolding apply_object set_version bookmark_version
  handle_kind error payload c = record c { resource_version = none }
  handle_kind bookmark payload c = set_version (bookmark_version payload) c
  handle_kind kind payload c = apply_object kind payload c

  -- `_handle_event`
  unfoldable pub handle_event : Event → SecretCache → SecretCache
  unfolding handle_kind
  handle_event e c = handle_kind e.type e.payload c

  pick_info : String → Option SecretInfo → Option SecretInfo → Option SecretInfo
  pick_info namespace none later = later
  pick_info namespace (some info) later = if info.namespace == namespace then some info else later

  -- The loop of `get_secret` over the items that the API returned.
  unfoldable pub first_of_namespace : String → List Manifest → Option SecretInfo
  unfolding pick_info
  first_of_namespace namespace [] = none
  first_of_namespace namespace (secret ∷ rest) =
      pick_info namespace (extract_info secret) (first_of_namespace namespace rest)

  -- The call of the API in `get_secret`: a 404 says that the namespace is gone.
  unfoldable pub verify_secret : String → Outcome (List Manifest) → Outcome (Option SecretInfo)
  verify_secret namespace (ok items) = ok (first_of_namespace namespace items)
  verify_secret namespace (raised (api status)) =
      if nat_eqb status 404 then ok none else raised (mlflow (storage_code (api status)))
  verify_secret namespace (raised http) = raised (mlflow (storage_code http))
  verify_secret namespace (raised failure) = raised failure

  cached_or_verified :
      String → Outcome (List Manifest) → Option SecretInfo → Outcome (Option SecretInfo)
  cached_or_verified namespace answer (some info) = ok (some info)
  cached_or_verified namespace answer none = verify_secret namespace answer

  -- `get_secret`, with what the API answers for the namespace. It never writes to the cache.
  unfoldable pub get_secret :
      (String → Outcome (List Manifest)) → String → SecretCache → Outcome (Option SecretInfo)
  unfolding cached_or_verified
  get_secret list namespace c =
      if c.ready
      then (if c.available
          then cached_or_verified namespace (list namespace) (find namespace c.secrets)
          else ok none)
      else raised (mlflow internal_error)
