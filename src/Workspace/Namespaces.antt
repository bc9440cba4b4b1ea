-- ===== src/Workspace/Namespaces.antt =====
-- caches.py, `NamespaceCache`: namespaces by name, kept by a watch loop. A lock makes each handler
-- one step; waits and log lines are left out. The Kubernetes API is a parameter: the answer that
-- one call gets.
pub mod Watch
pub mod Invariant
pub mod Reachable
pub mod Reads
pub mod View
use mlflow_integration.Shared.{
  String, Bool, true, false, ◌&&◌, ◌||◌, not, Option, none, some, List, [], ◌∷◌, ◌++◌, map, ℕ,
  if◌then◌else◌, string_eq, nat_eqb, ◌==◌, Outcome, ok, raised, mlflow, api, http, not_implemented,
  unexpected, ErrorCode, internal_error, invalid_parameter_value, permission_denied, Failure,
  unauthenticated, ◌>>=◌, ◌>>◌, get_or,
}
use mlflow_integration.Shared.Dict.{Dict, find, put, pop}
use mlflow_integration.Shared.Text.{nonempty, truthy}
use mlflow_integration.Shared.Json
use mlflow_integration.Shared.Json.{Json, null, boolean, number, text, array, object, as_text}
use mlflow_integration.Workspace.Manifest.{
  Metadata, Manifest, EventType, added, modified, deleted, bookmark, error, other, EventObject,
  missing, raw, typed, Event, Listing,
}
use mlflow_integration.Workspace.Globs.{is_excluded}

abbrev pub description_annotation : String
description_annotation = "mlflow.kubeflow.org/workspace-description"

pub record NamespaceInfo : Type 0 where
  pub name : String
  pub description : Option String

-- The fields that change, and the globs; `ready` and `stopped` are the two events.
pub record NamespaceCache : Type 0 where
  pub exclude_globs : List String
  pub label_selector : Option String
  pub namespaces : Dict String NamespaceInfo
  pub resource_version : Option String
  pub ready : Bool
  pub stopped : Bool

-- metadata.name, if it is a nonempty text
unfoldable pub usable : Option String → Option String
unfolding nonempty
usable none = none
usable (some s) = if nonempty s then some s else none

abbrev pub metadata_name : Option Metadata → Option String
metadata_name none = none
metadata_name (some m) = m.name

abbrev pub metadata_version : Option Metadata → Option String
metadata_version none = none
metadata_version (some m) = m.resource_version

abbrev pub metadata_annotations : Option Metadata → Dict String String
metadata_annotations none = []
metadata_annotations (some m) = m.annotations

named_info : List String → Option Metadata → Option String → Option NamespaceInfo
named_info globs metadata none = none
named_info globs metadata (some name) =
    if is_excluded globs name
    then none
    else some (record {
      name = name;
      description = find description_annotation (metadata_annotations metadata);
    })

-- `_extract_info`
unfoldable pub extract_info : List String → Manifest → Option NamespaceInfo
unfolding named_info usable
extract_info globs namespace =
    named_info globs namespace.metadata (usable (metadata_name namespace.metadata))

-- `infos[info.name] = info`, unless there is no info.
file_info : Option NamespaceInfo → Dict String NamespaceInfo → Dict String NamespaceInfo
unfolding put
file_info none infos = infos
file_info (some info) infos = put info.name info infos

-- The loop of `_refresh_full` over the items of the answer.
unfoldable pub snapshot_from :
    List String → Dict String NamespaceInfo → List Manifest → Dict String NamespaceInfo
unfolding extract_info file_info
snapshot_from globs infos [] = infos
snapshot_from globs infos (ns ∷ rest) =
    snapshot_from globs (file_info (extract_info globs ns) infos) rest

-- `_refresh_full`, given what the list call returns or raises.
unfoldable pub refresh_full : Outcome (Listing Manifest) → NamespaceCache → Outcome NamespaceCache
unfolding snapshot_from
refresh_full (raised (api status)) c = raised (mlflow invalid_parameter_value)
refresh_full (raised failure) c = raised failure
refresh_full (ok response) c = ok (record c {
  namespaces = snapshot_from c.exclude_globs [] response.items;
  resource_version = response.resource_version;
  ready = true;
})

-- `obj.get("metadata", {})` and `metadata.get("resourceVersion")` on a JSON object; a value that is
-- no JSON object has no `get`. Kubernetes sends a resource version as a text.
raw_version : Option Json → Outcome (Option String)
unfolding Json.get
raw_version none = ok none
raw_version (some (object fields)) = ok (as_text (Json.get "resourceVersion" fields))
raw_version (some v) = raised unexpected

bookmark_version : EventObject → Outcome (Option String)
unfolding raw_version Json.get
bookmark_version missing = ok none
bookmark_version (raw (object fields)) = raw_version (Json.get "metadata" fields)
bookmark_version (raw v) = ok none
bookmark_version (typed namespace) = ok (metadata_version namespace.metadata)

-- What ADDED and MODIFIED do to the entry of the name.
upsert : String → Option NamespaceInfo → Dict String NamespaceInfo → Dict String NamespaceInfo
unfolding put pop
upsert name none infos = pop name infos
upsert name (some info) infos = put name info infos

-- What remains of `_handle_event` once the object has a name.
apply_named : EventType → String → Manifest → NamespaceCache → NamespaceCache
unfolding upsert extract_info pop
apply_named added name obj c = record c {
  namespaces = upsert name (extract_info c.exclude_globs obj) c.namespaces;
  resource_version = metadata_version obj.metadata;
  ready = true;
}
apply_named modified name obj c = record c {
  namespaces = upsert name (extract_info c.exclude_globs obj) c.namespaces;
  resource_version = metadata_version obj.metadata;
  ready = true;
}
apply_named deleted name obj c = record c {
  namespaces = pop name c.namespaces;
  resource_version = metadata_version obj.metadata;
  ready = true;
}
apply_named kind name obj c = record c { resource_version = none }

apply_event : EventType → Option String → Manifest → NamespaceCache → NamespaceCache
unfolding apply_named
apply_event kind none obj c = c
apply_event kind (some name) obj c = apply_named kind name obj c

-- The part of `_handle_event` after the status events; a raw or missing object has no name.
apply_object : EventType → EventObject → NamespaceCache → NamespaceCache
unfolding apply_event usable
apply_object kind (typed obj) c = apply_event kind (usable (metadata_name obj.metadata)) obj c
apply_object kind payload c = c

-- `resource_version or self._resource_version`
abbrev pub newer : Option String → Option String → Option String
newer version old = if truthy version then version else old

-- `_handle_event`, by the type of the event.
handle_kind : EventType → EventObject → NamespaceCache → Outcome NamespaceCache
unfolding apply_object bookmark_version nonempty
handle_kind error payload c = ok (record c { resource_version = none })
handle_kind bookmark payload c = bookmark_version payload >>= λ version.
    ok (record c { resource_version = newer version c.resource_version })
handle_kind kind payload c = ok (apply_object kind payload c)

-- `_handle_event`
unfoldable pub handle_event : Event → NamespaceCache → Outcome NamespaceCache
unfolding handle_kind
handle_event e c = handle_kind e.type e.payload c

-- `_wait_until_ready`: the state is the one at the end of the wait.
unfoldable pub wait_until_ready : NamespaceCache → Outcome (Unit {0})
wait_until_ready c = if c.ready then ok tt else raised (mlflow internal_error)

-- `list_namespaces`
unfoldable pub list_namespaces : NamespaceCache → Outcome (List NamespaceInfo)
unfolding wait_until_ready
list_namespaces c = do wait_until_ready c; ok (map (λ entry. entry.1) c.namespaces)

-- `{401: UNAUTHENTICATED, 403: PERMISSION_DENIED}.get(exc.status, INTERNAL_ERROR)`
unfoldable pub status_code : ℕ → ErrorCode
status_code status =
    if nat_eqb status 401
    then unauthenticated
    else if nat_eqb status 403
    then permission_denied
    else internal_error

-- `if info is not None and info.name == name: return info`, else what the later items give.
unfoldable pub pick_named :
    String → Option NamespaceInfo → Option NamespaceInfo → Option NamespaceInfo
pick_named name none later = later
pick_named name (some info) later = if info.name == name then some info else later

-- The loop of `get_namespace` over the items that the API returned.
unfoldable pub first_named : List String → String → List Manifest → Option NamespaceInfo
unfolding extract_info pick_named
first_named globs name [] = none
first_named globs name (ns ∷ rest) =
    pick_named name (extract_info globs ns) (first_named globs name rest)

-- The call of the API in `get_namespace`, with its exception handlers.
unfoldable pub verify_namespace :
    List String → String → Outcome (List Manifest) → Outcome (Option NamespaceInfo)
unfolding first_named status_code
verify_namespace globs name (ok items) = ok (first_named globs name items)
verify_namespace globs name (raised (api status)) = raised (mlflow (status_code status))
verify_namespace globs name (raised http) = raised (mlflow internal_error)
verify_namespace globs name (raised failure) = raised failure

-- `list_namespace` of the API: a field selector and a label selector to items.
abbrev pub NamespaceApi : Type 0
NamespaceApi = String → Option String → Outcome (List Manifest)

-- `get_namespace` after its look into the cache.
unfoldable pub cached_or_verified :
    NamespaceApi → String → NamespaceCache → Option NamespaceInfo → Outcome (Option NamespaceInfo)
unfolding verify_namespace
cached_or_verified list_namespace name c (some info) = ok (some info)
cached_or_verified list_namespace name c none =
    if is_excluded c.exclude_globs name
    then ok none
    else verify_namespace c.exclude_globs name (list_namespace name c.label_selector)

-- `get_namespace`; the field selector is `metadata.name=<name>`, and is given by the name. It
-- returns no new state: it never writes to the cache.
unfoldable pub get_namespace :
    NamespaceApi → String → NamespaceCache → Outcome (Option NamespaceInfo)
unfolding wait_until_ready cached_or_verified
get_namespace list_namespace name c = do
  wait_until_ready c
  cached_or_verified list_namespace name c (find name c.namespaces)
