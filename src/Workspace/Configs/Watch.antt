-- ===== src/Workspace/Configs/Watch.antt =====
-- caches.py, `MlflowConfigCache._handle_event`, `__init__`, `stop` and `_run`.
pub mod Reachable
use mlflow_integration.Shared.{
  String, Bool, true, false, ◌&&◌, ◌||◌, not, Option, none, some, List, [], ◌∷◌, ℕ, if◌then◌else◌,
  string_eq, nat_eqb, ◌==◌, Outcome, ok, raised, mlflow, api, http, ErrorCode, internal_error,
  permission_denied, unauthenticated, Failure, contains, all, any, is_some,
}
use mlflow_integration.Shared.Action.{Action, ◌>>=◌, ◌>>◌, pure, raise, lift, gets, modify}
use mlflow_integration.Shared.Dict.{Dict, find, put, pop}
use mlflow_integration.Shared.Text.{nonempty}
use mlflow_integration.Shared.Json
use mlflow_integration.Shared.Json.{
  Json, null, boolean, number, text, array, object, as_text, as_object, Fields, end,
}
use mlflow_integration.Workspace.Manifest.{
  EventType, added, modified, deleted, bookmark, error, other, Listing, Ending, exhausted, failed,
}
use mlflow_integration.Workspace.Configs.{
  ConfigInfo, ConfigCache, uses_secret, ensure_if, extract_info, metadata_of, namespace_of,
  nonempty_text, refresh_full, withdraw,
}

-- An event of the stream of custom objects; its object is a JSON value.
pub record JsonEvent : Type 0 where
  pub type : EventType
  pub payload : Json

pub data JsonTick : Type 0 where
  event : JsonEvent → Outcome (Unit {0}) → JsonTick
  stop : JsonTick

set_version : Option String → ConfigCache → ConfigCache
set_version none c = c
set_version (some version) c = record c { resource_version = some version }

version_of : Option Fields → Option String
unfolding nonempty_text
version_of none = none
version_of (some metadata) = nonempty_text (Json.get "resourceVersion" metadata)

raw_version : Fields → Option String
raw_version metadata = as_text (Json.get "resourceVersion" metadata)

-- ADDED and MODIFIED: unlike the other caches, an object without info leaves its entry alone.
store_config : String → Option ConfigInfo → ConfigCache → ConfigCache
store_config namespace none c = c
store_config namespace (some info) c = record c { configs = put namespace info c.configs }

uses : Option ConfigInfo → Bool
uses none = false
uses (some info) = uses_secret info

-- ADDED and MODIFIED of an object of a namespace.
upsert_config : Fields → Option String → String → Outcome (Unit {0}) → Action ConfigCache (Unit {0})
unfolding store_config uses extract_info
upsert_config item version namespace create = do
  modify (λ c. record (store_config namespace (extract_info item) c) { resource_version = version })
  ensure_if (uses (extract_info item)) create

-- The part of `_handle_event` under the lock, and the call that may follow it.
apply_named :
    EventType → Fields → Option String → String → Outcome (Unit {0}) → Action ConfigCache (Unit {0})
unfolding upsert_config
apply_named added item version namespace create = upsert_config item version namespace create
apply_named modified item version namespace create = upsert_config item version namespace create
apply_named deleted item version namespace create =
    modify (λ c. record c { configs = pop namespace c.configs; resource_version = version })
apply_named kind item version namespace create = modify (λ c. record c { resource_version = none })

apply_namespace :
    EventType
    → Fields
    → Option String
    → Option String
    → Outcome (Unit {0})
    → Action ConfigCache (Unit {0})
unfolding apply_named
apply_namespace kind item version none create = pure tt
apply_namespace kind item version (some namespace) create =
    apply_named kind item version namespace create

apply_metadata :
    EventType → Fields → Option Fields → Outcome (Unit {0}) → Action ConfigCache (Unit {0})
unfolding apply_namespace raw_version namespace_of
apply_metadata kind item none create = pure tt
apply_metadata kind item (some metadata) create =
    apply_namespace kind item (raw_version metadata) (namespace_of (some metadata)) create

apply_object : EventType → Option Fields → Outcome (Unit {0}) → Action ConfigCache (Unit {0})
unfolding apply_metadata
apply_object kind none create = pure tt
apply_object kind (some item) create = apply_metadata kind item (metadata_of item) create

-- obj["metadata"]["resourceVersion"], where each step may be missing
bookmark_version : Option Fields → Option String
unfolding version_of
bookmark_version none = none
bookmark_version (some item) = version_of (metadata_of item)

handle_kind : EventType → Option Fields → Outcome (Unit {0}) → Action ConfigCache (Unit {0})
unfolding apply_object bookmark_version set_version
handle_kind error item create = modify (λ c. record c { resource_version = none })
handle_kind bookmark item create = modify (set_version (bookmark_version item))
handle_kind kind item create = apply_object kind item create

-- `_handle_event`
unfoldable pub handle_event : JsonEvent → Outcome (Unit {0}) → Action ConfigCache (Unit {0})
unfolding handle_kind
handle_event e create = handle_kind e.type (as_object (some e.payload)) create

-- `stop`
abbrev pub stop_cache : ConfigCache → ConfigCache
stop_cache c = record c { stopped = true; retry = true }

-- How the loop over the stream ends. An exception of a handler counts as one of the stream.
unfoldable pub resume :
    (ConfigCache → Ending × ConfigCache) → Outcome (Unit {0}) × ConfigCache → Ending × ConfigCache
resume next (ok _, c) = if is_some c.resource_version then next c else (exhausted, c)
resume next (raised failure, c) = (failed failure, c)

-- The `for` loop over the stream.
unfoldable pub consume : List JsonTick → Ending → ConfigCache → Ending × ConfigCache
unfolding handle_event resume
consume [] ending c = (ending, c)
consume (stop ∷ ticks) ending c = consume ticks ending (stop_cache c)
consume (event e create ∷ ticks) ending c =
    let next = resume (consume ticks ending) (handle_event e create c) in
    if c.stopped then (exhausted, c) else next

-- The `except` clauses of the stream: a removed CRD or a revoked permission empties the cache. A 410
-- clears the version, which `finally` does in any case.
unfoldable pub after_stream : Ending → ConfigCache → ConfigCache
after_stream (failed (api status)) c =
    if nat_eqb status 404 || nat_eqb status 403 then withdraw c.crd_missing_logged c else c
after_stream ending c = c

-- The `try` with its handlers and its `finally`.
unfoldable pub watch : List JsonTick → Ending → ConfigCache → ConfigCache
unfolding consume after_stream
watch ticks ending c =
    let (e, c') = consume ticks ending c in record (after_stream e c') { resource_version = none }

-- What the environment does in one round of `_run`.
pub record Round : Type 0 where
  pub relist : Outcome (Listing Fields)
  pub create : Outcome (Unit {0})
  pub ticks : List JsonTick
  pub ending : Ending

-- After the relist: any exception, and a refresh that failed, go back to the head of the loop.
unfoldable pub watch_after : List JsonTick → Ending → Outcome Bool × ConfigCache → ConfigCache
unfolding watch
watch_after ticks ending (ok true, c) = if c.crd_available then watch ticks ending c else c
watch_after ticks ending (ok false, c) = c
watch_after ticks ending (raised failure, c) = c

-- One round of `_run`. While the CRD is unavailable it waits for a request's reload or a timeout,
-- and then tries again, unless it was stopped.
unfoldable pub run_round : Round → ConfigCache → ConfigCache
unfolding watch_after refresh_full
run_round r c =
    if not c.crd_available
    then (if c.stopped
        then record c { retry = false }
        else record c { retry = false; crd_available = true; resource_version = none })
    else if is_some c.resource_version
    then watch r.ticks r.ending c
    else watch_after r.ticks r.ending (refresh_full false r.relist r.create c)

-- `_run`: rounds until the cache is stopped.
unfoldable pub run : List Round → ConfigCache → ConfigCache
unfolding run_round
run [] c = c
run (r ∷ rounds) c = let next = run rounds (run_round r c) in if c.stopped then c else next
