-- ===== src/Workspace/Namespaces/Watch.antt =====
-- caches.py, `NamespaceCache.__init__`, `stop` and `_run`. The environment of one round of the loop
-- is given: what the relist answers, what the stream delivers, and how it ends.
use mlflow_integration.Shared.{
  String, Bool, true, false, Option, none, List, [], ◌∷◌, if◌then◌else◌, Outcome, ok, raised,
  mlflow, http, Failure, ◌>>=◌, is_some,
}
use mlflow_integration.Workspace.Manifest.{Manifest, Listing, Tick, event, stop}
use mlflow_integration.Workspace.Namespaces.{NamespaceCache, refresh_full, handle_event}

-- `stop`
abbrev pub stop_cache : NamespaceCache → NamespaceCache
stop_cache c = record c { stopped = true }

-- `__init__`: the first refresh happens in the constructor and may raise.
unfoldable pub init :
    List String → Option String → Outcome (Listing Manifest) → Outcome NamespaceCache
unfolding refresh_full
init globs label_selector answer = refresh_full answer (record {
  exclude_globs = globs;
  label_selector = label_selector;
  namespaces = [];
  resource_version = none;
  ready = false;
  stopped = false;
})

-- After a handler: the loop goes on while there is a version to watch from. An exception leaves the
-- cache as it was, and ends the loop.
unfoldable pub resume :
    (NamespaceCache → NamespaceCache) → NamespaceCache → Outcome NamespaceCache → NamespaceCache
resume continue c (ok c') = if is_some c'.resource_version then continue c' else c'
resume continue c (raised failure) = c

-- The `for` loop over the stream. Each exception of a handler or of the stream is caught, so only
-- the state is kept: the `except` clauses differ in what they log and how long they wait, and a 410
-- clears the version, which `finally` does in any case.
unfoldable pub consume : List Tick → NamespaceCache → NamespaceCache
unfolding handle_event resume
consume [] c = c
consume (stop ∷ ticks) c = consume ticks (stop_cache c)
consume (event e ∷ ticks) c =
    let next = resume (consume ticks) c (handle_event e c) in if c.stopped then c else next

-- The `try` with its handlers and its `finally`: every way out clears the resource version.
unfoldable pub watch : List Tick → NamespaceCache → NamespaceCache
unfolding consume
watch ticks c = record (consume ticks c) { resource_version = none }

pub record Round : Type 0 where
  pub relist : Outcome (Listing Manifest)
  pub ticks : List Tick

-- `except (MlflowException, HTTPError)` around the relist
unfoldable pub retries : Failure → Bool
retries (mlflow code) = true
retries http = true
retries failure = false

-- What follows a relist.
unfoldable pub watch_after :
    List Tick → NamespaceCache → Outcome NamespaceCache → Outcome NamespaceCache
unfolding watch retries
watch_after ticks c (ok c') = ok (watch ticks c')
watch_after ticks c (raised failure) = if retries failure then ok c else raised failure

-- One round of `_run`. Any other exception of the relist ends the thread.
unfoldable pub run_round : Round → NamespaceCache → Outcome NamespaceCache
unfolding watch_after refresh_full
run_round r c =
    if is_some c.resource_version
    then ok (watch r.ticks c)
    else watch_after r.ticks c (refresh_full r.relist c)

-- `_run`: rounds until the cache is stopped.
unfoldable pub run : List Round → NamespaceCache → Outcome NamespaceCache
unfolding run_round
run [] c = ok c
run (r ∷ rounds) c = let next = run_round r c >>= run rounds in if c.stopped then ok c else next
