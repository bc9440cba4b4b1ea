-- ===== src/Workspace/Secrets/Watch.antt =====
-- caches.py, `SecretCache.__init__`, `stop` and `_run`.
use mlflow_integration.Shared.{
  String, true, false, Option, none, List, [], ◌∷◌, if◌then◌else◌, nat_eqb, Outcome, ok, raised,
  api, is_some, not,
}
use mlflow_integration.Workspace.Manifest.{
  Manifest, Listing, Tick, event, stop, Ending, exhausted, failed,
}
use mlflow_integration.Workspace.Secrets.{SecretCache, refresh_full, handle_event}

-- `stop`
abbrev pub stop_cache : SecretCache → SecretCache
stop_cache c = record c { stopped = true; retry = true }

-- What the environment does in one round of `_run`.
pub record Round : Type 0 where
  pub relist : Outcome (Listing Manifest)
  pub ticks : List Tick
  pub ending : Ending

module _ (decode : String → Option String) where
  -- `__init__`: the first refresh may raise.
  unfoldable pub init : Outcome (Listing Manifest) → Outcome SecretCache
  init answer = refresh_full decode answer (record {
    secrets = [];
    resource_version = none;
    ready = false;
    stopped = false;
    retry = false;
    available = true;
  })

  -- The `for` loop over the stream.
  unfoldable pub consume : List Tick → Ending → SecretCache → Ending × SecretCache
  consume [] ending c = (ending, c)
  consume (stop ∷ ticks) ending c = consume ticks ending (stop_cache c)
  consume (event e ∷ ticks) ending c =
      let c' = handle_event decode e c in
      let next = consume ticks ending c' in
      if c.stopped
      then (exhausted, c)
      else if is_some c'.resource_version
      then next
      else (exhausted, c')

  -- The `except` clauses of the stream. A 410 clears the version, which `finally` does in any case.
  unfoldable pub after_stream : Ending → SecretCache → SecretCache
  after_stream (failed (api status)) c =
      if nat_eqb status 403
      then record c { available = false; secrets = []; resource_version = none }
      else c
  after_stream ending c = c

  -- The `try` with its handlers and its `finally`.
  unfoldable pub watch : List Tick → Ending → SecretCache → SecretCache
  unfolding consume after_stream
  watch ticks ending c =
      let (e, c') = consume ticks ending c in record (after_stream e c') { resource_version = none }

  -- After the relist; a refresh that raised leaves the cache as it was.
  unfoldable pub watch_after : List Tick → Ending → SecretCache → Outcome SecretCache → SecretCache
  unfolding watch
  watch_after ticks ending c (ok c') = if c'.available then watch ticks ending c' else c'
  watch_after ticks ending c (raised failure) = c

  -- One round of `_run`. While the secrets may not be listed it waits, and then tries again, unless
  -- it was stopped.
  unfoldable pub run_round : Round → SecretCache → SecretCache
  unfolding watch_after
  run_round r c =
      if not c.available
      then (if c.stopped
          then record c { retry = false }
          else record c { retry = false; available = true; resource_version = none })
      else if is_some c.resource_version
      then watch r.ticks r.ending c
      else watch_after r.ticks r.ending c (refresh_full decode r.relist c)

  -- `_run`: rounds until the cache is stopped.
  unfoldable pub run : List Round → SecretCache → SecretCache
  unfolding run_round
  run [] c = c
  run (r ∷ rounds) c = let next = run rounds (run_round r c) in if c.stopped then c else next
