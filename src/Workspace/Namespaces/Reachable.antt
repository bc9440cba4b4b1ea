-- ===== src/Workspace/Namespaces/Reachable.antt =====
-- The watch loop of `NamespaceCache` and its invariant.
use mlflow_integration.Shared.{
  String, Option, none, List, [], ◌∷◌, string_eq, Outcome, ok, raised, ◌>>=◌, ◌≡◌, refl, Ensures,
  if_intro, Ensures-bind, is_some-eq-false, is_some,
}
use mlflow_integration.Workspace.Manifest.{Manifest, Listing, Tick, event, stop}
use mlflow_integration.Workspace.Namespaces.{NamespaceCache, refresh_full, handle_event}
use mlflow_integration.Workspace.Namespaces.Invariant.{
  IsValid, refresh_full-IsValid, handle_event-IsValid,
}
use mlflow_integration.Workspace.Namespaces.Watch.{
  resume, watch_after, consume, watch, Round, retries, run_round, run, stop_cache, init,
}

resume-IsValid :
    {globs : List String} (k : NamespaceCache → NamespaceCache) (c : NamespaceCache)
    (m : Outcome NamespaceCache)
    → ((c' : NamespaceCache) → IsValid globs c' → IsValid globs (k c'))
    → IsValid globs c
    → Ensures (IsValid globs) m
    → IsValid globs (resume k c m)
unfolding resume
resume-IsValid {globs} k c (ok c') keep v w =
    if_intro (IsValid globs) (is_some c'.resource_version) (λ _. keep c' w) (λ _. w)
resume-IsValid k c (raised f) keep v w = v

consume-IsValid :
    {globs : List String} (ticks : List Tick) (c : NamespaceCache)
    → IsValid globs c
    → IsValid globs (consume ticks c)
unfolding consume
consume-IsValid [] c v = v
consume-IsValid (stop ∷ ticks) c v =
    consume-IsValid ticks (stop_cache c)
      (record { kept = v.kept; entries = v.entries; distinct = v.distinct })
consume-IsValid {globs} (event e ∷ ticks) c v =
    if_intro (IsValid globs) c.stopped (λ _. v)
      (λ _.
        resume-IsValid (consume ticks) c (handle_event e c) (consume-IsValid ticks) v
          (handle_event-IsValid e c v))

watch-IsValid :
    {globs : List String} (ticks : List Tick) (c : NamespaceCache)
    → IsValid globs c
    → IsValid globs (watch ticks c)
unfolding watch
watch-IsValid ticks c v =
    let w = consume-IsValid ticks c v in
    record { kept = w.kept; entries = w.entries; distinct = w.distinct }

watch_after-IsValid :
    {globs : List String} (ticks : List Tick) (c : NamespaceCache) (m : Outcome NamespaceCache)
    → IsValid globs c
    → Ensures (IsValid globs) m
    → Ensures (IsValid globs) (watch_after ticks c m)
unfolding watch_after
watch_after-IsValid ticks c (ok c') v w = watch-IsValid ticks c' w
watch_after-IsValid {globs} ticks c (raised f) v w =
    if_intro (Ensures (IsValid globs)) (retries f) (λ _. v) (λ _. tt)

run_round-IsValid :
    {globs : List String} (r : Round) (c : NamespaceCache)
    → IsValid globs c
    → Ensures (IsValid globs) (run_round r c)
unfolding run_round
run_round-IsValid {globs} r c v =
    if_intro (Ensures (IsValid globs)) (is_some c.resource_version) (λ _. watch-IsValid r.ticks c v)
      (λ _.
        watch_after-IsValid r.ticks c (refresh_full r.relist c) v
          (refresh_full-IsValid r.relist c v.kept))

pub run-IsValid :
    {globs : List String} (rounds : List Round) (c : NamespaceCache)
    → IsValid globs c
    → Ensures (IsValid globs) (run rounds c)
unfolding run
run-IsValid [] c v = v
run-IsValid {globs} (r ∷ rounds) c v =
    if_intro (Ensures (IsValid globs)) c.stopped (λ _. v)
      (λ _.
        Ensures-bind (IsValid globs) (IsValid globs) (run_round r c) (run rounds)
          (run_round-IsValid r c v) (run-IsValid rounds))

-- Whatever the API answers and whatever the streams deliver, in any order and over any number of
-- rounds, a cache that was constructed holds only namespaces that are filed under their own,
-- nonempty names and that none of its globs excludes, and no name twice.
pub init-run-IsValid :
    (globs : List String) (label_selector : Option String) (answer : Outcome (Listing Manifest))
    (rounds : List Round)
    → Ensures (IsValid globs) (init globs label_selector answer >>= run rounds)
unfolding init
init-run-IsValid globs label_selector answer rounds =
    Ensures-bind (IsValid globs) (IsValid globs) (init globs label_selector answer) (run rounds)
      (refresh_full-IsValid answer _ refl) (run-IsValid rounds)

watch_after-relists :
    (ticks : List Tick) (c : NamespaceCache) (m : Outcome NamespaceCache)
    → c.resource_version ≡ none
    → Ensures (λ c'. c'.resource_version ≡ none) (watch_after ticks c m)
unfolding watch_after watch
watch_after-relists ticks c (ok c') e = refl
watch_after-relists ticks c (raised f) e =
    if_intro (Ensures (λ c'. c'.resource_version ≡ none)) (retries f) (λ _. e) (λ _. tt)

-- After any round that no exception ends, the cache has no resource version, so that the next round
-- lists again.
pub run_round-relists :
    (r : Round) (c : NamespaceCache) → Ensures (λ c'. c'.resource_version ≡ none) (run_round r c)
unfolding run_round watch
run_round-relists r c =
    if_intro (Ensures (λ c'. c'.resource_version ≡ none)) (is_some c.resource_version) (λ _. refl)
      (λ h.
        watch_after-relists r.ticks c (refresh_full r.relist c)
          (is_some-eq-false c.resource_version h))
