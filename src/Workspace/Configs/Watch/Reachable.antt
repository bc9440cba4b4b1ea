-- ===== src/Workspace/Configs/Watch/Reachable.antt =====
-- The watch loop and the requests of `MlflowConfigCache`, and the invariant.
use mlflow_integration.Shared.{
  String, Bool, true, false, ◌||◌, not, Option, none, some, List, [], ◌∷◌, string_eq, nat_eqb,
  Outcome, ok, raised, api, is_some, ◌≡◌, refl, subst, if_intro,
}
use mlflow_integration.Shared.Dict.{put-Entries, pop-Entries, put-IsDistinct, pop-IsDistinct}
use mlflow_integration.Shared.Json.{as_object, Fields}
use mlflow_integration.Shared.Action.{Keeps, Keeps-modify, Keeps-bind, Keeps-pure}
use mlflow_integration.Workspace.Manifest.{
  EventType, added, modified, deleted, bookmark, error, Ending, exhausted, failed,
}
use mlflow_integration.Workspace.Configs.{
  ConfigInfo, ConfigCache, extract_info, metadata_of, namespace_of, refresh_full,
}
use mlflow_integration.Workspace.Configs.Watch.{
  JsonEvent, JsonTick, event, stop, set_version, store_config, uses, upsert_config, apply_named,
  apply_namespace, apply_metadata, apply_object, handle_kind, handle_event, stop_cache, resume,
  consume, after_stream, watch, Round, watch_after, run_round, run, bookmark_version, raw_version,
}
use mlflow_integration.Workspace.Configs.Invariant.{
  IsConfig, IsValid, extract_info-IsConfig, ensure_if-IsValid, refresh_full-IsValid,
}

-- An object's own info may be filed under the namespace that the event gives.
event_info-IsConfig :
    (item : Fields) (namespace : String)
    → namespace_of (metadata_of item) ≡ some namespace
    → (info : ConfigInfo) → extract_info item ≡ some info
    → IsConfig namespace info
event_info-IsConfig item namespace n info found =
    let (w, named) = extract_info-IsConfig item info found in
    let same : info.namespace ≡ namespace = cc in subst (λ k. IsConfig k info) same w

store_config-IsValid :
    (namespace : String) (o : Option ConfigInfo) (c : ConfigCache)
    → ((info : ConfigInfo) → o ≡ some info → IsConfig namespace info)
    → IsValid c
    → IsValid (store_config namespace o c)
unfolding store_config
store_config-IsValid namespace none c w v = v
store_config-IsValid namespace (some info) c w v = record {
  entries = put-Entries IsConfig namespace info c.configs (w info refl) v.entries;
  distinct = put-IsDistinct namespace info c.configs v.distinct;
}

upsert_config-IsValid :
    (item : Fields) (version : Option String) (namespace : String) (create : Outcome (Unit {0}))
    → namespace_of (metadata_of item) ≡ some namespace
    → Keeps IsValid (upsert_config item version namespace create)
unfolding upsert_config
upsert_config-IsValid item version namespace create n =
    Keeps-bind _ _
      (Keeps-modify
        (λ c. record (store_config namespace (extract_info item) c) { resource_version = version })
        (λ c v.
          let w =
            store_config-IsValid namespace (extract_info item) c
              (event_info-IsConfig item namespace n) v in
          record { entries = w.entries; distinct = w.distinct }))
      (λ _. ensure_if-IsValid (uses (extract_info item)) create)

apply_named-IsValid :
    (kind : EventType) (item : Fields) (version : Option String) (namespace : String)
    (create : Outcome (Unit {0}))
    → namespace_of (metadata_of item) ≡ some namespace
    → Keeps IsValid (apply_named kind item version namespace create)
unfolding apply_named
apply_named-IsValid added item version namespace create n =
    upsert_config-IsValid item version namespace create n
apply_named-IsValid modified item version namespace create n =
    upsert_config-IsValid item version namespace create n
apply_named-IsValid deleted item version namespace create n = Keeps-modify _ (λ c v. record {
  entries = pop-Entries IsConfig namespace c.configs v.entries;
  distinct = pop-IsDistinct namespace c.configs v.distinct;
})
apply_named-IsValid kind item version namespace create n =
    Keeps-modify _ (λ c v. record { entries = v.entries; distinct = v.distinct })

apply_namespace-IsValid :
    (kind : EventType) (item : Fields) (version o : Option String) (create : Outcome (Unit {0}))
    → namespace_of (metadata_of item) ≡ o
    → Keeps IsValid (apply_namespace kind item version o create)
unfolding apply_namespace
apply_namespace-IsValid kind item version none create n = Keeps-pure tt
apply_namespace-IsValid kind item version (some namespace) create n =
    apply_named-IsValid kind item version namespace create n

apply_metadata-IsValid :
    (kind : EventType) (item : Fields) (o : Option Fields) (create : Outcome (Unit {0}))
    → metadata_of item ≡ o
    → Keeps IsValid (apply_metadata kind item o create)
unfolding apply_metadata
apply_metadata-IsValid kind item none create m = Keeps-pure tt
apply_metadata-IsValid kind item (some metadata) create m =
    apply_namespace-IsValid kind item (raw_version metadata) (namespace_of (some metadata)) create
      (rw m)

apply_object-IsValid :
    (kind : EventType) (o : Option Fields) (create : Outcome (Unit {0}))
    → Keeps IsValid (apply_object kind o create)
unfolding apply_object
apply_object-IsValid kind none create = Keeps-pure tt
apply_object-IsValid kind (some item) create =
    apply_metadata-IsValid kind item (metadata_of item) create refl

set_version-IsValid : (o : Option String) (c : ConfigCache) → IsValid c → IsValid (set_version o c)
unfolding set_version
set_version-IsValid none c v = v
set_version-IsValid (some version) c v = record { entries = v.entries; distinct = v.distinct }

handle_kind-IsValid :
    (kind : EventType) (o : Option Fields) (create : Outcome (Unit {0}))
    → Keeps IsValid (handle_kind kind o create)
unfolding handle_kind
handle_kind-IsValid error o create =
    Keeps-modify _ (λ c v. record { entries = v.entries; distinct = v.distinct })
handle_kind-IsValid bookmark o create = Keeps-modify _ (set_version-IsValid (bookmark_version o))
handle_kind-IsValid kind o create = apply_object-IsValid kind o create

-- Every event keeps the invariant, also where it raises.
pub handle_event-IsValid :
    (e : JsonEvent) (create : Outcome (Unit {0})) → Keeps IsValid (handle_event e create)
unfolding handle_event
handle_event-IsValid e create = handle_kind-IsValid e.type (as_object (some e.payload)) create

resume-IsValid :
    (next : ConfigCache → Ending × ConfigCache) (r : Outcome (Unit {0}) × ConfigCache)
    → ((c : ConfigCache) → IsValid c → IsValid (next c).1)
    → IsValid r.1
    → IsValid (resume next r).1
unfolding resume
resume-IsValid next (ok _, c) keep v =
    if_intro (λ (r : Ending × ConfigCache). IsValid r.1) (is_some c.resource_version)
      (λ _. keep c v) (λ _. v)
resume-IsValid next (raised f, c) keep v = v

consume-IsValid :
    (ticks : List JsonTick) (ending : Ending) (c : ConfigCache)
    → IsValid c
    → IsValid (consume ticks ending c).1
unfolding consume
consume-IsValid [] ending c v = v
consume-IsValid (stop ∷ ticks) ending c v =
    consume-IsValid ticks ending (stop_cache c)
      (record { entries = v.entries; distinct = v.distinct })
consume-IsValid (event e create ∷ ticks) ending c v =
    if_intro (λ (r : Ending × ConfigCache). IsValid r.1) c.stopped (λ _. v)
      (λ _.
        resume-IsValid (consume ticks ending) (handle_event e create c)
          (consume-IsValid ticks ending) ((handle_event-IsValid e create).at c v))

after_stream-IsValid :
    (ending : Ending) (c : ConfigCache) → IsValid c → IsValid (after_stream ending c)
unfolding after_stream
after_stream-IsValid (failed (api status)) c v =
    if_intro IsValid (nat_eqb status 404 || nat_eqb status 403)
      (λ _. record { entries = tt; distinct = tt }) (λ _. v)
after_stream-IsValid (failed _) c v = v
after_stream-IsValid exhausted c v = v

watch-IsValid :
    (ticks : List JsonTick) (ending : Ending) (c : ConfigCache)
    → IsValid c
    → IsValid (watch ticks ending c)
unfolding watch
watch-IsValid ticks ending c v =
    let w =
      after_stream-IsValid (consume ticks ending c).0 (consume ticks ending c).1
        (consume-IsValid ticks ending c v) in
    record { entries = w.entries; distinct = w.distinct }

watch_after-IsValid :
    (ticks : List JsonTick) (ending : Ending) (r : Outcome Bool × ConfigCache)
    → IsValid r.1
    → IsValid (watch_after ticks ending r)
unfolding watch_after
watch_after-IsValid ticks ending (ok true, c) v =
    if_intro IsValid c.crd_available (λ _. watch-IsValid ticks ending c v) (λ _. v)
watch_after-IsValid ticks ending (ok false, c) v = v
watch_after-IsValid ticks ending (raised f, c) v = v

run_round-IsValid : (r : Round) (c : ConfigCache) → IsValid c → IsValid (run_round r c)
unfolding run_round
run_round-IsValid r c v =
    if_intro IsValid (not c.crd_available)
      (λ _.
        if_intro IsValid c.stopped (λ _. record { entries = v.entries; distinct = v.distinct })
          (λ _. record { entries = v.entries; distinct = v.distinct }))
      (λ _.
        if_intro IsValid (is_some c.resource_version) (λ _. watch-IsValid r.ticks r.ending c v)
          (λ _.
            watch_after-IsValid r.ticks r.ending (refresh_full false r.relist r.create c)
              ((refresh_full-IsValid false r.relist r.create).at c v)))

-- However the API, the streams and the secret cache behave, a run of the watch loop keeps each
-- entry filed under its own, nonempty namespace, and no namespace twice, if it was so before.
pub configs_run-IsValid :
    (rounds : List Round) (c : ConfigCache) → IsValid c → IsValid (run rounds c)
unfolding run
configs_run-IsValid [] c v = v
configs_run-IsValid (r ∷ rounds) c v =
    if_intro IsValid c.stopped (λ _. v)
      (λ _. configs_run-IsValid rounds (run_round r c) (run_round-IsValid r c v))
