-- ===== src/Workspace/Secrets/Invariant.antt =====
-- The invariant of `SecretCache`, and what the watch loop makes of it.
use mlflow_integration.Shared.{
  String, true, Option, none, some, List, [], ◌∷◌, string_eq, nat_eqb, Outcome, ok, raised, api,
  http, is_some, not, ◌≡◌, refl, subst, arith, if_intro, Ensures,
}
use mlflow_integration.Shared.Dict.{
  Dict, Entries, put-Entries, pop-Entries, IsDistinct, put-IsDistinct, pop-IsDistinct,
}
use mlflow_integration.Shared.Text.{nonempty}
use mlflow_integration.Workspace.Manifest.{
  Metadata, Manifest, EventType, added, modified, deleted, bookmark, error, EventObject, missing,
  raw, typed, Event, Listing, Tick, event, stop, Ending, exhausted, failed,
}
use mlflow_integration.Workspace.Secrets.{
  SecretInfo, SecretCache, usable, namespace_of, secret_info, extract_info, file_info,
  snapshot_from, refresh_full, upsert, apply_named, apply_namespace, apply_object, set_version,
  bookmark_version, handle_kind, handle_event,
}
use mlflow_integration.Workspace.Secrets.Watch.{
  stop_cache, Round, consume, after_stream, watch, watch_after, run_round, run,
}

-- An entry is filed under its own namespace, which is not empty.
pub record IsSecret (key : String) (info : SecretInfo) : Type 0 where
  pub filed : info.namespace ≡ key
  pub named : nonempty key ≡ true

pub record IsValid (c : SecretCache) : Type 0 where
  pub entries : Entries IsSecret c.secrets
  pub distinct : IsDistinct c.secrets

usable_lem : (o : Option String) {s : String} → usable o ≡ some s → nonempty s ≡ true
usable_lem none h = cc
usable_lem (some t) h = ground arith

namespace_of_lem :
    (m : Option Metadata) {s : String}
    → (elim m [ none ↦ none | some d ↦ usable d.namespace ]) ≡ some s
    → nonempty s ≡ true
namespace_of_lem none h = cc
namespace_of_lem (some m) h = usable_lem m.namespace h

module _ (decode : String → Option String) where
  secret_info_lem :
      (secret : Manifest) (o : Option String) (info : SecretInfo)
      → secret_info decode secret o ≡ some info
      → o ≡ some info.namespace
  unfolding secret_info
  secret_info_lem secret none info h = cc
  secret_info_lem secret (some namespace) info h = ground arith

  pub extract_info-IsSecret :
      (secret : Manifest) (info : SecretInfo)
      → extract_info decode secret ≡ some info
      → IsSecret info.namespace info × (namespace_of secret ≡ some info.namespace)
  unfolding extract_info
  extract_info-IsSecret secret info h =
      let named = secret_info_lem secret (namespace_of secret) info h in
      (record { filed = refl; named = namespace_of_lem secret.metadata named }, named)

  file_info-IsValid :
      (o : Option SecretInfo) (secrets : Dict String SecretInfo)
      → ((info : SecretInfo) → o ≡ some info → IsSecret info.namespace info)
      → Entries IsSecret secrets
      → IsDistinct secrets
      → Entries IsSecret (file_info decode o secrets) × IsDistinct (file_info decode o secrets)
  unfolding file_info
  file_info-IsValid none secrets w h d = (h, d)
  file_info-IsValid (some info) secrets w h d = (
    put-Entries IsSecret info.namespace info secrets (w info refl) h,
    put-IsDistinct info.namespace info secrets d,
  )

  snapshot_from-IsValid :
      (secrets : Dict String SecretInfo) (items : List Manifest)
      → Entries IsSecret secrets
      → IsDistinct secrets
      → Entries IsSecret (snapshot_from decode secrets items)
        × IsDistinct (snapshot_from decode secrets items)
  unfolding snapshot_from
  snapshot_from-IsValid secrets [] h d = (h, d)
  snapshot_from-IsValid secrets (secret ∷ rest) h d =
      let (e, f) =
        file_info-IsValid (extract_info decode secret) secrets
          (λ info found. (extract_info-IsSecret secret info found).0) h d in
      snapshot_from-IsValid (file_info decode (extract_info decode secret) secrets) rest e f

  pub refresh_full-IsValid :
      (answer : Outcome (Listing Manifest)) (c : SecretCache)
      → Ensures IsValid (refresh_full decode answer c)
  unfolding refresh_full
  refresh_full-IsValid (ok response) c =
      let (e, d) = snapshot_from-IsValid [] response.items tt tt in
      record { entries = e; distinct = d }
  refresh_full-IsValid (raised (api status)) c =
      if_intro (Ensures IsValid) (nat_eqb status 403) (λ _. record { entries = tt; distinct = tt })
        (λ _. tt)
  refresh_full-IsValid (raised http) c = tt
  refresh_full-IsValid (raised _) c = tt

  upsert-IsValid :
      (namespace : String) (o : Option SecretInfo) (secrets : Dict String SecretInfo)
      → ((info : SecretInfo) → o ≡ some info → IsSecret namespace info)
      → Entries IsSecret secrets
      → IsDistinct secrets
      → Entries IsSecret (upsert decode namespace o secrets)
        × IsDistinct (upsert decode namespace o secrets)
  unfolding upsert
  upsert-IsValid namespace none secrets w h d =
      (pop-Entries IsSecret namespace secrets h, pop-IsDistinct namespace secrets d)
  upsert-IsValid namespace (some info) secrets w h d = (
    put-Entries IsSecret namespace info secrets (w info refl) h,
    put-IsDistinct namespace info secrets d,
  )

  event_info-IsSecret :
      (namespace : String) (obj : Manifest)
      → namespace_of obj ≡ some namespace
      → (info : SecretInfo) → extract_info decode obj ≡ some info
      → IsSecret namespace info
  event_info-IsSecret namespace obj n info found =
      let (w, named) = extract_info-IsSecret obj info found in
      let same : info.namespace ≡ namespace = cc in subst (λ k. IsSecret k info) same w

  apply_named-IsValid :
      (kind : EventType) (namespace : String) (obj : Manifest) (c : SecretCache)
      → namespace_of obj ≡ some namespace
      → IsValid c
      → IsValid (apply_named decode kind namespace obj c)
  unfolding apply_named
  apply_named-IsValid added namespace obj c n v =
      let (e, d) =
        upsert-IsValid namespace (extract_info decode obj) c.secrets
          (event_info-IsSecret namespace obj n) v.entries v.distinct in
      record { entries = e; distinct = d }
  apply_named-IsValid modified namespace obj c n v =
      let (e, d) =
        upsert-IsValid namespace (extract_info decode obj) c.secrets
          (event_info-IsSecret namespace obj n) v.entries v.distinct in
      record { entries = e; distinct = d }
  apply_named-IsValid deleted namespace obj c n v = record {
    entries = pop-Entries IsSecret namespace c.secrets v.entries;
    distinct = pop-IsDistinct namespace c.secrets v.distinct;
  }
  apply_named-IsValid kind namespace obj c n v = record {
    entries = v.entries;
    distinct = v.distinct;
  }

  apply_namespace-IsValid :
      (kind : EventType) (o : Option String) (obj : Manifest) (c : SecretCache)
      → namespace_of obj ≡ o
      → IsValid c
      → IsValid (apply_namespace decode kind o obj c)
  unfolding apply_namespace
  apply_namespace-IsValid kind none obj c n v = v
  apply_namespace-IsValid kind (some namespace) obj c n v =
      apply_named-IsValid kind namespace obj c n v

  apply_object-IsValid :
      (kind : EventType) (payload : EventObject) (c : SecretCache)
      → IsValid c
      → IsValid (apply_object decode kind payload c)
  unfolding apply_object
  apply_object-IsValid kind (typed obj) c v =
      apply_namespace-IsValid kind (namespace_of obj) obj c refl v
  apply_object-IsValid kind missing c v = v
  apply_object-IsValid kind (raw j) c v = v

  set_version-IsValid :
      (o : Option String) (c : SecretCache) → IsValid c → IsValid (set_version decode o c)
  unfolding set_version
  set_version-IsValid none c v = v
  set_version-IsValid (some version) c v = record { entries = v.entries; distinct = v.distinct }

  handle_kind-IsValid :
      (kind : EventType) (payload : EventObject) (c : SecretCache)
      → IsValid c
      → IsValid (handle_kind decode kind payload c)
  unfolding handle_kind
  handle_kind-IsValid error payload c v = record { entries = v.entries; distinct = v.distinct }
  handle_kind-IsValid bookmark payload c v =
      set_version-IsValid (bookmark_version decode payload) c v
  handle_kind-IsValid kind payload c v = apply_object-IsValid kind payload c v

  pub handle_event-IsValid :
      (e : Event) (c : SecretCache) → IsValid c → IsValid (handle_event decode e c)
  unfolding handle_event
  handle_event-IsValid e c v = handle_kind-IsValid e.type e.payload c v

  consume-IsValid :
      (ticks : List Tick) (ending : Ending) (c : SecretCache)
      → IsValid c
      → IsValid (consume decode ticks ending c).1
  unfolding consume
  consume-IsValid [] ending c v = v
  consume-IsValid (stop ∷ ticks) ending c v =
      consume-IsValid ticks ending (stop_cache c)
        (record { entries = v.entries; distinct = v.distinct })
  consume-IsValid (event e ∷ ticks) ending c v =
      let w = handle_event-IsValid e c v in
      if_intro (λ (r : Ending × SecretCache). IsValid r.1) c.stopped (λ _. v)
        (λ _.
          if_intro (λ (r : Ending × SecretCache). IsValid r.1)
            (is_some (handle_event decode e c).resource_version)
            (λ _. consume-IsValid ticks ending (handle_event decode e c) w) (λ _. w))

  after_stream-IsValid :
      (ending : Ending) (c : SecretCache) → IsValid c → IsValid (after_stream decode ending c)
  unfolding after_stream
  after_stream-IsValid (failed (api status)) c v =
      if_intro IsValid (nat_eqb status 403) (λ _. record { entries = tt; distinct = tt }) (λ _. v)
  after_stream-IsValid (failed _) c v = v
  after_stream-IsValid exhausted c v = v

  watch-IsValid :
      (ticks : List Tick) (ending : Ending) (c : SecretCache)
      → IsValid c
      → IsValid (watch decode ticks ending c)
  unfolding watch
  watch-IsValid ticks ending c v =
      let r = consume decode ticks ending c in
      let w = after_stream-IsValid r.0 r.1 (consume-IsValid ticks ending c v) in
      record { entries = w.entries; distinct = w.distinct }

  watch_after-IsValid :
      (ticks : List Tick) (ending : Ending) (c : SecretCache) (m : Outcome SecretCache)
      → IsValid c
      → Ensures IsValid m
      → IsValid (watch_after decode ticks ending c m)
  unfolding watch_after
  watch_after-IsValid ticks ending c (ok c') v w =
      if_intro IsValid c'.available (λ _. watch-IsValid ticks ending c' w) (λ _. w)
  watch_after-IsValid ticks ending c (raised f) v w = v

  run_round-IsValid : (r : Round) (c : SecretCache) → IsValid c → IsValid (run_round decode r c)
  unfolding run_round
  run_round-IsValid r c v =
      if_intro IsValid (not c.available)
        (λ _.
          if_intro IsValid c.stopped (λ _. record { entries = v.entries; distinct = v.distinct })
            (λ _. record { entries = v.entries; distinct = v.distinct }))
        (λ _.
          if_intro IsValid (is_some c.resource_version) (λ _. watch-IsValid r.ticks r.ending c v)
            (λ _.
              watch_after-IsValid r.ticks r.ending c (refresh_full decode r.relist c) v
                (refresh_full-IsValid r.relist c)))

  pub run-IsValid :
      (rounds : List Round) (c : SecretCache) → IsValid c → IsValid (run decode rounds c)
  unfolding run
  run-IsValid [] c v = v
  run-IsValid (r ∷ rounds) c v =
      if_intro IsValid c.stopped (λ _. v)
        (λ _. run-IsValid rounds (run_round decode r c) (run_round-IsValid r c v))
