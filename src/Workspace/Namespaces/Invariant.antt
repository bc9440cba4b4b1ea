-- ===== src/Workspace/Namespaces/Invariant.antt =====
-- The invariant of `NamespaceCache`, a refresh and the events.
use mlflow_integration.Shared.{
  String, true, false, Option, none, some, List, [], ◌∷◌, string_eq, Outcome, ok, raised, api,
  ◌>>=◌, ◌≡◌, refl, subst, Ensures, arith,
}
use mlflow_integration.Shared.Dict.{
  Dict, Entries, put-Entries, pop-Entries, IsDistinct, put-IsDistinct, pop-IsDistinct,
}
use mlflow_integration.Shared.Text.{nonempty}
use mlflow_integration.Workspace.Manifest.{
  Metadata, Manifest, EventType, added, modified, deleted, bookmark, error, EventObject, missing,
  raw, typed, Event, Listing,
}
use mlflow_integration.Workspace.Globs.{is_excluded}
use mlflow_integration.Workspace.Namespaces.{
  NamespaceInfo, NamespaceCache, usable, metadata_name, extract_info, named_info, snapshot_from,
  file_info, refresh_full, upsert, apply_named, apply_event, apply_object, handle_event,
  handle_kind, bookmark_version, newer,
}

-- An entry is filed under its own name, which is not empty and which no glob excludes.
pub record IsWorkspace (globs : List String) (key : String) (info : NamespaceInfo) : Type 0 where
  pub filed : info.name ≡ key
  pub named : nonempty key ≡ true
  pub allowed : is_excluded globs key ≡ false

-- `globs` are those that the cache was made with.
pub record IsValid (globs : List String) (c : NamespaceCache) : Type 0 where
  pub kept : c.exclude_globs ≡ globs
  pub entries : Entries (IsWorkspace c.exclude_globs) c.namespaces
  pub distinct : IsDistinct c.namespaces

pub usable_lem :
    (name : Option String) {s : String}
    → usable name ≡ some s
    → (nonempty s ≡ true) × (name ≡ some s)
unfolding usable
usable_lem none h = cc
usable_lem (some t) h = ground arith

named_info_lem :
    (globs : List String) (m : Option Metadata) (n : Option String) (info : NamespaceInfo)
    → named_info globs m n ≡ some info
    → (n ≡ some info.name) × (is_excluded globs info.name ≡ false)
unfolding named_info
named_info_lem globs m none info h = cc
named_info_lem globs m (some name) info h = ground arith

-- What `_extract_info` returns may be filed under the name of the object.
pub extract_info-IsWorkspace :
    (globs : List String) (ns : Manifest) (info : NamespaceInfo)
    → extract_info globs ns ≡ some info
    → IsWorkspace globs info.name info × (usable (metadata_name ns.metadata) ≡ some info.name)
unfolding extract_info
extract_info-IsWorkspace globs ns info h =
    let (named, allowed) =
      named_info_lem globs ns.metadata (usable (metadata_name ns.metadata)) info h in
    (
      record {
        filed = refl;
        named = (usable_lem (metadata_name ns.metadata) named).0;
        allowed = allowed;
      },
      named,
    )

file_info-IsValid :
    (globs : List String) (o : Option NamespaceInfo) (infos : Dict String NamespaceInfo)
    → ((info : NamespaceInfo) → o ≡ some info → IsWorkspace globs info.name info)
    → Entries (IsWorkspace globs) infos
    → IsDistinct infos
    → Entries (IsWorkspace globs) (file_info o infos) × IsDistinct (file_info o infos)
unfolding file_info
file_info-IsValid globs none infos w h d = (h, d)
file_info-IsValid globs (some info) infos w h d = (
  put-Entries (IsWorkspace globs) info.name info infos (w info refl) h,
  put-IsDistinct info.name info infos d,
)

snapshot_from-IsValid :
    (globs : List String) (infos : Dict String NamespaceInfo) (items : List Manifest)
    → Entries (IsWorkspace globs) infos
    → IsDistinct infos
    → Entries (IsWorkspace globs) (snapshot_from globs infos items)
      × IsDistinct (snapshot_from globs infos items)
unfolding snapshot_from
snapshot_from-IsValid globs infos [] h d = (h, d)
snapshot_from-IsValid globs infos (ns ∷ rest) h d =
    let (e, f) =
      file_info-IsValid globs (extract_info globs ns) infos
        (λ info found. (extract_info-IsWorkspace globs ns info found).0) h d in
    snapshot_from-IsValid globs (file_info (extract_info globs ns) infos) rest e f

-- A refresh files what it lists, whatever the cache held before.
pub refresh_full-IsValid :
    {globs : List String} (answer : Outcome (Listing Manifest)) (c : NamespaceCache)
    → c.exclude_globs ≡ globs
    → Ensures (IsValid globs) (refresh_full answer c)
unfolding refresh_full
refresh_full-IsValid (ok response) c k =
    let (e, d) = snapshot_from-IsValid c.exclude_globs [] response.items tt tt in
    record { kept = k; entries = e; distinct = d }
refresh_full-IsValid (raised (api status)) c k = tt
refresh_full-IsValid (raised _) c k = tt

upsert-IsValid :
    (globs : List String) (name : String) (o : Option NamespaceInfo)
    (infos : Dict String NamespaceInfo)
    → ((info : NamespaceInfo) → o ≡ some info → IsWorkspace globs name info)
    → Entries (IsWorkspace globs) infos
    → IsDistinct infos
    → Entries (IsWorkspace globs) (upsert name o infos) × IsDistinct (upsert name o infos)
unfolding upsert
upsert-IsValid globs name none infos w h d =
    (pop-Entries (IsWorkspace globs) name infos h, pop-IsDistinct name infos d)
upsert-IsValid globs name (some info) infos w h d = (
  put-Entries (IsWorkspace globs) name info infos (w info refl) h,
  put-IsDistinct name info infos d,
)

-- An object's own info may be filed under the name that the event gives.
event_info-IsWorkspace :
    (globs : List String) (name : String) (obj : Manifest)
    → usable (metadata_name obj.metadata) ≡ some name
    → (info : NamespaceInfo) → extract_info globs obj ≡ some info
    → IsWorkspace globs name info
event_info-IsWorkspace globs name obj n info found =
    let (w, named) = extract_info-IsWorkspace globs obj info found in
    let same : info.name ≡ name = cc in subst (λ k. IsWorkspace globs k info) same w

apply_named-IsValid :
    {globs : List String} (kind : EventType) (name : String) (obj : Manifest) (c : NamespaceCache)
    → usable (metadata_name obj.metadata) ≡ some name
    → IsValid globs c
    → IsValid globs (apply_named kind name obj c)
unfolding apply_named
apply_named-IsValid added name obj c n v =
    let (e, d) =
      upsert-IsValid c.exclude_globs name (extract_info c.exclude_globs obj) c.namespaces
        (event_info-IsWorkspace c.exclude_globs name obj n) v.entries v.distinct in
    record { kept = v.kept; entries = e; distinct = d }
apply_named-IsValid modified name obj c n v =
    let (e, d) =
      upsert-IsValid c.exclude_globs name (extract_info c.exclude_globs obj) c.namespaces
        (event_info-IsWorkspace c.exclude_globs name obj n) v.entries v.distinct in
    record { kept = v.kept; entries = e; distinct = d }
apply_named-IsValid deleted name obj c n v = record {
  kept = v.kept;
  entries = pop-Entries (IsWorkspace c.exclude_globs) name c.namespaces v.entries;
  distinct = pop-IsDistinct name c.namespaces v.distinct;
}
apply_named-IsValid kind name obj c n v = record {
  kept = v.kept;
  entries = v.entries;
  distinct = v.distinct;
}

apply_event-IsValid :
    {globs : List String} (kind : EventType) (name : Option String) (obj : Manifest)
    (c : NamespaceCache)
    → usable (metadata_name obj.metadata) ≡ name
    → IsValid globs c
    → IsValid globs (apply_event kind name obj c)
unfolding apply_event
apply_event-IsValid kind none obj c n v = v
apply_event-IsValid kind (some name) obj c n v = apply_named-IsValid kind name obj c n v

apply_object-IsValid :
    {globs : List String} (kind : EventType) (payload : EventObject) (c : NamespaceCache)
    → IsValid globs c
    → IsValid globs (apply_object kind payload c)
unfolding apply_object
apply_object-IsValid kind (typed obj) c v =
    apply_event-IsValid kind (usable (metadata_name obj.metadata)) obj c refl v
apply_object-IsValid kind missing c v = v
apply_object-IsValid kind (raw j) c v = v

set_version-IsValid :
    {globs : List String} (m : Outcome (Option String)) (f : Option String → Option String)
    (c : NamespaceCache)
    → IsValid globs c
    → Ensures (IsValid globs) (m >>= λ version. ok (record c { resource_version = f version }))
set_version-IsValid (ok version) f c v = record {
  kept = v.kept;
  entries = v.entries;
  distinct = v.distinct;
}
set_version-IsValid (raised e) f c v = tt

handle_kind-IsValid :
    {globs : List String} (kind : EventType) (payload : EventObject) (c : NamespaceCache)
    → IsValid globs c
    → Ensures (IsValid globs) (handle_kind kind payload c)
unfolding handle_kind
handle_kind-IsValid error payload c v = record {
  kept = v.kept;
  entries = v.entries;
  distinct = v.distinct;
}
handle_kind-IsValid bookmark payload c v =
    set_version-IsValid (bookmark_version payload) (λ version. newer version c.resource_version) c v
handle_kind-IsValid kind payload c v = apply_object-IsValid kind payload c v

-- Every event keeps the invariant.
pub handle_event-IsValid :
    {globs : List String} (e : Event) (c : NamespaceCache)
    → IsValid globs c
    → Ensures (IsValid globs) (handle_event e c)
unfolding handle_event
handle_event-IsValid e c v = handle_kind-IsValid e.type e.payload c v
