-- ===== src/Workspace/Namespaces/View.antt =====
-- The cache as a map from names to infos, and what an event is to that map.
use mlflow_integration.Shared.{
  String, Bool, true, false, ◌&&◌, Option, none, some, List, if◌then◌else◌, string_eq, ◌==◌,
  Outcome, ok, raised, ◌>>=◌, ◌≡◌, refl, sym, Ensures,
}
use mlflow_integration.Shared.Dict.{Dict, find, find-put, find-pop}
use mlflow_integration.Workspace.Manifest.{
  Manifest, EventType, added, modified, deleted, bookmark, error, EventObject, missing, raw, typed,
  Event,
}
use mlflow_integration.Workspace.Namespaces.{
  NamespaceInfo, NamespaceCache, usable, metadata_name, extract_info, upsert, apply_named,
  apply_event, apply_object, handle_event, handle_kind, bookmark_version, newer,
}

-- The abstract view of a cache.
abbrev pub View : Type 0
View = String → Option NamespaceInfo

abbrev pub view : NamespaceCache → View
view c name = find name c.namespaces

-- What Kubernetes says of the named object: what it is now, or that it is gone.
abbrev pub observed : List String → EventType → Manifest → Option NamespaceInfo
observed globs deleted obj = none
observed globs kind obj = extract_info globs obj

-- Only these three types of events speak of an object.
abbrev pub speaks : EventType → Bool
speaks added = true
speaks modified = true
speaks deleted = true
speaks kind = false

-- The specification: an event that speaks of a typed object with a nonempty name sets the view at
-- that name to what is observed, and no other event changes the view.
abbrev pub observe_named : List String → EventType → Manifest → Option String → View → View
observe_named globs kind obj none v j = v j
observe_named globs kind obj (some name) v j =
    if speaks kind && name == j then observed globs kind obj else v j

abbrev pub observe : List String → EventType → EventObject → View → View
observe globs kind (typed obj) v =
    observe_named globs kind obj (usable (metadata_name obj.metadata)) v
observe globs kind payload v = v

upsert-view :
    (name : String) (o : Option NamespaceInfo) (infos : Dict String NamespaceInfo) (j : String)
    → find j (upsert name o infos) ≡ (if name == j then o else find j infos)
unfolding upsert
upsert-view name none infos j = find-pop name j infos
upsert-view name (some info) infos j = find-put name j info infos

apply_named-view :
    (kind : EventType) (name : String) (obj : Manifest) (c : NamespaceCache) (j : String)
    → view (apply_named kind name obj c) j
      ≡ observe_named c.exclude_globs kind obj (some name) (view c) j
unfolding apply_named
apply_named-view added name obj c j =
    upsert-view name (extract_info c.exclude_globs obj) c.namespaces j
apply_named-view modified name obj c j =
    upsert-view name (extract_info c.exclude_globs obj) c.namespaces j
apply_named-view deleted name obj c j = find-pop name j c.namespaces
apply_named-view kind name obj c j = refl

apply_event-view :
    (kind : EventType) (name : Option String) (obj : Manifest) (c : NamespaceCache) (j : String)
    → view (apply_event kind name obj c) j ≡ observe_named c.exclude_globs kind obj name (view c) j
unfolding apply_event
apply_event-view kind none obj c j = refl
apply_event-view kind (some name) obj c j = apply_named-view kind name obj c j

apply_object-view :
    (kind : EventType) (payload : EventObject) (c : NamespaceCache) (j : String)
    → view (apply_object kind payload c) j ≡ observe c.exclude_globs kind payload (view c) j
unfolding apply_object
apply_object-view kind (typed obj) c j =
    apply_event-view kind (usable (metadata_name obj.metadata)) obj c j
apply_object-view kind missing c j = refl
apply_object-view kind (raw v) c j = refl

silent :
    (globs : List String) (kind : EventType) (payload : EventObject) (v : View) (j : String)
    → speaks kind ≡ false
    → observe globs kind payload v j ≡ v j
silent globs kind missing v j h = refl
silent globs kind (raw x) v j h = refl
silent globs kind (typed obj) v j h = by_name (usable (metadata_name obj.metadata))
  where
    by_name : (o : Option String) → observe_named globs kind obj o v j ≡ v j
    by_name none = refl
    by_name (some name) = rw h

bookmark-view :
    (m : Outcome (Option String)) (c : NamespaceCache) (v : View)
    → ((j : String) → view c j ≡ v j)
    → Ensures
        (λ c'. (j : String) → view c' j ≡ v j)
        (m >>= λ version. ok (record c { resource_version = newer version c.resource_version }))
bookmark-view (ok version) c v h = h
bookmark-view (raised e) c v h = tt

handle_kind-view :
    (kind : EventType) (payload : EventObject) (c : NamespaceCache)
    → Ensures
        (λ c'. (j : String) → view c' j ≡ observe c.exclude_globs kind payload (view c) j)
        (handle_kind kind payload c)
unfolding handle_kind
handle_kind-view error payload c = λ j. sym (silent c.exclude_globs error payload (view c) j refl)
handle_kind-view bookmark payload c =
    bookmark-view (bookmark_version payload) c (observe c.exclude_globs bookmark payload (view c))
      (λ j. sym (silent c.exclude_globs bookmark payload (view c) j refl))
handle_kind-view kind payload c = apply_object-view kind payload c

-- Seen as a map, the cache after an event is the map that the specification gives: an ADDED or
-- MODIFIED object replaces the entry of its name, or removes it if the object is excluded, a
-- DELETED one removes it, and no other entry changes; other events change no entry.
pub handle_event-observe :
    (e : Event) (c : NamespaceCache)
    → Ensures
        (λ c'. (j : String) → view c' j ≡ observe c.exclude_globs e.type e.payload (view c) j)
        (handle_event e c)
unfolding handle_event
handle_event-observe e c = handle_kind-view e.type e.payload c
