-- ===== src/Workspace/Configs/Invariant.antt =====
-- The invariant of `MlflowConfigCache`: a refresh, the events and the requests.
use mlflow_integration.Shared.{
  String, Bool, true, false, Option, none, some, List, [], ◌∷◌, string_eq, nat_eqb, Outcome, ok,
  raised, api, Failure, ◌≡◌, refl, arith, if_intro,
}
use mlflow_integration.Shared.Dict.{Dict, Entries, put-Entries, IsDistinct, put-IsDistinct}
use mlflow_integration.Shared.Text.{nonempty}
use mlflow_integration.Shared.Json
use mlflow_integration.Shared.Json.{
  Json, null, boolean, number, text, array, object, as_text, as_object, Fields, end,
}
use mlflow_integration.Shared.Action.{
  modify, Keeps, keeps_rules, Keeps-modify, Keeps-bind, Keeps-gets, Keeps-pure,
}
use mlflow_integration.Workspace.Manifest.{Listing}
use mlflow_integration.Workspace.Configs.{
  ConfigInfo, ConfigCache, ensure_if, ensure_secret_cache, extract_info, config_info, metadata_of,
  namespace_of, nonempty_text, refresh_full, refresh_failed, withdraw, take_snapshot, snapshot_from,
  file_info, set_ready, try_reload,
}

-- An entry is filed under its own namespace, which is not empty.
pub record IsConfig (key : String) (info : ConfigInfo) : Type 0 where
  pub filed : info.namespace ≡ key
  pub named : nonempty key ≡ true

pub record IsValid (c : ConfigCache) : Type 0 where
  pub entries : Entries IsConfig c.configs
  pub distinct : IsDistinct c.configs

nonempty_text_lem : (v : Option Json) {s : String} → nonempty_text v ≡ some s → nonempty s ≡ true
unfolding nonempty_text
nonempty_text_lem (some (text t)) h = ground arith
nonempty_text_lem (some null) h = cc
nonempty_text_lem (some _) h = cc
nonempty_text_lem none h = cc

namespace_of_lem : (m : Option Fields) {s : String} → namespace_of m ≡ some s → nonempty s ≡ true
unfolding namespace_of
namespace_of_lem none h = cc
namespace_of_lem (some metadata) h = nonempty_text_lem (Json.get "namespace" metadata) h

config_info_lem :
    (item : Fields) (o : Option String) (info : ConfigInfo)
    → config_info item o ≡ some info
    → o ≡ some info.namespace
unfolding config_info
config_info_lem item none info h = cc
config_info_lem item (some namespace) info h = ground arith

-- What `_extract_info` returns may be filed under the namespace of the object.
pub extract_info-IsConfig :
    (item : Fields) (info : ConfigInfo)
    → extract_info item ≡ some info
    → IsConfig info.namespace info × (namespace_of (metadata_of item) ≡ some info.namespace)
unfolding extract_info
extract_info-IsConfig item info h =
    let named = config_info_lem item (namespace_of (metadata_of item)) info h in
    (record { filed = refl; named = namespace_of_lem (metadata_of item) named }, named)

-- Whatever the option holds may be filed.
abbrev pub IsInfo : Option ConfigInfo → Type 0
IsInfo o = (info : ConfigInfo) → o ≡ some info → IsConfig info.namespace info

pub file_info-IsValid :
    (o : Option ConfigInfo) (configs : Dict String ConfigInfo)
    → IsInfo o
    → Entries IsConfig configs
    → IsDistinct configs
    → Entries IsConfig (file_info o configs) × IsDistinct (file_info o configs)
unfolding file_info
file_info-IsValid none configs w h d = (h, d)
file_info-IsValid (some info) configs w h d = (
  put-Entries IsConfig info.namespace info configs (w info refl) h,
  put-IsDistinct info.namespace info configs d,
)

snapshot_from-IsValid :
    (configs : Dict String ConfigInfo) (items : List Fields)
    → Entries IsConfig configs
    → IsDistinct configs
    → Entries IsConfig (snapshot_from configs items) × IsDistinct (snapshot_from configs items)
unfolding snapshot_from
snapshot_from-IsValid configs [] h d = (h, d)
snapshot_from-IsValid configs (item ∷ rest) h d =
    let (e, f) =
      file_info-IsValid (extract_info item) configs
        (λ info found. (extract_info-IsConfig item info found).0) h d in
    snapshot_from-IsValid (file_info (extract_info item) configs) rest e f

ensure_secret_cache-IsValid :
    (create : Outcome (Unit {0})) → Keeps IsValid (ensure_secret_cache create)
unfolding ensure_secret_cache
ensure_secret_cache-IsValid (ok _) = record {
  at = λ c v.
      if_intro (λ (r : Outcome (Unit {0}) × ConfigCache). IsValid r.1) c.secret_cache (λ _. v)
        (λ _. record { entries = v.entries; distinct = v.distinct });
}
ensure_secret_cache-IsValid (raised e) = record {
  at = λ c v.
      if_intro (λ (r : Outcome (Unit {0}) × ConfigCache). IsValid r.1) c.secret_cache (λ _. v)
        (λ _. v);
}

pub ensure_if-IsValid :
    (wanted : Bool) (create : Outcome (Unit {0})) → Keeps IsValid (ensure_if wanted create)
ensure_if-IsValid true create = ensure_secret_cache-IsValid create
ensure_if-IsValid false create = Keeps-pure tt

take_snapshot-IsValid :
    (response : Listing Fields) → Keeps IsValid (modify (take_snapshot response))
take_snapshot-IsValid response = Keeps-modify (take_snapshot response) (λ c v.
    let (e, d) = snapshot_from-IsValid [] response.items tt tt in
    record { entries = e; distinct = d })

set_ready-IsValid : Keeps IsValid (modify set_ready)
set_ready-IsValid =
    Keeps-modify set_ready (λ c v. record { entries = v.entries; distinct = v.distinct })

withdraw-IsValid : (logged : Bool) (c : ConfigCache) → IsValid (withdraw logged c)
withdraw-IsValid logged c = record { entries = tt; distinct = tt }

abbrev Kept : Outcome Bool × ConfigCache → Type 0
Kept r = IsValid r.1

refresh_failed-IsValid :
    (raise_on_error : Bool) (failure : Failure)
    → Keeps IsValid (refresh_failed raise_on_error failure)
unfolding refresh_failed
refresh_failed-IsValid raise_on_error (api status) = record {
  at = λ c v.
      if_intro Kept (nat_eqb status 404) (λ _. record { entries = tt; distinct = tt })
        (λ _.
          if_intro Kept (nat_eqb status 403) (λ _. record { entries = tt; distinct = tt })
            (λ _.
              if_intro Kept raise_on_error (λ _. v)
                (λ _. record { entries = v.entries; distinct = v.distinct })));
}
refresh_failed-IsValid raise_on_error _ = record {
  at = λ c v.
      if_intro Kept raise_on_error (λ _. v)
        (λ _. record { entries = v.entries; distinct = v.distinct });
}

-- Every refresh keeps the invariant, whatever the API answers.
pub refresh_full-IsValid :
    (raise_on_error : Bool) (answer : Outcome (Listing Fields)) (create : Outcome (Unit {0}))
    → Keeps IsValid (refresh_full raise_on_error answer create)
unfolding refresh_full
refresh_full-IsValid raise_on_error (raised failure) create =
    refresh_failed-IsValid raise_on_error failure
refresh_full-IsValid raise_on_error (ok response) create =
    search (keeps_rules, take_snapshot-IsValid, ensure_if-IsValid, set_ready-IsValid)

pub try_reload-IsValid :
    (answer : Outcome (Listing Fields)) (create : Outcome (Unit {0}))
    → Keeps IsValid (try_reload answer create)
unfolding try_reload
try_reload-IsValid answer create =
    Keeps-bind (refresh_full true answer create) _ (refresh_full-IsValid true answer create) (λ _.
      Keeps-bind (modify (λ c. record c { retry = true })) _
        (Keeps-modify _ (λ c v. record { entries = v.entries; distinct = v.distinct }))
        (λ _. Keeps-gets (λ c. c.crd_available)))
