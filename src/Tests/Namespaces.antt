-- ===== src/Tests/Namespaces.antt =====
-- The namespace cache and its configuration.
use mlflow_integration.Shared.{
  String, true, false, Option, none, some, List, [], ◌∷◌, ok, raised, api, http, ◌≡◌, refl, ◌>>=◌,
  Ensures, ◌↔◌, contains, string_eq, any,
}
use mlflow_integration.Shared.Dict.{Dict, find, put, pop}
use mlflow_integration.Shared.Text.{nonempty, strip, split}
use mlflow_integration.Shared.Fnmatch.{fnmatchcase}
use mathlib.Core.Bool.{xor}
use mlflow_integration.Workspace.Globs.{
  merge_globs, is_excluded, default_namespace_exclude_globs, parse_glob_input, text,
}
use mlflow_integration.Workspace.Globs.Merging.{is_distinct, mentions, merge_globs_lem}
use mlflow_integration.Workspace.Config.{store_config}
use mlflow_integration.Workspace.Config.Exclusion.{store_config-excludes_defaults}
use mlflow_integration.Workspace.Manifest.{
  Manifest, Event, added, modified, deleted, error, typed, missing, Listing, event, stop,
}
use mlflow_integration.Workspace.Namespaces.{
  NamespaceCache, NamespaceInfo, NamespaceApi, extract_info, handle_event, get_namespace,
}
use mlflow_integration.Workspace.Namespaces.Watch.{Round, init, run, run_round}
use mlflow_integration.Workspace.Namespaces.Invariant.{IsValid}
use mlflow_integration.Workspace.Namespaces.Reachable.{init-run-IsValid, run_round-relists}
use mlflow_integration.Workspace.Namespaces.Reads.{
  IsFound, get_namespace-IsWorkspace, IsAbsent, get_namespace-absent_iff,
}
use mlflow_integration.Workspace.Namespaces.View.{view, observe, handle_event-observe}

program : Unit {0}
unfolding fnmatchcase find put pop nonempty extract_info handle_event run init is_excluded strip
    split xor
program = tt

abbrev namespace : String → Manifest
namespace name = record {
  metadata = some (record {
    name = some name;
    namespace = none;
    resource_version = some "7";
    annotations = ("mlflow.kubeflow.org/workspace-description", "of a team") ∷ [];
  });
  contents = [];
}

abbrev globs : List String
globs = default_namespace_exclude_globs

abbrev listing : Listing Manifest
listing = record {
  items = namespace "team-a" ∷ namespace "kube-system" ∷ [];
  resource_version = some "5";
}

abbrev team_a : NamespaceInfo
team_a = record { name = "team-a"; description = some "of a team" }

abbrev cache : NamespaceCache
cache = record {
  exclude_globs = globs;
  label_selector = none;
  namespaces = ("team-a", team_a) ∷ [];
  resource_version = some "5";
  ready = true;
  stopped = false;
}

abbrev rounds : List Round
rounds =
    record {
      relist = raised http;
      ticks =
          event (record { type = added; payload = typed (namespace "team-b") })
          ∷ event (record { type = deleted; payload = typed (namespace "team-a") })
          ∷ [];
    }
    ∷ record { relist = raised http; ticks = stop ∷ [] }
    ∷ []

-- "kube-system" is listed and excluded.
init-listing : init globs none (ok listing) ≡ ok cache
unfolding program
init-listing = refl

run-rounds :
    run rounds cache
    ≡ ok (record cache {
      namespaces = ("team-b", record { name = "team-b"; description = some "of a team" }) ∷ [];
      resource_version = none;
    })
unfolding program
run-rounds = refl

globs_of_text : parse_glob_input (some (text " a , ,b*,")) ≡ some ("a" ∷ "b*" ∷ [])
unfolding program parse_glob_input
globs_of_text = refl

classes :
    (fnmatchcase "team-7x" "team-[0-9]?" ≡ true)
    × (fnmatchcase "team-ax" "team-[!0-9]?" ≡ true)
    × (fnmatchcase "a]" "a[]]" ≡ true)
    × (fnmatchcase "a[b" "a[b" ≡ true)
    × (fnmatchcase "ab" "a[b-a]" ≡ false)
unfolding program
classes = (refl, refl, refl, refl, refl)

abbrev lists : List (Option (List String))
lists = some ("a" ∷ "b" ∷ []) ∷ none ∷ some ("b" ∷ "c" ∷ []) ∷ []

merge_globs_lem_example :
    (is_distinct (merge_globs lists) ≡ true)
    × ((p : String) → contains (merge_globs lists) p ≡ any (λ l. mentions l p) lists)
merge_globs_lem_example = merge_globs_lem lists

abbrev query : Dict String (List String)
query = ("namespace_exclude_globs", "sandbox-*,openshift" ∷ []) ∷ []

store_config-excludes_defaults_example :
    (is_distinct (store_config [] query).namespace_exclude_globs ≡ true)
    × ((name : String)
        → is_excluded default_namespace_exclude_globs name ≡ true
        → is_excluded (store_config [] query).namespace_exclude_globs name ≡ true)
store_config-excludes_defaults_example = store_config-excludes_defaults [] query

init-run-IsValid_example : Ensures (IsValid globs) (init globs none (ok listing) >>= run rounds)
init-run-IsValid_example = init-run-IsValid globs none (ok listing) rounds

abbrev round : Round
round = record {
  relist = ok listing;
  ticks = event (record { type = error; payload = missing }) ∷ [];
}

run_round-relists_example : Ensures (λ c. c.resource_version ≡ none) (run_round round cache)
run_round-relists_example = run_round-relists round cache

abbrev excluded : Event
excluded = record { type = modified; payload = typed (namespace "kube-system") }

handle_event-observe_example :
    Ensures
      (λ c. (j : String) → view c j ≡ observe globs excluded.type excluded.payload (view cache) j)
      (handle_event excluded cache)
handle_event-observe_example = handle_event-observe excluded cache

cache-IsValid : IsValid globs cache
unfolding program
cache-IsValid = record {
  kept = refl;
  entries = (record { filed = refl; named = refl; allowed = refl }, tt);
  distinct = (tt, tt);
}

abbrev denied : NamespaceApi
denied name selector = raised (api 403)

get_namespace-IsWorkspace_example :
    Ensures (IsFound globs "team-a") (get_namespace denied "team-a" cache)
get_namespace-IsWorkspace_example = get_namespace-IsWorkspace denied "team-a" cache cache-IsValid

get_namespace-absent_iff_example :
    (get_namespace denied "team-b" cache ≡ ok none)
    ↔ ((find "team-b" cache.namespaces ≡ none) × IsAbsent denied "team-b" cache)
get_namespace-absent_iff_example = get_namespace-absent_iff denied "team-b" cache refl
