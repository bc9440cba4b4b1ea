-- ===== src/Tests/Access.antt =====
-- The cache of access reviews, and the reviews.
use mlflow_integration.Shared.{
  String, Bool, true, false, Option, none, some, List, [], ◌∷◌, ℕ, ◌+◌, ◌==◌, string_eq, nat_eq,
  Outcome, ok, raised, api, mlflow, permission_denied, ◌≡◌, refl, arith,
}
use mlflow_integration.Shared.Dict.{find, put, pop, IsDistinct}
use mlflow_integration.Shared.Text.{nonempty, split}
use mlflow_integration.Auth.Expiring.{
  Stored, live, probe, set, discard, Phase, setting, discarding, run, purge, evict,
}
use mlflow_integration.Auth.Expiring.Entries.{IsBounded, run-IsBounded}
use mlflow_integration.Auth.Expiring.Order.{IsKept, set-find, discard-live}
use mlflow_integration.Auth.Identity.{
  self_subject_access_review, subject_access_review, RequestIdentity, serialize, subject_hash,
}
use mlflow_integration.Auth.Access.{
  Settings, Query, Attributes, Subject, of_token, of_user, is_allowed, can_access_workspace,
  workspace_permission_resources, without_underscores, submit, access_key_eq, review_failed,
}
use mlflow_integration.Auth.Access.Soundness.{IsAnswered, After, is_allowed-IsAnswered}
use mlflow_integration.Auth.Access.Workspaces.{IsDecided, can_access_workspace-IsDecided}

abbrev entries : Stored ℕ Bool
entries = (1, (true, 10)) ∷ (2, (false, 30)) ∷ []

distinct : IsDistinct entries
distinct = ground arith

abbrev full : Stored ℕ Bool
full = (1, (true, 10)) ∷ (2, (false, 30)) ∷ (4, (true, 40)) ∷ []

-- The key 1 has expired at 20, and of the other two there is room for one.
full-set : set 5 2 3 true 20 full ≡ (ok tt, (4, (true, 40)) ∷ (3, (true, 25)) ∷ [])
unfolding set purge pop put
full-set = refl

abbrev phases : List (Phase ℕ Bool)
phases = setting 3 true 20 ∷ discarding 1 10 ∷ []

run-IsBounded_example : IsBounded 2 (run 5 2 phases entries)
run-IsBounded_example =
    run-IsBounded 5 2 phases entries (omega arith)
      (record { distinct = distinct; bounded = omega arith })

set-find_example :
    (find 1 (set 5 2 1 false 20 entries).1 ≡ some (false, 20 + 5))
    × ((j : ℕ)
        → (1 == j) ≡ false
        → IsKept 20 (find j (set 5 2 1 false 20 entries).1) (find j entries))
set-find_example = set-find 5 2 1 false 20 entries (omega arith) distinct

-- Another thread renewed the key 1 after it was seen to expire at 9.
found_live : probe 1 9 entries ≡ live true
unfolding probe find
found_live = refl

discard-live_example : probe 1 9 (discard 1 9 entries) ≡ live true
discard-live_example = discard-live 1 1 9 9 true entries (omega arith) found_live

-- A review that allows one user to get experiments in any workspace.
abbrev sha256 : String → String
sha256 s = s

abbrev review : Subject → Attributes → Outcome (Option Bool)
review (of_token t) attributes = raised (api 403)
review (of_user user groups) attributes = ok (some (attributes.resource == "datasets"))

abbrev settings : Settings
settings = record { mode = subject_access_review; ttl = 5; group = "mlflow.kubeflow.org" }

abbrev identity : RequestIdentity
identity = record { token = none; user = some " ann "; groups = "b" ∷ "a" ∷ [] }

abbrev query : Query
query = record {
  resource_type = "data_sets";
  verb = "create";
  namespace = "team-a";
  subresource = none;
  resource_name = some "x";
}

serialized : split 0 (serialize "ann" ("b" ∷ "a" ∷ [])) ≡ "ann" ∷ "a" ∷ "b" ∷ []
unfolding split serialize
serialized = refl

-- The name of a resource to create is left out of the review.
allowed_datasets : (is_allowed sha256 review settings identity query 1 2 []).0 ≡ ok true
unfolding is_allowed set purge evict subject_hash submit without_underscores probe find pop
allowed_datasets = refl

denied_token :
    (is_allowed sha256 review
      (record settings { mode = self_subject_access_review })
      (record identity { token = some "t" })
      query
      1
      2
      []).0
    ≡ raised (mlflow permission_denied)
unfolding is_allowed subject_hash nonempty probe find review_failed submit
denied_token = refl

is_allowed-IsAnswered_example :
    After sha256 review settings
      (IsAnswered sha256 review settings identity query)
      (is_allowed sha256 review settings identity query 1 2 [])
is_allowed-IsAnswered_example =
    is_allowed-IsAnswered sha256 review settings identity query 1 2 [] tt

abbrev clock : String → ℕ × ℕ
clock resource = (1, 2)

can_access_workspace-IsDecided_example :
    After sha256 review settings
      (IsDecided sha256 review settings identity "team-a" "list" clock
        workspace_permission_resources)
      (can_access_workspace sha256 review settings identity "team-a" "list" clock [])
can_access_workspace-IsDecided_example =
    can_access_workspace-IsDecided sha256 review settings identity "team-a" "list" clock [] tt
