-- ===== src/Workspace/Configs/Agreement.antt =====
-- The three lookups of `MlflowConfigCache` and its snapshot.
use mlflow_integration.Shared.{
  String, true, Option, none, some, List, [], ◌∷◌, if◌then◌else◌, string_eq, ◌==◌, contains, ◌≡◌,
  refl, arith, Bool-cases, inl, inr, ◌∙◌, eq_iff,
}
use mlflow_integration.Shared.Dict.{Dict, find, find-put}
use mlflow_integration.Shared.Json.{Fields}
use mlflow_integration.Workspace.Configs.{
  ConfigInfo, extract_info, lookup_from, kept_info, snapshot_from, file_info,
}
use mlflow_integration.Workspace.Configs.Requests.{restrict}

find-file_info :
    (o : Option ConfigInfo) (configs : Dict String ConfigInfo) (j : String)
    → find j (file_info o configs) ≡ find j (file_info (kept_info (some j) o) configs)
unfolding file_info kept_info
find-file_info none configs j = refl
find-file_info (some info) configs j = elim (Bool-cases (info.namespace == j)) [
  | inl same ↦ rw same
  | inr differs ↦ rw (differs, find-put, differs)
]

file_info-congr :
    (o : Option ConfigInfo) (a b : Dict String ConfigInfo) (j : String)
    → find j a ≡ find j b
    → find j (file_info o a) ≡ find j (file_info o b)
unfolding file_info
file_info-congr none a b j h = h
file_info-congr (some info) a b j h = rw (find-put, find-put, h)

lookup_from-agree :
    (j : String) (items : List Fields) (a b : Dict String ConfigInfo)
    → find j a ≡ find j b
    → find j (lookup_from none a items) ≡ find j (lookup_from (some j) b items)
unfolding lookup_from
lookup_from-agree j [] a b h = h
lookup_from-agree j (item ∷ rest) a b h =
    lookup_from-agree j rest (file_info (extract_info item) a)
      (file_info (kept_info (some j) (extract_info item)) b)
      (find-file_info (extract_info item) a j
        ∙ file_info-congr (kept_info (some j) (extract_info item)) a b j h)

snapshot-lookup :
    (items : List Fields) (configs : Dict String ConfigInfo)
    → snapshot_from configs items ≡ lookup_from none configs items
unfolding snapshot_from lookup_from kept_info
snapshot-lookup [] configs = refl
snapshot-lookup (item ∷ rest) configs = snapshot-lookup rest (file_info (extract_info item) configs)

find-restrict :
    (requested : List String) (configs : Dict String ConfigInfo) (j : String)
    → find j (restrict requested configs) ≡ (if contains requested j then find j configs else none)
unfolding restrict find
find-restrict requested [] j = ground arith
find-restrict requested ((name, info) ∷ configs) j =
    ground (arith, find-restrict requested configs j, eq_iff name j)

-- From one and the same list of objects, the snapshot of a refresh, the lookup of one namespace and
-- the cluster-wide lookup of a listing take the same configuration for a requested namespace.
pub lookups_agree :
    (items : List Fields) (requested : List String) (namespace : String)
    → contains requested namespace ≡ true
    → (find namespace (snapshot_from [] items)
        ≡ find namespace (lookup_from (some namespace) [] items))
      × (find namespace (restrict requested (lookup_from none [] items))
          ≡ find namespace (lookup_from (some namespace) [] items))
lookups_agree items requested namespace h = (
  rw snapshot-lookup (lookup_from-agree namespace items [] [] refl),
  rw (find-restrict, h) (lookup_from-agree namespace items [] [] refl),
)
