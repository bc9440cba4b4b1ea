-- ===== src/Workspace/Provider/Workspaces.antt =====
-- The names of the workspaces that a client gets.
use mlflow_integration.Shared.{
  String, false, Option, none, some, List, [], ◌∷◌, Outcome, ok, raised, ◌≡◌, refl, ap, if_intro,
  Ensures, map, subst, Ensures-bind,
}
use mlflow_integration.Shared.Action.{Returns, continue-Returns, lift-Returns}
use mlflow_integration.Shared.Dict.{Dict}
use mlflow_integration.Workspace.Globs.{is_excluded}
use mlflow_integration.Workspace.Namespaces.{
  NamespaceInfo, NamespaceCache, list_namespaces, get_namespace, wait_until_ready,
}
use mlflow_integration.Workspace.Namespaces.Invariant.{IsValid}
use mlflow_integration.Workspace.Namespaces.Reads.{IsFound, get_namespace-IsWorkspace}
use mlflow_integration.Workspace.Configs.{ConfigInfo}
use mlflow_integration.Workspace.Configs.Requests.{get_configs}
use mlflow_integration.Workspace.Provider.{
  Provider, Cluster, with_configs, answers, workspace_root, workspace_root_from, make_workspaces,
  list_workspaces, found_workspace, get_workspace,
}

-- The names that the listing of a cache gives.
abbrev pub names_of : NamespaceCache → List String
names_of c = map (λ info. info.name) (map (λ entry. entry.1) c.namespaces)

-- A listing that returned is the listing of the cache.
abbrev IsListing : NamespaceCache → List NamespaceInfo → Type 0
IsListing c infos = infos ≡ map (λ entry. entry.1) c.namespaces

list_namespaces-IsListing : (c : NamespaceCache) → Ensures (IsListing c) (list_namespaces c)
unfolding list_namespaces wait_until_ready
list_namespaces-IsListing c =
    Ensures-bind (λ _. Unit {0}) (IsListing c) (wait_until_ready c)
      (λ _. ok (map (λ entry. entry.1) c.namespaces))
      (if_intro (Ensures (λ _. Unit {0})) c.ready (λ _. tt) (λ _. tt)) (λ _ _. refl)

module _ (decode : String → Option String) (append_to_uri_path : String → String → String) where
  any_result : {A : Type 0} (r : Outcome A × Provider) → Returns (λ _ _. Unit {0}) r
  any_result (ok a, p) = tt
  any_result (raised e, p) = tt

  make_workspaces-names :
      (cluster : Cluster) (configs : Dict String ConfigInfo) (infos : List NamespaceInfo)
      (p : Provider)
      → Returns
          (λ ws _. map (λ w. w.name) ws ≡ map (λ info. info.name) infos)
          (make_workspaces decode append_to_uri_path cluster configs infos p)
  unfolding make_workspaces
  make_workspaces-names cluster configs [] p = refl
  make_workspaces-names cluster configs (info ∷ infos) p =
      continue-Returns (λ _ _. Unit {0}) _ _
        (workspace_root_from decode append_to_uri_path cluster configs info.name p) (any_result _)
        (λ root q _.
          continue-Returns (λ ws _. map (λ w. w.name) ws ≡ map (λ i. i.name) infos) _ _
            (make_workspaces decode append_to_uri_path cluster configs infos q)
            (make_workspaces-names cluster configs infos q) (λ rest q' e. ap (◌∷◌ info.name) e))

  -- A listing that returns has one workspace for each cached namespace, in the cache's order, and no
  -- other, whatever their configurations are.
  pub list_workspaces-names :
      (cluster : Cluster) (p : Provider)
      → Returns
          (λ ws _. map (λ w. w.name) ws ≡ names_of p.namespaces)
          (list_workspaces decode append_to_uri_path cluster p)
  unfolding list_workspaces
  list_workspaces-names cluster p =
      continue-Returns (λ infos _. IsListing p.namespaces infos) _ _
        (list_namespaces p.namespaces, p)
        (lift-Returns (IsListing p.namespaces) (list_namespaces p.namespaces) p
          (list_namespaces-IsListing p.namespaces))
        (λ infos q e.
          continue-Returns (λ _ _. Unit {0}) _ _
            (with_configs decode append_to_uri_path cluster
              (get_configs (answers decode append_to_uri_path cluster)
                (map (λ info. info.name) infos))
              q)
            (any_result _)
            (λ configs q' _. rw (← e) (make_workspaces-names cluster configs infos q')))

  found_workspace-name :
      {globs : List String} (cluster : Cluster) (name : String) (o : Option NamespaceInfo)
      (p : Provider)
      → IsFound globs name o
      → Returns
          (λ w _. (w.name ≡ name) × (is_excluded globs name ≡ false))
          (found_workspace decode append_to_uri_path cluster o p)
  unfolding found_workspace
  found_workspace-name cluster name none p h = tt
  found_workspace-name cluster name (some info) p h =
      continue-Returns (λ _ _. Unit {0}) _ _
        (workspace_root decode append_to_uri_path cluster info.name p) (any_result _)
        (λ root q _. ((h info refl).filed, (h info refl).allowed))

  -- A workspace that `get_workspace` returns has the name that was asked for, and is not a namespace
  -- that a glob excludes, if the namespace cache satisfies its invariant.
  pub get_workspace-name :
      {globs : List String} (cluster : Cluster) (name : String) (p : Provider)
      → IsValid globs p.namespaces
      → Returns
          (λ w _. (w.name ≡ name) × (is_excluded globs name ≡ false))
          (get_workspace decode append_to_uri_path cluster name p)
  unfolding get_workspace
  get_workspace-name {globs} cluster name p v =
      continue-Returns (λ o _. IsFound globs name o) _ _
        (get_namespace cluster.namespaces name p.namespaces, p)
        (lift-Returns (IsFound globs name) (get_namespace cluster.namespaces name p.namespaces) p (
          subst (λ g. Ensures (IsFound g name) (get_namespace cluster.namespaces name p.namespaces))
            v.kept (get_namespace-IsWorkspace cluster.namespaces name p.namespaces v)))
        (λ o q f. found_workspace-name cluster name o q f)
