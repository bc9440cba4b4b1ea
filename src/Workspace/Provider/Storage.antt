-- ===== src/Workspace/Provider/Storage.antt =====
-- The root that `_resolve_artifact_root_from_config` gives a workspace.
use mlflow_integration.Shared.{
  String, Bool, true, false, not, Option, none, some, string_eq, ◌==◌, Outcome, ok, raised, ◌≡◌,
  refl, sym, ap, if_intro, Ensures, ◌⊎◌, inl, inr, eq_iff, arith,
}
use mathlib.Core.Bool.{false≢true}
use mlflow_integration.Shared.Action.{Action, Returns, continue-Returns}
use mlflow_integration.Shared.Text.{nonempty, truthy}
use mlflow_integration.Workspace.Configs.{ConfigInfo, connection_secret}
use mlflow_integration.Workspace.Secrets.{SecretCache, SecretInfo, get_secret}
use mlflow_integration.Workspace.Secrets.Watch.{init}
use mlflow_integration.Workspace.Secrets.Invariant.{IsValid}
use mlflow_integration.Workspace.Secrets.Reads.{IsFound, get_secret-IsFound, init-IsValid}
use mlflow_integration.Workspace.Provider.{
  Provider, Cluster, secret_name, root_path, bucket_of, keep_secrets, ensure_secret_cache,
  bucket_root, reuse_or_create, override, resolve_named, resolve_from_config,
}
use mlflow_integration.Workspace.Provider.Bucket.{IsAt, IsOverride, artifact_root-IsOverride}

-- The secret cache, if there is one, satisfies its invariant.
abbrev pub HasValidSecrets : Provider → Type 0
HasValidSecrets p = (c : SecretCache) → p.secrets ≡ some c → IsValid c

module _ (decode : String → Option String) (append_to_uri_path : String → String → String) where
  -- What a provider reads the Secrets from: its cache, or a new one if it has none yet.
  abbrev pub IsSource : Cluster → Provider → SecretCache → Type 0
  IsSource cluster p c =
      (p.secrets ≡ some c) ⊎ ((p.secrets ≡ none) × (init decode cluster.all_secrets ≡ ok c))

  -- The root is the bucket of the Secret that `get_secret` finds for the workspace, at the path.
  pub record IsStored (cluster : Cluster) (p : Provider) (workspace : String)
      (path root : Option String) : Type 0 where
    pub source : SecretCache
    pub read : IsSource cluster p source
    pub secret : SecretInfo
    pub answer : get_secret decode cluster.secrets workspace source ≡ ok (some secret)
    pub owner : secret.namespace ≡ workspace
    pub bucket : String
    pub found : secret.bucket_uri ≡ some bucket
    pub full : nonempty bucket ≡ true
    pub place : String
    pub at : IsAt decode append_to_uri_path bucket path place
    pub stored : root ≡ some place

  module _ (cluster : Cluster) (start : Provider) (workspace : String) (path : Option String) where
    abbrev Located : Outcome (Option String × Bool) × Provider → Type 0
    Located = Returns (λ r _. (r.1 ≡ false) × IsStored cluster start workspace path r.0)

    module _ (source : SecretCache) (read : IsSource cluster start source) where
      placed :
          (secret : SecretInfo) (bucket : String)
          → get_secret decode cluster.secrets workspace source ≡ ok (some secret)
          → secret.namespace ≡ workspace
          → secret.bucket_uri ≡ some bucket
          → nonempty bucket ≡ true
          → (r : Outcome (Option String × Bool) × Provider)
          → Returns (IsOverride decode append_to_uri_path path bucket) r
          → Located r
      placed secret bucket answer own e full (ok (root, flag), p) (f, (place, at, eq)) = (
        f,
        record {
          source = source;
          read = read;
          secret = secret;
          answer = answer;
          owner = own;
          bucket = bucket;
          found = e;
          full = full;
          place = place;
          at = at;
          stored = eq;
        },
      )
      placed secret bucket answer own e full (raised failure, p) h = tt

      secret_root-Located :
          (secret : SecretInfo) (o : Option String) (p : Provider)
          → get_secret decode cluster.secrets workspace source ≡ ok (some secret)
          → secret.namespace ≡ workspace
          → secret.bucket_uri ≡ o
          → Located (bucket_root decode append_to_uri_path path o p)
      unfolding bucket_root
      secret_root-Located secret none p answer own e = tt
      secret_root-Located secret (some bucket) p answer own e =
          if_intro (λ (m : Action Provider (Option String × Bool)). Located (m p)) (nonempty bucket)
            (λ full.
              placed secret bucket answer own e full _
                (artifact_root-IsOverride decode append_to_uri_path path bucket p))
            (λ _. tt)

      bucket_root-Located :
          (o : Option SecretInfo) (p : Provider)
          → get_secret decode cluster.secrets workspace source ≡ ok o
          → IsFound workspace o
          → Located (bucket_root decode append_to_uri_path path (bucket_of o) p)
      bucket_root-Located none p answer f = unfold bucket_root in tt
      bucket_root-Located (some secret) p answer f =
          secret_root-Located secret secret.bucket_uri p answer (f secret refl).filed refl

  -- A cache that the provider reads from, and that satisfies the invariant.
  abbrev IsReadable : Cluster → Provider → SecretCache → Type 0
  IsReadable cluster p c = IsSource cluster p c × IsValid c

  kept-IsReadable :
      (cluster : Cluster) (p : Provider) (m : Outcome SecretCache)
      → p.secrets ≡ none
      → init decode cluster.all_secrets ≡ m
      → Ensures IsValid m
      → Returns (λ c _. IsReadable cluster p c) (keep_secrets decode append_to_uri_path p m)
  unfolding keep_secrets
  kept-IsReadable cluster p (ok c) none_yet e h = (inr (none_yet, e), h)
  kept-IsReadable cluster p (raised failure) none_yet e h = tt

  created-IsReadable :
      (cluster : Cluster) (o : Option SecretCache) (p : Provider)
      → p.secrets ≡ o
      → HasValidSecrets p
      → Returns
          (λ c _. IsReadable cluster p c)
          (reuse_or_create decode append_to_uri_path cluster o p)
  unfolding reuse_or_create
  created-IsReadable cluster none p e h =
      kept-IsReadable cluster p (init decode cluster.all_secrets) e refl
        (init-IsValid decode cluster.all_secrets)
  created-IsReadable cluster (some c) p e h = (inl e, h c e)

  ensured-IsReadable :
      (cluster : Cluster) (p : Provider)
      → HasValidSecrets p
      → Returns
          (λ c _. IsReadable cluster p c)
          (ensure_secret_cache decode append_to_uri_path cluster p)
  unfolding ensure_secret_cache
  ensured-IsReadable cluster p h = created-IsReadable cluster p.secrets p refl h

  override-Located :
      (cluster : Cluster) (workspace : String) (path : Option String) (secret : String)
      (p : Provider)
      → HasValidSecrets p
      → Returns
          (λ r _.
            (secret ≡ connection_secret) × ((r.1 ≡ false) × IsStored cluster p workspace path r.0))
          (override decode append_to_uri_path cluster workspace path secret p)
  unfolding override
  override-Located cluster workspace path secret p h =
      if_intro (λ (m : Action Provider (Option String × Bool)). Returns Q (m p))
        (not (secret == connection_secret)) (λ _. tt)
        (λ e.
          continue-Returns (λ c _. IsReadable cluster p c) Q _
            (ensure_secret_cache decode append_to_uri_path cluster p)
            (ensured-IsReadable cluster p h)
            (λ c q v.
              continue-Returns
                (λ o _.
                  (get_secret decode cluster.secrets workspace c ≡ ok o) × IsFound workspace o)
                Q _ (get_secret decode cluster.secrets workspace c, q)
                (answered c q (get_secret decode cluster.secrets workspace c) refl
                  (get_secret-IsFound decode cluster.secrets workspace c v.1))
                (λ o q' f.
                  with_name e (bucket_root decode append_to_uri_path path (bucket_of o) q')
                    (bucket_root-Located cluster p workspace path c v.0 o q' f.0 f.1))))
    where
      Q : Option String × Bool → Provider → Type 0
      Q r _ = (secret ≡ connection_secret) × ((r.1 ≡ false) × IsStored cluster p workspace path r.0)

      answered :
          (c : SecretCache) (q : Provider) (m : Outcome (Option SecretInfo))
          → get_secret decode cluster.secrets workspace c ≡ m
          → Ensures (IsFound workspace) m
          → Returns
              (λ o _. (get_secret decode cluster.secrets workspace c ≡ ok o) × IsFound workspace o)
              (m, q)
      answered c q (ok o) e f = (e, f)
      answered c q (raised failure) e f = tt

      with_name :
          not (secret == connection_secret) ≡ false
          → (r : Outcome (Option String × Bool) × Provider) → Located cluster p workspace path r
          → Returns Q r
      with_name e (ok l, q) k = ((eq_iff secret connection_secret).0 (ground (arith, e)), k)
      with_name e (raised failure, q) k = tt

  -- The default root, which is to get the workspace as a prefix, exactly where no secret is named; the
  -- only name that a secret may have is that of the artifact connection.
  abbrev pub IsNamed :
      Cluster
      → Provider
      → Option String
      → String
      → Option String
      → Option String
      → Option String × Bool
      → Type 0
  IsNamed cluster p default_root workspace path name (root, true) =
      (truthy name ≡ false) × (root ≡ default_root)
  IsNamed cluster p default_root workspace path name (root, false) =
      (truthy name ≡ true)
      × (name ≡ some connection_secret)
      × IsStored cluster p workspace path root

  module _ (cluster : Cluster) (p : Provider) (default_root : Option String) (workspace : String)
      (path : Option String) where
    IsNamed-override :
        (secret : String) (r : Outcome (Option String × Bool) × Provider)
        → nonempty secret ≡ true
        → Returns
            (λ l _.
              (secret ≡ connection_secret)
              × ((l.1 ≡ false) × IsStored cluster p workspace path l.0))
            r
        → Returns (λ l _. IsNamed cluster p default_root workspace path (some secret) l) r
    IsNamed-override secret (ok (root, false), q) t (n, (f, h)) = (t, ap some n, h)
    IsNamed-override secret (ok (root, true), q) t (n, (f, h)) = absurd (false≢true (sym f))
    IsNamed-override secret (raised e, q) t h = tt

    resolve_named-IsNamed :
        (name : Option String)
        → HasValidSecrets p
        → Returns
            (λ l _. IsNamed cluster p default_root workspace path name l)
            (resolve_named decode append_to_uri_path cluster default_root workspace path name p)
    unfolding resolve_named
    resolve_named-IsNamed none h = (refl, refl)
    resolve_named-IsNamed (some secret) h =
        if_intro
          (λ (m : Action Provider (Option String × Bool)).
            Returns (λ l _. IsNamed cluster p default_root workspace path (some secret) l) (m p))
          (nonempty secret)
          (λ t.
            IsNamed-override secret
              (override decode append_to_uri_path cluster workspace path secret p) t
              (override-Located cluster workspace path secret p h))
          (λ f. (f, refl))

  -- Where a workspace's artifacts go, on every branch that returns: the default root exactly if its
  -- configuration names no secret. Otherwise that name is the one of the artifact connection, and the
  -- root is the bucket, which is not empty, of the Secret that `get_secret` finds for the workspace, in
  -- the workspace's own namespace; or what `append_to_uri_path` makes of that bucket and the stripped
  -- path of the configuration once it is checked, if the path is not blank. This is so if the secret
  -- cache satisfies its invariant, or has yet to be created.
  pub resolve_from_config-IsNamed :
      (cluster : Cluster) (default_root : Option String) (workspace : String)
      (config : Option ConfigInfo) (p : Provider)
      → HasValidSecrets p
      → Returns
          (λ l _.
            IsNamed cluster p default_root workspace (root_path config) (secret_name config) l)
          (resolve_from_config decode append_to_uri_path cluster default_root workspace config p)
  unfolding resolve_from_config
  resolve_from_config-IsNamed cluster default_root workspace config p h =
      resolve_named-IsNamed cluster p default_root workspace (root_path config) (secret_name config)
        h
