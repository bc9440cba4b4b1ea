-- ===== src/Workspace/Secrets/Reads.antt =====
-- `get_secret`: the Secrets that a reader gets.
use mlflow_integration.Shared.{
  String, Option, none, some, List, [], ◌∷◌, string_eq, nat_eqb, ◌==◌, Outcome, ok, raised, api,
  http, ◌≡◌, refl, subst, if_intro, Ensures, eq_iff, some-injective, ◌>>=◌, Ensures-bind,
}
use mlflow_integration.Shared.Dict.{find, find-Entries}
use mlflow_integration.Workspace.Manifest.{Manifest, Listing}
use mlflow_integration.Workspace.Secrets.{
  SecretInfo, SecretCache, extract_info, pick_info, first_of_namespace, verify_secret,
  cached_or_verified, get_secret,
}
use mlflow_integration.Workspace.Secrets.Watch.{Round, init, run}
use mlflow_integration.Workspace.Secrets.Invariant.{
  IsSecret, IsValid, extract_info-IsSecret, refresh_full-IsValid, run-IsValid,
}

-- Whatever information there is, it is of the Secret of that namespace.
abbrev pub IsFound : String → Option SecretInfo → Type 0
IsFound namespace r = (info : SecretInfo) → r ≡ some info → IsSecret namespace info

IsFound-some :
    (namespace : String) (info : SecretInfo)
    → IsSecret namespace info
    → IsFound namespace (some info)
IsFound-some namespace info w = λ i e. subst (IsSecret namespace) (some-injective info i e) w

module _ (decode : String → Option String) where
  pick_info-IsFound :
      (namespace : String) (o later : Option SecretInfo)
      → ((i : SecretInfo) → o ≡ some i → IsSecret i.namespace i)
      → IsFound namespace later
      → IsFound namespace (pick_info decode namespace o later)
  unfolding pick_info
  pick_info-IsFound namespace none later w k = k
  pick_info-IsFound namespace (some i) later w k =
      if_intro (IsFound namespace) (i.namespace == namespace)
        (λ same.
          IsFound-some namespace i
            (subst (λ key. IsSecret key i) ((eq_iff i.namespace namespace).0 same) (w i refl)))
        (λ _. k)

  first_of_namespace-IsFound :
      (namespace : String) (items : List Manifest)
      → IsFound namespace (first_of_namespace decode namespace items)
  unfolding first_of_namespace
  first_of_namespace-IsFound namespace [] = λ i e. cc
  first_of_namespace-IsFound namespace (secret ∷ rest) =
      pick_info-IsFound namespace (extract_info decode secret)
        (first_of_namespace decode namespace rest)
        (λ i e. (extract_info-IsSecret decode secret i e).0)
        (first_of_namespace-IsFound namespace rest)

  verify_secret-IsFound :
      (namespace : String) (answer : Outcome (List Manifest))
      → Ensures (IsFound namespace) (verify_secret decode namespace answer)
  unfolding verify_secret
  verify_secret-IsFound namespace (ok items) = first_of_namespace-IsFound namespace items
  verify_secret-IsFound namespace (raised (api status)) =
      if_intro (Ensures (IsFound namespace)) (nat_eqb status 404) (λ _ i e. cc) (λ _. tt)
  verify_secret-IsFound namespace (raised http) = tt
  verify_secret-IsFound namespace (raised _) = tt

  cached_or_verified-IsFound :
      (namespace : String) (answer : Outcome (List Manifest)) (o : Option SecretInfo)
      → IsFound namespace o
      → Ensures (IsFound namespace) (cached_or_verified decode namespace answer o)
  unfolding cached_or_verified
  cached_or_verified-IsFound namespace answer (some info) h = h
  cached_or_verified-IsFound namespace answer none h = verify_secret-IsFound namespace answer

  -- On a cache that satisfies the invariant, `get_secret` returns the Secret of the namespace that
  -- it was asked for, or none.
  pub get_secret-IsFound :
      (list : String → Outcome (List Manifest)) (namespace : String) (c : SecretCache)
      → IsValid c
      → Ensures (IsFound namespace) (get_secret decode list namespace c)
  unfolding get_secret
  get_secret-IsFound list namespace c v =
      if_intro (Ensures (IsFound namespace)) c.ready
        (λ _.
          if_intro (Ensures (IsFound namespace)) c.available
            (λ _.
              cached_or_verified-IsFound namespace (list namespace) (find namespace c.secrets)
                (λ i e. find-Entries IsSecret namespace c.secrets v.entries e))
            (λ _ i e. cc))
        (λ _. tt)

  pub init-IsValid : (answer : Outcome (Listing Manifest)) → Ensures IsValid (init decode answer)
  unfolding init
  init-IsValid answer = refresh_full-IsValid decode answer _

  -- Whatever Kubernetes answered when the cache was made and in any rounds of its watch loop,
  -- `get_secret` returns only the Secret of the namespace that it was asked for.
  pub get_secret-after_run :
      (answer : Outcome (Listing Manifest)) (rounds : List Round)
      (list : String → Outcome (List Manifest)) (namespace : String)
      → Ensures
          (IsFound namespace)
          (init decode answer >>= λ c. get_secret decode list namespace (run decode rounds c))
  get_secret-after_run answer rounds list namespace =
      Ensures-bind IsValid (IsFound namespace) (init decode answer)
        (λ c. get_secret decode list namespace (run decode rounds c)) (init-IsValid answer)
        (λ c v.
          get_secret-IsFound list namespace (run decode rounds c) (run-IsValid decode rounds c v))
