-- ===== src/Auth/Access/Soundness.antt =====
-- What an answer of `is_allowed` rests on, whether it comes from the cache or from Kubernetes.
use mlflow_integration.Shared.{String, Bool, Option, none, some, ℕ, Outcome, ok, raised, ◌≡◌, refl}
use mlflow_integration.Shared.Action.{continue}
use mlflow_integration.Shared.Dict.{Entries}
use mlflow_integration.Auth.Expiring.{Probe, absent, live, expired, probe, set, discard}
use mlflow_integration.Auth.Expiring.Contents.{set-Entries, discard-Entries, probe-Entries}
use mlflow_integration.Auth.Identity.{RequestIdentity, subject_hash}
use mlflow_integration.Auth.Access.{
  without_underscores, effective_name, subject_of, required, AccessKey, access_key_eq, Settings,
  Query, Attributes, Subject, Reviews, key_of, translate, max_entries, returning, remember, submit,
  ask, cached_or_asked, allowed_under, is_allowed,
}

module _ (sha256 : String → String) (review : Subject → Attributes → Outcome (Option Bool))
    (settings : Settings) where
  -- Kubernetes gave this answer about a subject that has the key's hash.
  abbrev pub IsReviewed : AccessKey → Bool → Type 0
  IsReviewed key allowed =
      (subject : RequestIdentity) × (subject_hash sha256 settings.mode subject
        ≡ ok key.identity_hash)
      × (submit sha256 review settings subject key ≡ ok allowed)

  -- Every cached answer was given.
  abbrev pub IsSound : Reviews → Type 0
  IsSound reviews = Entries (λ key entry. IsReviewed key entry.0) reviews

  -- The cache stays sound, and an answer is one that Kubernetes gave for the key.
  pub Answers : AccessKey → Outcome Bool × Reviews → Type 0
  Answers key (ok allowed, reviews) = IsReviewed key allowed × IsSound reviews
  Answers key (raised failure, reviews) = IsSound reviews

  returned-Answers :
      (key : AccessKey) (allowed : Bool) (done : Outcome (Unit {0})) (reviews : Reviews)
      → IsReviewed key allowed
      → IsSound reviews
      → Answers key (returning allowed done, reviews)
  unfolding Answers
  returned-Answers key allowed (ok _) reviews w v = (w, v)
  returned-Answers key allowed (raised f) reviews w v = v

  remember-Answers :
      (key : AccessKey) (later : ℕ) (allowed : Bool) (reviews : Reviews)
      → IsReviewed key allowed
      → IsSound reviews
      → Answers key (remember settings key later allowed reviews)
  unfolding remember
  remember-Answers key later allowed reviews w v =
      returned-Answers key allowed (set settings.ttl max_entries key allowed later reviews).0 _ w (
        set-Entries (λ key entry. IsReviewed key entry.0) settings.ttl max_entries key allowed later
          reviews w v)

  translated-Answers :
      (identity : RequestIdentity) (key : AccessKey) (later : ℕ) (answer : Outcome Bool)
      (reviews : Reviews)
      → subject_hash sha256 settings.mode identity ≡ ok key.identity_hash
      → submit sha256 review settings identity key ≡ answer
      → IsSound reviews
      → Answers key (continue (remember settings key later) (translate answer, reviews))
  unfolding translate
  translated-Answers identity key later (ok allowed) reviews h w v =
      remember-Answers key later allowed reviews (identity, h, w) v
  translated-Answers identity key later (raised f) reviews h w v = unfold Answers in v

  ask-Answers :
      (identity : RequestIdentity) (key : AccessKey) (later : ℕ) (reviews : Reviews)
      → subject_hash sha256 settings.mode identity ≡ ok key.identity_hash
      → IsSound reviews
      → Answers key (ask sha256 review settings identity key later reviews)
  unfolding ask
  ask-Answers identity key later reviews h v =
      translated-Answers identity key later (submit sha256 review settings identity key) reviews h
        refl v

  by_probe-Answers :
      (identity : RequestIdentity) (key : AccessKey) (now later : ℕ) (found : Probe Bool)
      (reviews : Reviews)
      → subject_hash sha256 settings.mode identity ≡ ok key.identity_hash
      → probe key now reviews ≡ found
      → IsSound reviews
      → Answers key (cached_or_asked sha256 review settings identity key later found reviews)
  unfolding cached_or_asked Answers
  by_probe-Answers identity key now later (live allowed) reviews h p v =
      ((probe-Entries (λ key entry. IsReviewed key entry.0) key now reviews allowed v p).1, v)
  by_probe-Answers identity key now later absent reviews h p v =
      ask-Answers identity key later reviews h v
  by_probe-Answers identity key now later (expired observed) reviews h p v =
      ask-Answers identity key later (discard key observed reviews) h
        (discard-Entries (λ key entry. IsReviewed key entry.0) key observed reviews v)

  allowed_under-Answers :
      (identity : RequestIdentity) (key : AccessKey) (now later : ℕ) (reviews : Reviews)
      → subject_hash sha256 settings.mode identity ≡ ok key.identity_hash
      → IsSound reviews
      → Answers key (allowed_under sha256 review settings identity key now later reviews)
  unfolding allowed_under
  allowed_under-Answers identity key now later reviews h v =
      by_probe-Answers identity key now later (probe key now reviews) reviews h refl v

  -- The attributes that a review of the query is about.
  abbrev pub asked : Query → Attributes
  asked query = record {
    group = settings.group;
    resource = without_underscores query.resource_type;
    verb = query.verb;
    namespace = query.namespace;
    subresource = query.subresource;
    name = effective_name query.verb query.subresource query.resource_name;
  }

  -- Kubernetes gave this answer to a review of the query, about a subject with the hash of this one.
  pub record IsAnswered (identity : RequestIdentity) (query : Query) (allowed : Bool) : Type 0 where
    pub subject : RequestIdentity
    pub hash : String
    pub hashed : subject_hash sha256 settings.mode identity ≡ ok hash
    pub same : subject_hash sha256 settings.mode subject ≡ ok hash
    pub answer : review (subject_of settings.mode subject) (asked query) ≡ ok (some allowed)

  required-answer : (o : Outcome (Option Bool)) {b : Bool} → required o ≡ ok b → o ≡ ok (some b)
  unfolding required
  required-answer (ok (some a)) h = cc
  required-answer (ok none) h = cc
  required-answer (raised f) h = cc

  IsReviewed-IsAnswered :
      (identity : RequestIdentity) (query : Query) (hash : String) (allowed : Bool)
      → subject_hash sha256 settings.mode identity ≡ ok hash
      → IsReviewed (key_of query hash) allowed
      → IsAnswered identity query allowed
  unfolding key_of submit
  IsReviewed-IsAnswered identity query hash allowed h (subject, same, told) = record {
    subject = subject;
    hash = hash;
    hashed = h;
    same = same;
    answer = required-answer (review (subject_of settings.mode subject) (asked query)) told;
  }

  -- `Q` holds of the answer, if there is one, and the cache is sound in any case.
  abbrev pub After : (Bool → Type 0) → Outcome Bool × Reviews → Type 0
  After Q (ok allowed, reviews) = Q allowed × IsSound reviews
  After Q (raised failure, reviews) = IsSound reviews

  After-Answers :
      (Q : Bool → Type 0) (key : AccessKey) (r : Outcome Bool × Reviews)
      → ((allowed : Bool) → IsReviewed key allowed → Q allowed)
      → Answers key r
      → After Q r
  unfolding Answers
  After-Answers Q key (ok allowed, reviews) f (w, v) = (f allowed w, v)
  After-Answers Q key (raised failure, reviews) f v = v

  -- Whatever `is_allowed` returns, from the cache or not, is an answer that Kubernetes gave to the
  -- same attributes about a subject with the same hash, if that is so of every cached answer; and it
  -- stays so, also where the call raises.
  pub is_allowed-IsAnswered :
      (identity : RequestIdentity) (query : Query) (now later : ℕ) (reviews : Reviews)
      → IsSound reviews
      → After
          (IsAnswered identity query)
          (is_allowed sha256 review settings identity query now later reviews)
  unfolding is_allowed
  is_allowed-IsAnswered identity query now later reviews v =
      by_hash (subject_hash sha256 settings.mode identity) refl
    where
      hashed :
          (hash : String)
          → subject_hash sha256 settings.mode identity ≡ ok hash
          → subject_hash sha256 settings.mode identity ≡ ok (key_of query hash).identity_hash
      hashed hash same = unfold key_of in same

      by_hash :
          (h : Outcome String)
          → subject_hash sha256 settings.mode identity ≡ h
          → After (IsAnswered identity query) (
              continue
                (λ hash.
                  allowed_under sha256 review settings identity (key_of query hash) now later)
                (h, reviews))
      by_hash (ok hash) same =
          After-Answers (IsAnswered identity query) (key_of query hash) _
            (λ allowed w. IsReviewed-IsAnswered identity query hash allowed same w)
            (allowed_under-Answers identity (key_of query hash) now later reviews (hashed hash same)
              v)
      by_hash (raised f) same = v
