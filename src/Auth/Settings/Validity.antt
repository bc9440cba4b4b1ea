-- ===== src/Auth/Settings/Validity.antt =====
-- What a configuration from the environment is.
use mlflow_integration.Shared.{
  String, Bool, true, false, not, ◌&&◌, Option, none, some, [], ◌∷◌, if_intro, is_some, Outcome, ok,
  raised, ◌>>=◌, mlflow, invalid_parameter_value, ◌≡◌, ◌⊎◌, inl, inr, refl,
}
use mlflow_integration.Shared.Text.{nonempty, strip, lower}
use mlflow_integration.Auth.Credentials.{spells}
use mlflow_integration.Auth.Identity.{AuthorizationMode}
use mlflow_integration.Auth.Settings.{
  configured, is_one_of, KubernetesAuthConfig, parse_bool_env, mode_of, namespace_of, separator_of,
  checked, positive, ttl_of, from_env, or_default,
}

-- What is returned has the property, or the exception is INVALID_PARAMETER_VALUE.
abbrev pub Checks : {A : Type 0} → (A → Type 0) → Outcome A → Type 0
Checks P (ok a) = P a
Checks P (raised e) = e ≡ mlflow invalid_parameter_value

Checks-bind :
    {A B : Type 0} (P : A → Type 0) (Q : B → Type 0) (m : Outcome A) (k : A → Outcome B)
    → Checks P m
    → ((a : A) → P a → Checks Q (k a))
    → Checks Q (m >>= k)
Checks-bind P Q (ok a) k h f = f a h
Checks-bind P Q (raised e) k h f = h

abbrev Any : {A : Type 0} → A → Type 0
Any a = Unit

parse_bool_env-Checks :
    (value : Option String) (default : Bool) → Checks Any (parse_bool_env value default)
unfolding parse_bool_env
parse_bool_env-Checks none default = tt
parse_bool_env-Checks (some value) default =
    let normalized = lower (strip value) in
    if_intro (Checks {A = Bool} Any) (is_one_of normalized ("1" ∷ "true" ∷ "yes" ∷ "on" ∷ []))
      (λ _. tt)
      (λ _.
        if_intro (Checks {A = Bool} Any) (is_one_of normalized ("0" ∷ "false" ∷ "no" ∷ "off" ∷ []))
          (λ _. tt) (λ _. refl))

mode_of-Checks : (mode_env : String) → Checks Any (mode_of mode_env)
unfolding mode_of
mode_of-Checks mode_env =
    let normalized = lower (strip mode_env) in
    if_intro (Checks {A = AuthorizationMode} Any) (spells normalized "self_subject_access_review")
      (λ _. tt)
      (λ _.
        if_intro (Checks {A = AuthorizationMode} Any) (spells normalized "subject_access_review")
          (λ _. tt) (λ _. refl))

abbrev pub IsName : Option String → Type 0
IsName none = Unit
IsName (some namespace) = nonempty namespace ≡ true

namespace_of-IsName : (namespace : Option String) → IsName (namespace_of namespace)
unfolding namespace_of
namespace_of-IsName none = tt
namespace_of-IsName (some namespace) =
    if_intro IsName (nonempty (strip namespace)) (λ t. t) (λ _. tt)

separator_of-nonempty : (separator : String) → nonempty (separator_of separator) ≡ true
unfolding separator_of nonempty
separator_of-nonempty separator =
    if_intro (λ s. nonempty s ≡ true) (nonempty separator) (λ t. t) (λ _. refl)

module _ {F : Type 0} (at_most_zero : F → Bool) where
  -- A time to live that is not at most zero, headers and a separator that are not empty, and a namespace that is not
  -- empty if there is one, as there is where workspaces are off.
  pub record IsUsable (c : KubernetesAuthConfig F) : Type 0 where
    pub ttl : at_most_zero c.cache_ttl_seconds ≡ false
    pub user : nonempty c.user_header ≡ true
    pub groups : nonempty c.groups_header ≡ true
    pub separator : nonempty c.groups_separator ≡ true
    pub name : IsName c.namespace
    pub named : (c.workspaces_enabled ≡ true) ⊎ (is_some c.namespace ≡ true)

  checked-Checks :
      (c : KubernetesAuthConfig F)
      → at_most_zero c.cache_ttl_seconds ≡ false
      → nonempty c.groups_separator ≡ true
      → IsName c.namespace
      → Checks IsUsable (checked c)
  unfolding checked
  checked-Checks c t s n =
      if_intro (Checks IsUsable) (not (nonempty c.user_header)) (λ _. refl)
        (λ u.
          if_intro (Checks IsUsable) (not (nonempty c.groups_header)) (λ _. refl)
            (λ g.
              if_intro (Checks IsUsable) (not c.workspaces_enabled && not (is_some c.namespace))
                (λ _. refl)
                (λ w. record {
                  ttl = t;
                  user = not-true (nonempty c.user_header) u;
                  groups = not-true (nonempty c.groups_header) g;
                  separator = s;
                  name = n;
                  named = either_or c.workspaces_enabled (is_some c.namespace) w;
                })))
    where
      not-true : (a : Bool) → not a ≡ false → a ≡ true
      not-true true h = refl
      not-true false h = cc

      either_or : (a b : Bool) → (not a && not b) ≡ false → (a ≡ true) ⊎ (b ≡ true)
      either_or true b h = inl refl
      either_or false true h = inr refl
      either_or false false h = cc

  module _ (to_float : String → Option F) (default_ttl : F)
      (default : at_most_zero default_ttl ≡ false) where
    positive-Checks :
        (o : Option F)
        → Checks (λ ttl. at_most_zero ttl ≡ false) (positive to_float at_most_zero default_ttl o)
    unfolding positive
    positive-Checks none = refl
    positive-Checks (some seconds) =
        if_intro (Checks (λ ttl. at_most_zero ttl ≡ false)) (at_most_zero seconds) (λ _. refl)
          (λ f. f)

    ttl_of-Checks :
        (text : Option String)
        → Checks (λ ttl. at_most_zero ttl ≡ false) (ttl_of to_float at_most_zero default_ttl text)
    unfolding ttl_of
    ttl_of-Checks none = default
    ttl_of-Checks (some text) =
        if_intro (Checks (λ ttl. at_most_zero ttl ≡ false)) (nonempty text)
          (λ _. positive-Checks (to_float text)) (λ _. default)

    -- Whatever the environment is, the configuration is usable, or reading it raises INVALID_PARAMETER_VALUE, if the
    -- time to live by default is not at most zero.
    pub from_env-Checks :
        (get : String → Option String)
        → Checks IsUsable (from_env to_float at_most_zero default_ttl get)
    unfolding from_env configured
    from_env-Checks get =
        Checks-bind Any IsUsable _ _
          (parse_bool_env-Checks (get "MLFLOW_K8S_AUTH_WORKSPACES_ENABLED") true)
          (λ enabled _.
            Checks-bind (λ ttl. at_most_zero ttl ≡ false) IsUsable _ _
              (ttl_of-Checks (get "MLFLOW_K8S_AUTH_CACHE_TTL_SECONDS"))
              (λ ttl t.
                Checks-bind Any IsUsable _ _
                  (mode_of-Checks (
                    or_default (get "MLFLOW_K8S_AUTH_AUTHORIZATION_MODE")
                      "self_subject_access_review"))
                  (λ mode _.
                    checked-Checks (configured get enabled ttl mode) t
                      (separator_of-nonempty
                        (or_default (get "MLFLOW_K8S_AUTH_REMOTE_GROUPS_SEPARATOR") "|"))
                      (namespace_of-IsName (get "MLFLOW_K8S_AUTH_NAMESPACE")))))
