-- ===== src/Shared/Action.antt =====
-- A method that changes the fields of its object and may raise: the changes made before an exception
-- stay. Rules for what every such method keeps, and for what it ensures when it returns.
use mathlib.Core.Path.{◌≡◌, refl}
use mathlib.Core.Bool.{Bool, true, false}
use mlflow_integration.Shared.Tests.{if◌then◌else◌}
use mlflow_integration.Shared.Exceptions.{Outcome, ok, raised, Failure, Ensures}

abbrev pub Action {ℓ} : Type ℓ → Type ℓ → Type ℓ
Action S A = S → Outcome A × S

abbrev pub continue {ℓ} : {S A B : Type ℓ} → (A → Action S B) → Outcome A × S → Outcome B × S
continue f (ok a, s) = f a s
continue f (raised e, s) = (raised e, s)

infixl 5 ◌>>=◌ ◌>>◌
abbrev pub ◌>>=◌ {ℓ} : {S A B : Type ℓ} → Action S A → (A → Action S B) → Action S B
◌>>=◌ m f s = continue f (m s)

abbrev pub ◌>>◌ : {S B : Type 0} → Action S (Unit {0}) → Action S B → Action S B
m >> k = m >>= λ _. k

module _ {ℓ} {S A : Type ℓ} where
  abbrev pub pure : A → Action S A
  pure a s = (ok a, s)

  abbrev pub raise : Failure → Action S A
  raise e s = (raised e, s)

  -- A call whose outcome does not depend on the fields.
  abbrev pub lift : Outcome A → Action S A
  lift m s = (m, s)

  abbrev pub gets : (S → A) → Action S A
  gets f s = (ok (f s), s)

abbrev pub modify : {S : Type 0} → (S → S) → Action S (Unit {0})
modify f s = (ok tt, f s)

-- The fields satisfy `P` after `m` if they did before, also where `m` raises.
pub record Keeps {ℓ} {S A : Type ℓ} (P : S → Type ℓ) (m : Action S A) : Type ℓ where
  pub at : (fields : S) → P fields → P (m fields).1

module _ {ℓ} {S A : Type ℓ} {P : S → Type ℓ} where
  pub Keeps-lift : (m : Outcome A) → Keeps P (lift m)
  Keeps-lift m = record { at = λ fields h. h }

  pub Keeps-gets : (f : S → A) → Keeps P (gets f)
  Keeps-gets f = record { at = λ fields h. h }

  pub Keeps-pure : (a : A) → Keeps P (pure a)
  Keeps-pure a = Keeps-lift (ok a)

  pub Keeps-raise : (e : Failure) → Keeps {A = A} P (raise e)
  Keeps-raise e = Keeps-lift (raised e)

  pub Keeps-if :
      (b : Bool) (m n : Action S A) → Keeps P m → Keeps P n → Keeps P (if b then m else n)
  Keeps-if true m n km kn = km
  Keeps-if false m n km kn = kn

pub Keeps-modify :
    {S : Type 0} {P : S → Type 0} (f : S → S) → ((s : S) → P s → P (f s)) → Keeps P (modify f)
Keeps-modify f h = record { at = h }

module _ {ℓ} {S A B : Type ℓ} {P : S → Type ℓ} where
  continue-keeps :
      (f : A → Action S B) (r : Outcome A × S)
      → ((a : A) → Keeps P (f a))
      → P r.1
      → P (continue f r).1
  continue-keeps f (ok a, s) kf h = (kf a).at s h
  continue-keeps f (raised e, s) kf h = h

  pub Keeps-bind :
      (m : Action S A) (f : A → Action S B)
      → Keeps P m
      → ((a : A) → Keeps P (f a))
      → Keeps P (m >>= f)
  Keeps-bind m f km kf = record { at = λ s h. continue-keeps f (m s) kf (km.at s h) }

pub ruleset keeps_rules = (Keeps-pure, Keeps-raise, Keeps-lift, Keeps-gets, Keeps-if, Keeps-bind)

-- Inversion of a bind that returned.
pub continue-eq-ok {ℓ} :
    {S A B : Type ℓ} (f : A → Action S B) (r : Outcome A × S) {b : B}
    → (continue f r).0 ≡ ok b
    → (a : A) × (r.0 ≡ ok a) × ((f a r.1).0 ≡ ok b)
continue-eq-ok f (ok a, s) h = (a, refl, h)
continue-eq-ok f (raised e, s) h = cc

-- `P` holds of the result and of the fields, if the method returns.
abbrev pub Returns {ℓ κ} : {S A : Type ℓ} → (A → S → Type κ) → Outcome A × S → Type κ
Returns P (ok a, s) = P a s
Returns P (raised e, s) = Unit

-- What a step ensures of its result, the next step may use.
pub continue-Returns {ℓ κ} :
    {S A B : Type ℓ} (P : A → S → Type κ) (Q : B → S → Type κ) (f : A → Action S B)
    (r : Outcome A × S)
    → Returns P r
    → ((a : A) (s : S) → P a s → Returns Q (f a s))
    → Returns Q (continue f r)
continue-Returns P Q f (ok a, s) h k = k a s h
continue-Returns P Q f (raised e, s) h k = tt

pub lift-Returns {ℓ κ} :
    {S A : Type ℓ} (P : A → Type κ) (m : Outcome A) (s : S)
    → Ensures P m
    → Returns (λ a _. P a) (m, s)
lift-Returns P (ok a) s h = h
lift-Returns P (raised e) s h = tt
