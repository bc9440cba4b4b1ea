-- ===== src/Shared/Exceptions.antt =====
-- The exceptions that the plugins raise or catch, and the value of a call that may raise one.
-- Messages are left out; the error code is kept.
use mathlib.Core.Path.{◌≡◌, subst}
use Prim.Native.Nat.{ℕ}

-- The members of `databricks_pb2` that the source names.
pub data ErrorCode : Type 0 where
  internal_error invalid_parameter_value invalid_state : ErrorCode
  permission_denied unauthenticated resource_does_not_exist endpoint_not_found : ErrorCode

-- `MlflowException`, the Kubernetes client's `ApiException` with its HTTP status, `urllib3`'s
-- `HTTPError`, `NotImplementedError`, and any other exception.
pub data Failure : Type 0 where
  mlflow : ErrorCode → Failure
  api : ℕ → Failure
  http not_implemented unexpected : Failure

pub data Outcome {ℓ} (A : Type ℓ) : Type ℓ where
  ok : A → Outcome A
  raised : Failure → Outcome A

infixl 5 ◌>>=◌ ◌>>◌
abbrev pub ◌>>=◌ {ℓ κ} : {A : Type ℓ} {B : Type κ} → Outcome A → (A → Outcome B) → Outcome B
ok a >>= f = f a
raised e >>= f = raised e

abbrev pub ◌>>◌ {ℓ} : {B : Type ℓ} → Outcome (Unit {0}) → Outcome B → Outcome B
m >> k = m >>= λ _. k

pub ok_injective {ℓ} : {A : Type ℓ} {a b : A} → ok a ≡ ok b → a ≡ b
ok_injective e = cc

-- `P` holds of what the call returns, if it returns.
abbrev pub Ensures {ℓ κ} : {A : Type ℓ} → (A → Type κ) → Outcome A → Type κ
Ensures P (ok a) = P a
Ensures P (raised e) = Unit

pub Ensures-eq-ok {ℓ κ} :
    {A : Type ℓ} (P : A → Type κ) (m : Outcome A) {a : A} → Ensures P m → m ≡ ok a → P a
Ensures-eq-ok P (ok b) h e = subst P (ok_injective e) h
Ensures-eq-ok P (raised f) h e = cc

pub Ensures-bind {ℓ κ} :
    {A B : Type ℓ} (P : A → Type κ) (Q : B → Type κ) (m : Outcome A) (f : A → Outcome B)
    → Ensures P m
    → ((a : A) → P a → Ensures Q (f a))
    → Ensures Q (m >>= f)
Ensures-bind P Q (ok a) f h k = k a h
Ensures-bind P Q (raised e) f h k = tt
