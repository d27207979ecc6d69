-- ===== src/Errors.antt =====
-- services/decision_api/src/decision_api/errors.py, and what a Python call can do: return a value
-- or raise. The exception classes are those that the modelled code raises or tells apart.
use ea_trading_system.Prelude.{ℕ, String, ◌≡◌, refl, Bool, true, false, arith}

-- `ApiError(status_code, code, message)`
pub record ApiError : Type 0 where
  pub status_code : ℕ
  pub code : String
  pub message : String

pub data Exc : Type 0 where
  api_error : ApiError → Exc
  conditional_write_failed : Exc
  -- botocore's `ClientError` with the code ConditionalCheckFailedException
  conditional_check : Exc
  value_error : Exc
  timeout_error : Exc
  runtime_error : Exc
  overflow_error : Exc
  type_error : Exc
  key_error : Exc
  -- an OSError, and tickdata's `ProviderError(message, retryable)`
  os_error : Exc
  provider_error : (retryable : Bool) → Exc
  -- any other class
  other_error : Exc

pub data Result {ℓ} (A : Type ℓ) : Type ℓ where
  err : Exc → Result A
  ok : A → Result A

-- `raise ApiError(status, code, message)`
abbrev pub api : ℕ → String → String → Exc
api s c m = api_error (record { status_code = s; code = c; message = m })

-- `if not test: raise e`
abbrev pub require : (test : Bool) (e : Exc) → Result (Unit {0})
require false e = err e
require true e = ok tt

module _ {ℓ κ} {A : Type ℓ} {B : Type κ} where
  infixl 5 ◌>>=◌
  abbrev pub ◌>>=◌ : Result A → (A → Result B) → Result B
  err e >>= next = err e
  ok a >>= next = next a

module _ {ℓ} {B : Type ℓ} where
  infixl 5 ◌>>◌
  abbrev pub ◌>>◌ : Result (Unit {0}) → Result B → Result B
  m >> next = m >>= λ done. next

-- What a successful sequence says of its parts.
pub >>=-eq-ok {ℓ κ} :
    {A : Type ℓ} {B : Type κ} (m : Result A) (f : A → Result B) (b : B)
    → (m >>= f) ≡ ok b
    → (a : A) × (m ≡ ok a) × (f a ≡ ok b)
>>=-eq-ok (ok a) f b h = (a, refl, h)
>>=-eq-ok (err e) f b h = ground arith

pub require-eq-ok : (t : Bool) (e : Exc) (u : Unit {0}) → require t e ≡ ok u → t ≡ true
require-eq-ok true e u h = refl
require-eq-ok false e u h = ground arith

pub ok_path {ℓ} : {A : Type ℓ} {a b : A} → Path (Result A) (ok a) (ok b) → a ≡ b
ok_path h = ground (arith, h)
