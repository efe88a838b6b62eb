-- ===== src/Python/Result.antt =====
-- The exceptions of the modelled code, and calls that may raise.
use sovrin.Prelude.{String, Bool, true, false, Option, none, some}

-- Why a request is refused, in the order of the checks of `Node`.
pub data Reason : Type 0 where
  invalid_keys missing_keys invalid_type : Reason
  one_data_key raw_not_json target_not_added : Reason
  invalid_role already_present : Reason

-- The exceptions that the modelled code raises or meets.
pub data Exc : Type 0 where
  invalid_request : Reason → Exc
  unauthorized : Exc
  key_error value_error type_error attribute_error runtime_error assertion : Exc
  index_error not_implemented : Exc
  orient_duplicated orient_command : Exc
  other : String → Exc

pub data Result {ℓ} (T : Type ℓ) : Type ℓ where
  ok : T → Result T
  err : Exc → Result T

infixl 10 ◌>>=◌ ◌>>◌
-- A call whose value the rest `next` of the body uses; an exception skips the rest.
abbrev pub ◌>>=◌ {ℓ κ} :
    {T : Type ℓ} {U : Type κ} (call : Result T) (next : T → Result U) → Result U
err raised >>= next = err raised
ok value >>= next = next value

abbrev pub ◌>>◌ {κ} : {U : Type κ} (check : Result (Unit {0})) (next : Result U) → Result U
check >> next = check >>= (λ _. next)

-- `if not b: raise e`
abbrev pub raise_unless : Bool → Exc → Result (Unit {0})
raise_unless true e = ok tt
raise_unless false e = err e

abbrev pub or_raise {ℓ} : {A : Type ℓ} → Exc → Option A → Result A
or_raise e none = err e
or_raise e (some a) = ok a
