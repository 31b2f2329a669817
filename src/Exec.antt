-- ===== src/Exec.antt =====
-- Runs of the C functions: CWErrorHandling.h's codes, the error that a run raises, an access
-- outside a buffer, and how many of the run's allocations succeed.
use sicapwap.Prelude.{ℕ, zero, suc, Bool, true, false}

-- CWErrorHandling.h, `CWErrorCode`.
pub data ErrorCode : Type 0 where
  success out_of_memory wrong_arg interrupted need_resource comunicating creating : ErrorCode
  general operation_aborted sending receiving invalid_format time_expired none_pending : ErrorCode

-- What a function that is called returned: `CW_TRUE`, or `CW_FALSE` with this last error.
pub data Called : Type 0 where
  succeeded : Called
  failed_with : ErrorCode → Called

-- What `_CWErrorHandleLast` does with the last error: it returns `CW_TRUE` or `CW_FALSE`, or it ends
-- the thread.
pub data LastHandled : Type 0 where
  passed failed thread_ended : LastHandled

unfoldable pub error_handle_last : ErrorCode → LastHandled
error_handle_last success = passed
error_handle_last none_pending = passed
error_handle_last out_of_memory = thread_ended
error_handle_last wrong_arg = failed
error_handle_last interrupted = failed
error_handle_last need_resource = failed
error_handle_last comunicating = failed
error_handle_last creating = failed
error_handle_last general = failed
error_handle_last operation_aborted = failed
error_handle_last sending = failed
error_handle_last receiving = failed
error_handle_last invalid_format = failed
error_handle_last time_expired = failed

-- The macro `CWErr` around a call.
unfoldable pub c_err : Called → LastHandled
unfolding error_handle_last
c_err succeeded = passed
c_err (failed_with e) = error_handle_last e

-- `raised e`: the function returned `CW_FALSE` (or passed it on) after `CWErrorRaise(e, …)`.
-- `fault`: a byte outside its buffer was read or written. `out_of_fuel`: a loop did not end in
-- the rounds that the model gives it.
pub data Outcome {ℓ} (A : Type ℓ) : Type ℓ where
  ok : A → Outcome A
  raised : ErrorCode → Outcome A
  fault : Outcome A
  out_of_fuel : Outcome A

-- A run is given the number of allocations that succeed, and returns how many of them are left.
-- Every allocation after those fails.
abbrev pub Exec {ℓ} : Type ℓ → Type ℓ
Exec A = ℕ → Outcome (A × ℕ)

abbrev pub and_then {ℓ κ} :
    {A : Type ℓ} {B : Type κ} → Outcome (A × ℕ) → (A → Exec B) → Outcome (B × ℕ)
and_then (ok (a, k)) f = f a k
and_then (raised e) f = raised e
and_then fault f = fault
and_then out_of_fuel f = out_of_fuel

abbrev pub pure {ℓ} : {A : Type ℓ} → A → Exec A
pure a k = ok (a, k)

infixl 5 ◌>>=◌ ◌>>◌
abbrev pub ◌>>=◌ {ℓ κ} : {A : Type ℓ} {B : Type κ} → Exec A → (A → Exec B) → Exec B
◌>>=◌ m f k = and_then (m k) f

abbrev pub ◌>>◌ {ℓ} : {B : Type ℓ} → Exec (Unit {0}) → Exec B → Exec B
m >> n = m >>= λ _. n

-- `return CWErrorRaise(e, …)`.
abbrev pub raise {ℓ} : {A : Type ℓ} → ErrorCode → Exec A
raise e k = raised e

abbrev pub access_fault {ℓ} : {A : Type ℓ} → Exec A
access_fault k = fault

abbrev pub no_fuel {ℓ} : {A : Type ℓ} → Exec A
no_fuel k = out_of_fuel

-- `malloc` with an error handler that returns: the `CW_CREATE_…_ERR` macros of CWCommon.h whose
-- handler is `return CWErrorRaise(CW_ERROR_OUT_OF_MEMORY, NULL)`.
abbrev pub alloc : Exec (Unit {0})
alloc zero = raised out_of_memory
alloc (suc k) = ok (tt, k)

-- `malloc` whose failure the caller sees as `NULL`.
abbrev pub try_alloc : Exec Bool
try_alloc zero = ok (false, zero)
try_alloc (suc k) = ok (true, k)
