-- ===== src/Middleware/Gates.antt =====
-- The gates of single routes (backend/internal/api/middleware: biometric_gate.go, otp_gate.go,
-- cooling_off.go, scope_token.go, stepup.go). A gate says whether the request goes on; the
-- verifiers that the server passes in are functions, `none` for `nil`, and what is read of a JSON
-- body is given.
pub mod Passing
use hybrid_quantum_banking_b.Base.{
  ℕ, String, str_eq, Bool, true, false, not, ◌&&◌, ◌||◌, Option, none, some, if◌then◌else◌,
}
use hybrid_quantum_banking_b.Base.Int64.{lt64}
use hybrid_quantum_banking_b.Base.Text.{trim_space}
use hybrid_quantum_banking_b.Middleware.Roles.{Role, parse_role}

pub data Gate : Type 0 where
  passes : Gate
  unauthorized bad_request step_up_required locked forbidden unavailable : Gate

-- `UserIDFromContext` with the check that the gates make.
abbrev pub has_user : Option String → Bool
has_user none = false
has_user (some uid) = not (str_eq (trim_space uid) "")

abbrev pub user_text : Option String → String
user_text none = ""
user_text (some uid) = uid

-- A verifier of a signed challenge, by user, challenge and signature; `true` for no error.
abbrev pub Verifier : Type 0
Verifier = String → String → String → Bool

abbrev pub verified_by : Option Verifier → String → String → String → Bool
verified_by none user challenge signature = true
verified_by (some verify) user challenge signature = verify user challenge signature

-- `RequireBiometricChallenge`, with the setting of `BiometricChallengeEnforced`.
unfoldable pub require_biometric_challenge :
    Bool → Option Verifier → Option String → String → String → Gate
require_biometric_challenge enforced verifier user challenge signature =
    let missing = str_eq (trim_space challenge) "" || str_eq (trim_space signature) "" in
    if not (has_user user)
    then unauthorized
    else if missing
    then (if enforced then unauthorized else passes)
    else if verified_by verifier (user_text user) (trim_space challenge) (trim_space signature)
    then passes
    else unauthorized

-- `RequireBiometricAboveAmount`, with the amount that the body names.
unfoldable pub require_biometric_above_amount :
    ℕ → Option Verifier → ℕ → Option String → String → String → Gate
require_biometric_above_amount threshold verifier amount user challenge signature =
    if lt64 amount threshold
    then passes
    else if not (has_user user)
    then unauthorized
    else if str_eq (trim_space challenge) "" || str_eq (trim_space signature) ""
    then step_up_required
    else if verified_by verifier (user_text user) (trim_space challenge) (trim_space signature)
    then passes
    else step_up_required

-- The amounts that `peekAmountPaise` looks for, in its order; the last is in paise already.
pub record BodyAmounts : Type 0 where
  pub amount_paise : Option ℕ
  pub order_amount_paise : Option ℕ
  pub units_amount_paise : Option ℕ
  pub amount : Option ℕ

abbrev pub or_else : Option ℕ → ℕ → ℕ
or_else none other = other
or_else (some n) other = n

-- `peekAmountPaise` of a body, `none` where it is no JSON object of that shape.
unfoldable pub peek_amount_paise : Option BodyAmounts → ℕ
peek_amount_paise none = 0
peek_amount_paise (some b) =
    or_else b.amount_paise
      (or_else b.order_amount_paise (or_else b.units_amount_paise (or_else b.amount 0)))

abbrev pub otp_accepted : Option (String → String → Bool) → String → String → Bool
otp_accepted none user otp = true
otp_accepted (some verify) user otp = verify user otp

-- `RequireOTPVerification`, with the one-time password that the body names; `none` for a body
-- that cannot be read.
unfoldable pub require_otp_verification :
    Option (String → String → Bool) → Option String → Option String → Gate
require_otp_verification verifier user none =
    if not (has_user user) then unauthorized else bad_request
require_otp_verification verifier user (some otp) =
    if not (has_user user)
    then unauthorized
    else if str_eq (trim_space otp) ""
    then bad_request
    else if otp_accepted verifier (user_text user) (trim_space otp)
    then passes
    else unauthorized

-- What the checker of a cooling-off period answers.
pub data CoolingOff : Type 0 where
  cooling_active cooling_over cooling_unknown : CoolingOff

abbrev pub gate_of : CoolingOff → Gate
gate_of cooling_active = locked
gate_of cooling_over = passes
gate_of cooling_unknown = bad_request

-- `EnforceCoolingOff`
unfoldable pub enforce_cooling_off :
    Option (String → String → CoolingOff) → Option String → String → Gate
enforce_cooling_off none user tx_id = passes
enforce_cooling_off (some checker) user tx_id =
    if not (has_user user)
    then unauthorized
    else gate_of (checker (user_text user) (trim_space tx_id))

-- `RequireScopedToken`
unfoldable pub require_scoped_token : String → String → Gate
require_scoped_token expected provided =
    if str_eq (trim_space expected) ""
    then unavailable
    else if str_eq (trim_space provided) ""
    then unauthorized
    else if str_eq (trim_space provided) (trim_space expected)
    then passes
    else forbidden
