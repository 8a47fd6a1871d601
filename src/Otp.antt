-- ===== src/Otp.antt =====
-- One-time passwords of backend/internal/domain/platform/service_expansion.go (`GenerateOTP`,
-- `VerifyOTPToken`). The maps that the source keys by "otp:" and the user are keyed by the user.
-- The audit entries of these calls are written by their callers here.
pub mod Attempts
use hybrid_quantum_banking_b.Base.{
  ℕ, ◌+◌, String, str_eq, Bool, true, false, not, ◌&&◌, ◌||◌, Option, none, some, ltb,
  if◌then◌else◌,
}
use hybrid_quantum_banking_b.Base.Int64.{add64, le64}
use hybrid_quantum_banking_b.Base.Maps.{put}
use hybrid_quantum_banking_b.Base.Text.{trim_space}

-- The one-time password of an `AuthProfile`.
pub record Profile : Type 0 where
  pub code : String
  pub expiry : Option ℕ

pub record OtpState : Type 0 where
  pub profiles : String → Option Profile
  pub attempts : String → ℕ
  pub lock_until : String → Option ℕ

pub data OtpError : Type 0 where
  unauthorized user_not_found otp_required too_many_attempts profile_not_found : OtpError
  otp_expired invalid_otp : OtpError

-- `requireUser`
unfoldable pub require_user : Bool → String → Option OtpError
require_user known user =
    if str_eq (trim_space user) ""
    then some unauthorized
    else if not known
    then some user_not_found
    else none

abbrev pub is_locked : ℕ → Option ℕ → Bool
is_locked now none = false
is_locked now (some until) = ltb now until

abbrev pub is_expired : ℕ → Option ℕ → Bool
is_expired now none = true
is_expired now (some expiry) = ltb expiry now

-- 30 and 10 minutes in nanoseconds.
abbrev pub lock_time : ℕ
lock_time = 1800000000000

abbrev pub otp_life : ℕ
otp_life = 600000000000

-- A failed attempt: the third locks the user and starts the count again.
unfoldable pub count_attempt : ℕ → String → OtpError → OtpState → OtpState × Option OtpError
count_attempt now user e s =
    let n = add64 (s.attempts user) 1 in
    if le64 3 n
    then (
      record s {
        lock_until = put s.lock_until user (some (now + lock_time));
        attempts = put s.attempts user 0;
      },
      some too_many_attempts,
    )
    else (record s { attempts = put s.attempts user n }, some e)

-- The checks of `VerifyOTPToken` against the profile.
unfoldable pub verify_profile :
    ℕ → String → String → Option Profile → OtpState → OtpState × Option OtpError
unfolding count_attempt
verify_profile now user otp none s = (s, some profile_not_found)
verify_profile now user otp (some p) s =
    if is_expired now p.expiry
    then count_attempt now user otp_expired s
    else if not (str_eq p.code otp)
    then count_attempt now user invalid_otp s
    else (
      record s {
        profiles = put s.profiles user (some (record { code = ""; expiry = none }));
        attempts = put s.attempts user 0;
        lock_until = put s.lock_until user none;
      },
      none,
    )

-- `VerifyOTPToken`; `known` tells whether the user exists.
unfoldable pub verify_otp_token : ℕ → Bool → String → String → OtpState → OtpState × Option OtpError
unfolding require_user
verify_otp_token now known user otp s = elim (require_user known user) [
  | some e ↦ (s, some e)
  | none ↦
      if str_eq (trim_space otp) ""
      then (s, some otp_required)
      else if is_locked now (s.lock_until user)
      then (s, some too_many_attempts)
      else verify_profile now user (trim_space otp) (s.profiles user) s
]

-- `GenerateOTP`, with the six digits drawn.
unfoldable pub generate_otp : ℕ → Bool → String → String → OtpState → OtpState × Option OtpError
unfolding require_user
generate_otp now known user digits s = elim (require_user known user) [
  | some e ↦ (s, some e)
  | none ↦ elim (s.profiles user) [
    | none ↦ (s, some profile_not_found)
    | some _ ↦ if is_locked now (s.lock_until user) then (s, some too_many_attempts) else (
      record s {
        profiles =
            put s.profiles user (some (record { code = digits; expiry = some (now + otp_life) }));
        attempts = put s.attempts user 0;
        lock_until = put s.lock_until user none;
      },
      none,
    )
  ]
]
