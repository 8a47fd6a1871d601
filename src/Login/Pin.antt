-- ===== src/Login/Pin.antt =====
-- Login and setting of a PIN (auth_pin.go).
use hybrid_quantum_banking_b.Base.{
  ℕ, ◌+◌, String, str_eq, not, ◌&&◌, Option, none, some, if◌then◌else◌,
}
use hybrid_quantum_banking_b.Base.Int64.{add64, le64}
use hybrid_quantum_banking_b.Base.Maps.{put}
use hybrid_quantum_banking_b.Base.Text.{trim_space}
use hybrid_quantum_banking_b.Otp.{is_locked}
use hybrid_quantum_banking_b.Login.State.{
  Auth, LoginProfile, Credentials, add_audit, open_session, session_life,
}

-- `PinLoginRequest`, without the fields that the login does not read.
pub record PinLoginRequest : Type 0 where
  pub mobile : String
  pub ckyc : String
  pub user_id : String
  pub pin : String
  pub device_id_fingerprint : String

pub data LoginError : Type 0 where
  identifier_required bad_ckyc pin_required device_required : LoginError
  invalid_credentials invalid_pin account_locked : LoginError

-- What a login returns: the user and the token, or an error.
pub data LoginResult : Type 0 where
  logged_in : String → String → LoginResult
  login_refused : LoginError → LoginResult

-- The identifier that was given decides which index is read.
unfoldable pub resolve_user : PinLoginRequest → Auth → Option String
resolve_user req s =
    if not (str_eq (trim_space req.ckyc) "")
    then s.ckyc_index (trim_space req.ckyc)
    else if not (str_eq (trim_space req.mobile) "")
    then s.mobile_index (trim_space req.mobile)
    else if s.is_user (trim_space req.user_id)
    then some (trim_space req.user_id)
    else none

-- 5 and 30 minutes, and 24 hours, in nanoseconds.
abbrev pub five_minutes : ℕ
five_minutes = 300000000000

abbrev pub half_hour : ℕ
half_hour = 1800000000000

abbrev pub one_day : ℕ
one_day = 86400000000000

-- The lock after the n-th failure; an earlier one stays where there is none.
unfoldable pub lock_after : ℕ → ℕ → Option ℕ → Option ℕ
lock_after now n before =
    if le64 15 n
    then some (now + one_day)
    else if le64 10 n
    then some (now + half_hour)
    else if le64 5 n
    then some (now + five_minutes)
    else before

-- A wrong PIN.
unfoldable pub fail_login : ℕ → String → LoginProfile → Auth → Auth × LoginResult
fail_login now user p s =
    let n = add64 p.failed_login_count 1 in
    let failed = record p {
      failed_login_count = n;
      pin_locked_until = lock_after now n p.pin_locked_until;
    } in
    (
      add_audit user "pin_login_failed" "failure"
          (record s { profiles = put s.profiles user (some failed) }),
      login_refused invalid_pin,
    )

-- The right PIN: a session is opened and the profile is reset.
unfoldable pub pass_login : ℕ → String → String → String → LoginProfile → Auth → Auth × LoginResult
pass_login now token device user p s0 =
    let s = open_session now token user device s0 in
    let passed = record p {
      last_login_time = some now;
      session_token_id = token;
      session_start_time = some now;
      session_expiry = some (now + session_life);
      failed_login_count = 0;
      pin_locked_until = none;
      device_id_fingerprint =
          if str_eq p.device_id_fingerprint "" then device else p.device_id_fingerprint;
    } in
    (
      add_audit user "pin_login_success" "success"
          (record s { profiles = put s.profiles user (some passed) }),
      logged_in user token,
    )

unfoldable pub login_profile :
    Credentials
    → ℕ
    → String
    → String
    → String
    → String
    → Option LoginProfile
    → Auth
    → Auth × LoginResult
login_profile cr now token pin device user none s = (s, login_refused invalid_pin)
login_profile cr now token pin device user (some p) s =
    if str_eq p.password_hash ""
    then (s, login_refused invalid_pin)
    else if is_locked now p.pin_locked_until
    then (add_audit user "pin_login_locked" "failure" s, login_refused account_locked)
    else if not (cr.verify_pin p.password_hash pin)
    then fail_login now user p s
    else pass_login now token device user p s

unfoldable pub login_user :
    Credentials → ℕ → String → String → String → Option String → Auth → Auth × LoginResult
login_user cr now token pin device none s = (s, login_refused invalid_credentials)
login_user cr now token pin device (some user) s =
    if not (s.is_user user)
    then (s, login_refused invalid_pin)
    else login_profile cr now token pin device user (s.profiles user) s

-- `LoginWithPIN`
unfoldable pub login_with_pin :
    Credentials → ℕ → String → PinLoginRequest → Auth → Auth × LoginResult
login_with_pin cr now token req s =
    if str_eq (trim_space req.ckyc) ""
      && str_eq (trim_space req.mobile) ""
      && str_eq (trim_space req.user_id) ""
    then (s, login_refused identifier_required)
    else if not (str_eq (trim_space req.ckyc) "") && not (cr.is_ckyc (trim_space req.ckyc))
    then (s, login_refused bad_ckyc)
    else if str_eq (trim_space req.pin) ""
    then (s, login_refused pin_required)
    else if str_eq (trim_space req.device_id_fingerprint) ""
    then (s, login_refused device_required)
    else login_user cr now token (trim_space req.pin) (trim_space req.device_id_fingerprint)
        (resolve_user req s) s
