-- ===== src/Examples/Logins.antt =====
-- Runs of the PIN login.
use hybrid_quantum_banking_b.Base.{
  ◌+◌, ◌≡◌, refl, String, str_eq, true, false, not, ◌&&◌, none, some, [], ltb, arith, if◌then◌else◌,
}
use hybrid_quantum_banking_b.Base.Text.{trim_space}
use hybrid_quantum_banking_b.Login.State.{Auth, LoginProfile, Credentials, add_audit, session_life}
use hybrid_quantum_banking_b.Login.Pin.{
  PinLoginRequest, login_refused, account_locked, login_with_pin, resolve_user,
}
use hybrid_quantum_banking_b.Login.Sessions.{
  authenticate_token, set_pin, set_pin_of, set_hash, hash_pin,
}
use hybrid_quantum_banking_b.Login.Lockout.{IsComplete, IsFor, fifth_failure_locks}
use hybrid_quantum_banking_b.Login.Lifetime.{session_lasts, set_pin_ends_sessions}
use hybrid_quantum_banking_b.Middleware.Access.{server_authenticator, old_token_denied}
use hybrid_quantum_banking_b.Middleware.Bearer.{token_invalid, denied, invalid, auth}

abbrev demo_credentials : Credentials
demo_credentials = record {
  verify_pin = λ hash pin. str_eq hash pin;
  generate_hash = λ pin. some pin;
  is_ckyc = λ _. true;
  byte_length = λ _. 4;
  equal_fold = str_eq;
}

abbrev demo_profile : LoginProfile
demo_profile = record {
  password_hash = "1234";
  failed_login_count = 4;
  pin_locked_until = none;
  last_login_time = none;
  session_token_id = "t0";
  session_start_time = none;
  session_expiry = none;
  device_id_fingerprint = "d1";
  step_up_auth_required = false;
}

abbrev demo_auth : Auth
demo_auth = record {
  is_user = λ _. true;
  ckyc_index = λ _. some "alice";
  mobile_index = λ _. none;
  profiles = λ _. some demo_profile;
  sessions =
      λ t. if str_eq t "t0" then some "alice" else if str_eq t "t1" then some "bob" else none;
  session_start = λ _. none;
  session_expiry = λ _. some 900;
  session_device = λ _. some "d1";
  stored_user = λ _. none;
  stored_device = λ _. none;
  stored_expiry = λ _. none;
  audit = [];
}

abbrev demo_login : String → PinLoginRequest
demo_login pin = record {
  mobile = "";
  ckyc = "2000000001";
  user_id = "";
  pin = pin;
  device_id_fingerprint = "d1";
}

wrong-IsComplete : IsComplete demo_credentials (demo_login "9999")
unfolding trim_space
wrong-IsComplete = record { named = refl; shaped = refl; has_pin = refl; has_device = refl }

right-IsComplete : IsComplete demo_credentials (demo_login "1234")
unfolding trim_space
right-IsComplete = record { named = refl; shaped = refl; has_pin = refl; has_device = refl }

wrong-IsFor : IsFor demo_credentials (demo_login "9999") "alice" demo_profile demo_auth
unfolding resolve_user trim_space
wrong-IsFor = record {
  complete = wrong-IsComplete;
  resolved = refl;
  known = refl;
  profile = refl;
  has_hash = refl;
}

right-IsFor : IsFor demo_credentials (demo_login "1234") "alice" demo_profile demo_auth
unfolding resolve_user trim_space
right-IsFor = record {
  complete = right-IsComplete;
  resolved = refl;
  known = refl;
  profile = refl;
  has_hash = refl;
}

fifth_failure_locks_example :
    login_with_pin demo_credentials 2000 "t3"
      (demo_login "1234")
      (login_with_pin demo_credentials 1000 "t2" (demo_login "9999") demo_auth).0
    ≡ (
      add_audit "alice" "pin_login_locked" "failure"
          (login_with_pin demo_credentials 1000 "t2" (demo_login "9999") demo_auth).0,
      login_refused account_locked,
    )
unfolding resolve_user trim_space
fifth_failure_locks_example =
    fifth_failure_locks demo_credentials 1000 2000 "t2" "t3" (demo_login "9999") (demo_login "1234")
      "alice" demo_profile demo_auth wrong-IsFor refl refl (omega arith) (omega arith) (omega arith)
      right-IsComplete refl

session_lasts_example :
    (authenticate_token
      (λ _. none)
      2000
      2000
      "t2"
      "d1"
      (login_with_pin demo_credentials 1000 "t2" (demo_login "1234") demo_auth).0).1
    ≡ (if not (ltb (1000 + session_life) 2000) && str_eq "d1" (trim_space "d1")
        then some "alice"
        else none)
unfolding trim_space
session_lasts_example =
    session_lasts demo_credentials (λ _. none) 1000 2000 2000 "t2" "d1" (demo_login "1234") "alice"
      demo_profile demo_auth right-IsFor refl refl refl

set_pin_ends_sessions_example :
    ((authenticate_token
        (λ _. none)
        2000
        2000
        "t0"
        "d1"
        (set_pin demo_credentials "alice" "5678" demo_auth).0).1
      ≡ none)
    × ((set_pin demo_credentials "alice" "5678" demo_auth).0.sessions "t1" ≡ some "bob")
    × ((set_pin demo_credentials "alice" "5678" demo_auth).0.session_expiry "t1"
        ≡ demo_auth.session_expiry "t1")
unfolding set_pin set_pin_of set_hash hash_pin
set_pin_ends_sessions_example =
    set_pin_ends_sessions demo_credentials (λ _. none) 2000 2000 "alice" "5678" "t0" "d1" "bob" "t1"
      demo_auth refl refl refl refl

old_token_denied_example :
    auth
      (λ s. s)
      (server_authenticator
        (λ _. none)
        2000
        2000
        (set_pin demo_credentials "alice" "5678" demo_auth).0)
      none
      (some (λ _ _. token_invalid))
      (some "t0")
      "d1"
    ≡ denied invalid
unfolding set_pin set_pin_of set_hash hash_pin trim_space
old_token_denied_example =
    old_token_denied (λ s. s) none (λ _ _. token_invalid) demo_credentials (λ _. none) 2000 2000
      "alice" "5678" "t0" "d1" demo_auth refl refl refl refl
