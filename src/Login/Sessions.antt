-- ===== src/Login/Sessions.antt =====
-- Sessions: their check, their end, and the calls that end them all (service.go,
-- `AuthenticateToken`, `invalidateAllSessionsLocked`; auth_pin.go, `SetPIN`, `SetInitialPIN`).
use hybrid_quantum_banking_b.Base.{
  ℕ, ltb, String, str_eq, Bool, true, false, not, ◌&&◌, ◌||◌, Option, none, some, if◌then◌else◌,
}
use hybrid_quantum_banking_b.Base.Maps.{put}
use hybrid_quantum_banking_b.Base.Text.{trim_space}
use hybrid_quantum_banking_b.Login.State.{
  Auth, LoginProfile, Credentials, store_get, add_audit, drop_session,
}

-- The profile without its session.
unfoldable pub end_session : LoginProfile → LoginProfile
end_session p = record p {
  session_token_id = "";
  session_start_time = none;
  session_expiry = none;
  step_up_auth_required = true;
}

abbrev pub ended_if : Bool → Option LoginProfile → Option LoginProfile
ended_if test none = none
ended_if test (some p) = if test then some (end_session p) else some p

abbrev pub owns_token : String → Option LoginProfile → Bool
owns_token token none = false
owns_token token (some p) = str_eq p.session_token_id token

-- `time.Parse(time.RFC3339, …)` of a stored expiry, or the present time.
abbrev pub expiry_or : (String → Option ℕ) → ℕ → Option String → ℕ
expiry_or parse now none = now
expiry_or parse now (some text) =
    if str_eq text "" then now else elim (parse text) [ none ↦ now | some t ↦ t ]

-- A session that only the store knows is taken over.
unfoldable pub restore : (String → Option ℕ) → ℕ → String → Option String → Auth → Auth
restore parse now token none s = s
restore parse now token (some user) s = if str_eq user "" then s else record s {
  sessions = put s.sessions token (some user);
  session_start = put s.session_start token (some now);
  session_expiry =
      put s.session_expiry token
        (some (expiry_or parse now (store_get now (s.stored_expiry token))));
}

unfoldable pub known_or_restored : (String → Option ℕ) → ℕ → String → Option String → Auth → Auth
known_or_restored parse now token (some user) s = s
known_or_restored parse now token none s =
    restore parse now token (store_get now (s.stored_user token)) s

-- The device that a session is bound to must be presented.
unfoldable pub device_fits : String → Option String → Bool
device_fits device none = true
device_fits device (some bound) =
    str_eq bound "" || (not (str_eq (trim_space device) "") && str_eq device bound)

unfoldable pub check_session :
    ℕ → String → String → Option String → Option ℕ → Auth → Auth × Option String
check_session later token device none expiry s = (s, none)
check_session later token device (some user) none s = (s, none)
check_session later token device (some user) (some expiry) s =
    if ltb expiry later
    then (
      record (drop_session token s) {
        profiles =
            put s.profiles user (ended_if (owns_token token (s.profiles user)) (s.profiles user));
      },
      none,
    )
    else if device_fits device (s.session_device token)
    then (s, some user)
    else (s, none)

-- `AuthenticateToken`, with the reading of the clock that a restored session takes and the one
-- that the expiry is compared with.
unfoldable pub authenticate_token :
    (String → Option ℕ) → ℕ → ℕ → String → String → Auth → Auth × Option String
authenticate_token parse now later token device s0 =
    let s = known_or_restored parse now token (s0.sessions token) s0 in
    check_session later token device (s.sessions token) (s.session_expiry token) s

-- `uid == userID` of an entry of the map of sessions.
unfoldable pub is_of : String → Option String → Bool
is_of user none = false
is_of user (some owner) = str_eq owner user

-- `m[k]` after `delete(m, k)` for the tokens of the user.
abbrev pub without {ℓ} : {A : Type ℓ} → Auth → String → (String → Option A) → String → Option A
without s user m token = if is_of user (s.sessions token) then none else m token

-- `invalidateAllSessionsLocked`
unfoldable pub invalidate_all : String → Auth → Auth
invalidate_all user s = record s {
  sessions = without s user s.sessions;
  session_start = without s user s.session_start;
  session_expiry = without s user s.session_expiry;
  session_device = without s user s.session_device;
  stored_user = without s user s.stored_user;
  stored_device = without s user s.stored_device;
  stored_expiry = without s user s.stored_expiry;
  profiles = put s.profiles user (ended_if true (s.profiles user));
}

pub data PinError : Type 0 where
  user_required profile_not_found bad_pin pin_already_set unknown_device : PinError

-- `HashPIN`
unfoldable pub hash_pin : Credentials → String → Option String
hash_pin cr pin =
    if ltb (cr.byte_length pin) 4 || ltb 6 (cr.byte_length pin) then none else cr.generate_hash pin

unfoldable pub set_hash : String → LoginProfile → Option String → Auth → Auth × Option PinError
set_hash user p none s = (s, some bad_pin)
set_hash user p (some hash) s =
    let changed = record s {
      profiles = put s.profiles user (some (record p { password_hash = hash }));
    } in
    (add_audit user "pin_set" "success" (invalidate_all user changed), none)

unfoldable pub set_pin_of :
    Credentials → String → String → Option LoginProfile → Auth → Auth × Option PinError
set_pin_of cr user pin none s = (s, some profile_not_found)
set_pin_of cr user pin (some p) s = set_hash user p (hash_pin cr pin) s

-- `SetPIN`
unfoldable pub set_pin : Credentials → String → String → Auth → Auth × Option PinError
set_pin cr user pin s = set_pin_of cr user pin (s.profiles user) s

unfoldable pub set_initial_of :
    Credentials → String → String → String → Option LoginProfile → Auth → Auth × Option PinError
set_initial_of cr user pin device none s = (s, some profile_not_found)
set_initial_of cr user pin device (some p) s =
    let registered = trim_space p.device_id_fingerprint in
    if not (str_eq p.password_hash "")
    then (s, some pin_already_set)
    else if not (str_eq registered "") && not (cr.equal_fold registered device)
    then (add_audit user "pin_set_device_mismatch" "failure" s, some unknown_device)
    else set_pin cr user pin s

-- `SetInitialPIN`; no other call comes between its two critical sections.
unfoldable pub set_initial_pin :
    Credentials → String → String → String → Auth → Auth × Option PinError
set_initial_pin cr user pin device s =
    if str_eq (trim_space user) ""
    then (s, some user_required)
    else set_initial_of cr (trim_space user) pin (trim_space device) (s.profiles (trim_space user))
        s
