-- ===== src/Login/Lifetime.antt =====
-- How long a session lasts (auth_pin.go, `LoginWithPIN`, `SetPIN`; service.go,
-- `AuthenticateToken`).
use hybrid_quantum_banking_b.Base.{
  ℕ, ◌+◌, ◌≡◌, refl, ◌∙◌, String, str_eq, eq_refl, Bool, true, false, not, ◌&&◌, Option, none, some,
  if◌then◌else◌, ltb,
}
use hybrid_quantum_banking_b.Base.Maps.{put, put_self}
use hybrid_quantum_banking_b.Base.Text.{trim_space}
use hybrid_quantum_banking_b.Otp.{is_locked}
use hybrid_quantum_banking_b.Login.State.{
  Auth, LoginProfile, Credentials, add_audit, session_life, open_session, store_get,
}
use hybrid_quantum_banking_b.Login.Pin.{PinLoginRequest, pass_login, login_profile, login_with_pin}
use hybrid_quantum_banking_b.Login.Sessions.{
  authenticate_token, known_or_restored, restore, check_session, device_fits, is_of, invalidate_all,
  set_pin, set_pin_of, set_hash, hash_pin,
}
use hybrid_quantum_banking_b.Login.Lockout.{IsFor, login_with_pin-profile}

-- A login with the right PIN for an account that is not locked.
login_with_pin-right :
    (cr : Credentials) (now : ℕ) (token : String) (req : PinLoginRequest) {user : String}
    {p : LoginProfile} {s : Auth} (h : IsFor cr req user p s)
    → is_locked now p.pin_locked_until ≡ false
    → cr.verify_pin p.password_hash (trim_space req.pin) ≡ true
    → login_with_pin cr now token req s
      ≡ pass_login now token (trim_space req.device_id_fingerprint) user p s
login_with_pin-right cr now token req h free y =
    login_with_pin-profile cr now token req h
    ∙ unfold login_profile in rw (h.has_hash, free, y) refl

answer :
    (expired fits : Bool) (user : String) (dropped s : Auth)
    → (if◌then◌else◌ {A = Auth × Option String} expired
        (dropped, none)
        (if fits then (s, some user) else (s, none))).1
      ≡ (if not expired && fits then some user else none)
answer true fits user dropped s = refl
answer false true user dropped s = refl
answer false false user dropped s = refl

-- What AuthenticateToken answers for a session in memory that is bound to a device.
bound_session :
    (parse : String → Option ℕ) (now later expiry : ℕ) (token device bound user : String) (s : Auth)
    → s.sessions token ≡ some user
    → s.session_expiry token ≡ some expiry
    → s.session_device token ≡ some bound
    → str_eq bound "" ≡ false
    → str_eq (trim_space device) "" ≡ false
    → (authenticate_token parse now later token device s).1
      ≡ (if not (ltb expiry later) && str_eq device bound then some user else none)
unfolding authenticate_token known_or_restored check_session device_fits
bound_session parse now later expiry token device bound user s a b c d e =
    rw (a, b, a, c, d, e) (answer (ltb expiry later) (str_eq device bound) user _ s)

-- A login with the right PIN for an account that is not locked opens a session: AuthenticateToken
-- answers with the user for exactly 15 minutes, and only for the device that logged in, whatever
-- text other than blank is presented as the device.
pub session_lasts :
    (cr : Credentials) (parse : String → Option ℕ) (now restored later : ℕ) (token device : String)
    (req : PinLoginRequest) (user : String) (p : LoginProfile) (s : Auth)
    → IsFor cr req user p s
    → is_locked now p.pin_locked_until ≡ false
    → cr.verify_pin p.password_hash (trim_space req.pin) ≡ true
    → str_eq (trim_space device) "" ≡ false
    → (authenticate_token parse restored later token device (login_with_pin cr now token req s).0).1
      ≡ (if not (ltb (now + session_life) later)
            && str_eq device (trim_space req.device_id_fingerprint)
          then some user
          else none)
unfolding pass_login open_session add_audit
session_lasts cr parse now restored later token device req user p s h free y d =
    let fp = trim_space req.device_id_fingerprint in
    rw (login_with_pin-right cr now token req h free y) (
      bound_session parse restored later (now + session_life) token device fp user
        (pass_login now token fp user p s).0 (put_self s.sessions token (some user))
        (put_self s.session_expiry token (some (now + session_life)))
        (put_self s.session_device token (some fp)) h.complete.has_device d)

-- A session that neither the memory nor the store knows.
unknown_session :
    (parse : String → Option ℕ) (now later : ℕ) (token device : String) (s : Auth)
    → s.sessions token ≡ none
    → s.stored_user token ≡ none
    → (authenticate_token parse now later token device s).1 ≡ none
unfolding authenticate_token known_or_restored store_get restore check_session
unknown_session parse now later token device s a b = rw (a, b, a) refl

-- The state after a PIN was set for a profile.
pin_changed : String → LoginProfile → String → Auth → Auth
pin_changed user p hash s = add_audit user "pin_set" "success" (
    invalidate_all user
      (record s { profiles = put s.profiles user (some (record p { password_hash = hash })) }))

hash-accepted :
    (user : String) (p : LoginProfile) (hash : Option String) (s : Auth)
    → (set_hash user p hash s).1 ≡ none
    → (h : String) × ((set_hash user p hash s).0 ≡ pin_changed user p h s)
unfolding set_hash pin_changed
hash-accepted user p none s e = absurd cc
hash-accepted user p (some h) s e = (h, refl)

pin-accepted :
    (cr : Credentials) (user pin : String) (profile : Option LoginProfile) (s : Auth)
    → (set_pin_of cr user pin profile s).1 ≡ none
    → (p : LoginProfile) × (h : String) × ((set_pin_of cr user pin profile s).0
        ≡ pin_changed user p h s)
unfolding set_pin_of
pin-accepted cr user pin none s e = absurd cc
pin-accepted cr user pin (some p) s e =
    let (h, q) = hash-accepted user p (hash_pin cr pin) s e in (p, h, q)

module _ (user : String) (p : LoginProfile) (hash : String) (s : Auth) where
  own-ended :
      (token : String)
      → s.sessions token ≡ some user
      → ((pin_changed user p hash s).sessions token ≡ none)
        × ((pin_changed user p hash s).stored_user token ≡ none)
  unfolding pin_changed add_audit invalidate_all is_of
  own-ended token a = (rw (a, eq_refl user) refl, rw (a, eq_refl user) refl)

  other-kept :
      (kept other : String)
      → s.sessions kept ≡ some other
      → str_eq other user ≡ false
      → ((pin_changed user p hash s).sessions kept ≡ some other)
        × ((pin_changed user p hash s).session_expiry kept ≡ s.session_expiry kept)
  unfolding pin_changed add_audit invalidate_all is_of
  other-kept kept other b n = (rw (b, n) refl, rw (b, n) refl)

-- After a PIN was set, a token of the user of before is answered with no user.
pub ended_session :
    (cr : Credentials) (parse : String → Option ℕ) (now later : ℕ) (user pin token device : String)
    (s : Auth)
    → (set_pin cr user pin s).1 ≡ none
    → s.sessions token ≡ some user
    → (authenticate_token parse now later token device (set_pin cr user pin s).0).1 ≡ none
unfolding set_pin
ended_session cr parse now later user pin token device s ok a =
    let (p, hash, q) = pin-accepted cr user pin (s.profiles user) s ok in
    let ended = own-ended user p hash s token a in
    rw q (unknown_session parse now later token device (pin_changed user p hash s) ended.0 ended.1)

-- A changed PIN ends every session of the user: from then on AuthenticateToken answers none of the
-- user's tokens of before, for any device and time, and the tokens of other users are kept with
-- their sessions.
pub set_pin_ends_sessions :
    (cr : Credentials) (parse : String → Option ℕ) (now later : ℕ)
    (user pin token device other kept : String) (s : Auth)
    → (set_pin cr user pin s).1 ≡ none
    → s.sessions token ≡ some user
    → s.sessions kept ≡ some other
    → str_eq other user ≡ false
    → ((authenticate_token parse now later token device (set_pin cr user pin s).0).1 ≡ none)
      × ((set_pin cr user pin s).0.sessions kept ≡ some other)
      × ((set_pin cr user pin s).0.session_expiry kept ≡ s.session_expiry kept)
unfolding set_pin
set_pin_ends_sessions cr parse now later user pin token device other kept s ok a b n =
    let (p, hash, q) = pin-accepted cr user pin (s.profiles user) s ok in
    let others = other-kept user p hash s kept other b n in
    (ended_session cr parse now later user pin token device s ok a, rw q others.0, rw q others.1)
