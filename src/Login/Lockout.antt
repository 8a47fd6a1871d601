-- ===== src/Login/Lockout.antt =====
-- Failed logins (auth_pin.go, `LoginWithPIN`).
use hybrid_quantum_banking_b.Base.{
  ℕ, ◌+◌, ◌≤◌, ◌<◌, ◌≡◌, refl, ◌∙◌, String, str_eq, true, false, not, ◌&&◌, Option, some, arith,
}
use hybrid_quantum_banking_b.Base.Int64.{add64, sign_bit}
use hybrid_quantum_banking_b.Base.Maps.{put_self}
use hybrid_quantum_banking_b.Base.Text.{trim_space}
use hybrid_quantum_banking_b.Otp.{is_locked}
use hybrid_quantum_banking_b.Login.State.{Auth, LoginProfile, Credentials, add_audit}
use hybrid_quantum_banking_b.Login.Pin.{
  PinLoginRequest, login_refused, account_locked, resolve_user, five_minutes, lock_after,
  fail_login, login_profile, login_user, login_with_pin,
}

-- The request passes the checks of its fields.
pub record IsComplete (cr : Credentials) (req : PinLoginRequest) : Type 0 where
  pub named :
      str_eq (trim_space req.ckyc) ""
        && str_eq (trim_space req.mobile) ""
        && str_eq (trim_space req.user_id) ""
      ≡ false
  pub shaped :
      not (str_eq (trim_space req.ckyc) "") && not (cr.is_ckyc (trim_space req.ckyc)) ≡ false
  pub has_pin : str_eq (trim_space req.pin) "" ≡ false
  pub has_device : str_eq (trim_space req.device_id_fingerprint) "" ≡ false

-- The request is one for this account.
pub record IsFor (cr : Credentials) (req : PinLoginRequest) (user : String) (p : LoginProfile)
    (s : Auth) : Type 0 where
  pub complete : IsComplete cr req
  pub resolved : resolve_user req s ≡ some user
  pub known : s.is_user user ≡ true
  pub profile : s.profiles user ≡ some p
  pub has_hash : str_eq p.password_hash "" ≡ false

module _ (cr : Credentials) (now : ℕ) (token : String) (req : PinLoginRequest) {user : String}
    {p : LoginProfile} {s : Auth} (h : IsFor cr req user p s) where
  pub login_with_pin-profile :
      login_with_pin cr now token req s
      ≡ login_profile cr now token
          (trim_space req.pin)
          (trim_space req.device_id_fingerprint)
          user
          (some p)
          s
  unfolding login_with_pin login_user
  login_with_pin-profile =
      rw
        (
          h.complete.named, h.complete.shaped, h.complete.has_pin, h.complete.has_device,
          h.resolved, h.known, h.profile,
        )
        refl

  -- A locked account.
  pub login_with_pin-locked :
      is_locked now p.pin_locked_until ≡ true
      → login_with_pin cr now token req s
        ≡ (add_audit user "pin_login_locked" "failure" s, login_refused account_locked)
  login_with_pin-locked l = login_with_pin-profile ∙ unfold login_profile in rw (h.has_hash, l) refl

  -- An open account and a wrong PIN.
  pub login_with_pin-wrong :
      is_locked now p.pin_locked_until ≡ false
      → cr.verify_pin p.password_hash (trim_space req.pin) ≡ false
      → login_with_pin cr now token req s ≡ fail_login now user p s
  login_with_pin-wrong l w =
      login_with_pin-profile ∙ unfold login_profile in rw (h.has_hash, l, w) refl

-- The profile after a failure.
abbrev pub failed_profile : ℕ → LoginProfile → LoginProfile
failed_profile now p = record p {
  failed_login_count = add64 p.failed_login_count 1;
  pin_locked_until = lock_after now (add64 p.failed_login_count 1) p.pin_locked_until;
}

lock_after-locked :
    (now later n : ℕ) (before : Option ℕ)
    → 5 ≤ n
    → n < sign_bit
    → later < now + five_minutes
    → is_locked later (lock_after now n before) ≡ true
unfolding lock_after
lock_after-locked now later n before h k t = ground arith

IsFor-fail_login :
    (cr : Credentials) (now : ℕ) {wrong : PinLoginRequest} (req : PinLoginRequest) {user : String}
    {p : LoginProfile} {s : Auth}
    → IsFor cr wrong user p s
    → IsComplete cr req
    → resolve_user req s ≡ some user
    → IsFor cr req user (failed_profile now p) (fail_login now user p s).0
unfolding fail_login add_audit resolve_user
IsFor-fail_login cr now req {user} {p} {s} h c q = record {
  complete = c;
  resolved = q;
  known = h.known;
  profile = put_self s.profiles user (some (failed_profile now p));
  has_hash = h.has_hash;
}

-- The fifth failed login of an account in a row, and each one after it, locks the account: for
-- 5 minutes at least every complete login, also one with the right PIN, is refused as locked and
-- changes nothing but the audit trail.
pub fifth_failure_locks :
    (cr : Credentials) (now later : ℕ) (t1 t2 : String) (wrong req : PinLoginRequest)
    (user : String) (p : LoginProfile) (s : Auth)
    → IsFor cr wrong user p s
    → is_locked now p.pin_locked_until ≡ false
    → cr.verify_pin p.password_hash (trim_space wrong.pin) ≡ false
    → 4 ≤ p.failed_login_count
    → p.failed_login_count + 1 < sign_bit
    → later < now + five_minutes
    → IsComplete cr req
    → resolve_user req s ≡ some user
    → let after = (login_with_pin cr now t1 wrong s).0 in
      login_with_pin cr later t2 req after
      ≡ (add_audit user "pin_login_locked" "failure" after, login_refused account_locked)
fifth_failure_locks cr now later t1 t2 wrong req user p s h free w n m t c q =
    rw (login_with_pin-wrong cr now t1 wrong h free w) (
      login_with_pin-locked cr later t2 req (IsFor-fail_login cr now req h c q) (
        lock_after-locked now later (add64 p.failed_login_count 1) p.pin_locked_until
          (omega (arith, n, m)) (omega (arith, m)) t))
