-- ===== src/Otp/Attempts.antt =====
-- Accepted passwords, and failed attempts (service_expansion.go, `VerifyOTPToken`).
use hybrid_quantum_banking_b.Base.{
  ℕ, ◌+◌, ◌≤◌, ◌<◌, ◌≡◌, ◌≢◌, ◌⊎◌, refl, String, eq_iff, eq_refl, Bool, true, false, Option, none,
  some, arith,
}
use hybrid_quantum_banking_b.Base.Text.{trim_space}
use hybrid_quantum_banking_b.Otp.{
  OtpState, Profile, verify_otp_token, verify_profile, require_user, is_locked, is_expired,
  too_many_attempts, lock_time,
}

verify_profile_accepts :
    (now : ℕ) (user otp : String) (o : Option Profile) (s : OtpState)
    → (verify_profile now user otp o s).1 ≡ none
    → (p : Profile) × (o ≡ some p) × (p.code ≡ otp) × (is_expired now p.expiry ≡ false)
unfolding verify_profile
verify_profile_accepts now user otp none s h = cc
verify_profile_accepts now user otp (some p) s h =
    (p, refl, ground (arith, eq_iff p.code otp), ground arith)

accepted_guards :
    (now : ℕ) (known : Bool) (user otp : String) (s : OtpState)
    → (verify_otp_token now known user otp s).1 ≡ none
    → ((verify_profile now user (trim_space otp) (s.profiles user) s).1 ≡ none)
      × (trim_space otp ≢ "")
      × (is_locked now (s.lock_until user) ≡ false)
      × (known ≡ true)
unfolding verify_otp_token
accepted_guards now known user otp s h = ground (arith, eq_iff (trim_space otp) "")

-- Acceptance means that the user is known and not locked, and that the text is the stored password
-- of the profile, not blank and not expired.
pub accepted_is_right :
    (now : ℕ) (known : Bool) (user otp : String) (s : OtpState)
    → (verify_otp_token now known user otp s).1 ≡ none
    → (p : Profile) × (s.profiles user ≡ some p)
      × (p.code ≡ trim_space otp)
      × (trim_space otp ≢ "")
      × (is_expired now p.expiry ≡ false)
      × (is_locked now (s.lock_until user) ≡ false)
      × (known ≡ true)
accepted_is_right now known user otp s h =
    let g = accepted_guards now known user otp s h in
    let r = verify_profile_accepts now user (trim_space otp) (s.profiles user) s g.0 in
    (r.0, r.1, r.2, g.1, r.3, g.2, g.3)

accepted_clears :
    (now : ℕ) (known : Bool) (user otp : String) (s : OtpState)
    → (verify_otp_token now known user otp s).1 ≡ none
    → (verify_otp_token now known user otp s).0.profiles user
      ≡ some (record { code = ""; expiry = none })
unfolding verify_otp_token verify_profile
accepted_clears now known user otp s h = ground (arith, eq_refl user)

-- An accepted password is used up: no text at all is accepted next for the user, at any time.
pub accepted_once :
    (now later : ℕ) (known again : Bool) (user otp other : String) (s : OtpState)
    → (verify_otp_token now known user otp s).1 ≡ none
    → (verify_otp_token later again user other (verify_otp_token now known user otp s).0).1 ≢ none
accepted_once now later known again user otp other s h e =
    let second =
      accepted_is_right later again user other (verify_otp_token now known user otp s).0 e in
    ground (arith, accepted_clears now known user otp s h, second.1, second.4)

-- The request got as far as the check of the password.
pub record IsChecked (now : ℕ) (known : Bool) (user otp : String) (s : OtpState) : Type 0 where
  pub user_known : require_user known user ≡ none
  pub named : trim_space otp ≢ ""
  pub unlocked : is_locked now (s.lock_until user) ≡ false
  pub profile : Profile
  pub stored : s.profiles user ≡ some profile

-- A failed check after two others locks the user: for 30 minutes every further request with a text
-- is refused, also one with the right password. A failed check before that only counts.
pub third_failure_locks :
    (now later : ℕ) (known : Bool) (user otp other : String) (s : OtpState)
    → IsChecked now known user otp s
    → (verify_otp_token now known user otp s).1 ≢ none
    → s.attempts user ≤ 2
    → trim_space other ≢ ""
    → later < now + lock_time
    → let s' = (verify_otp_token now known user otp s).0 in
      ((s.attempts user ≡ 2)
        × ((verify_otp_token later known user other s').1 ≡ some too_many_attempts)
        × (s'.attempts user ≡ 0))
      ⊎ ((s.attempts user < 2)
          × (s'.attempts user ≡ s.attempts user + 1)
          × (s'.lock_until user ≡ s.lock_until user))
unfolding verify_otp_token verify_profile
third_failure_locks now later known user otp other s c e a n l =
    ground (arith, eq_refl user, eq_iff (trim_space otp) "", eq_iff (trim_space other) "")
