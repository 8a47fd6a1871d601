-- ===== src/Transfers/Freeze.antt =====
-- `EmergencyFreeze` and `Unfreeze` of service.go.
use hybrid_quantum_banking_b.Base.{
  ℕ, String, str_eq, Bool, true, false, not, ◌&&◌, ◌||◌, [], ◌∷◌, Option, none, some, if◌then◌else◌,
}
use hybrid_quantum_banking_b.Base.Maps.{put}
use hybrid_quantum_banking_b.Base.Text.{trim_space}
use hybrid_quantum_banking_b.Otp.{OtpError}
use hybrid_quantum_banking_b.Transfers.State.{Env, Service}
use hybrid_quantum_banking_b.Transfers.Recording.{log_event, append_audit}
use hybrid_quantum_banking_b.Transfers.Override.{check_otp}

-- `UnfreezeRequest`
pub record UnfreezeRequest : Type 0 where
  pub otp : String
  pub biometric_ok : Bool
  pub verification_method : String

pub data FreezeError : Type 0 where
  user_not_found biometric_required otp_missing : FreezeError
  otp_refused : OtpError → FreezeError

module _ (env : Env) where
  -- `EmergencyFreeze`: the error, if there is one.
  unfoldable pub emergency_freeze :
      ℕ → String → Bool → Service env → Service env × Option FreezeError
  unfolding append_audit log_event
  emergency_freeze now user test_mode s0 = elim (s0.users user) [
    | none ↦ (s0, some user_not_found)
    | some _ ↦
        let s1 =
          (if test_mode then s0 else record s0 { freeze_state = put s0.freeze_state user true }) in
        let s2 = append_audit env now user "emergency_freeze" "security" "success" "User" s1 in
        (
          log_event env now user "emergency_freeze" "security"
              (env.text_json ((if test_mode then "test" else "live") ∷ [])) s2,
          none,
        )
  ]

  -- `biometricSatisfied`
  unfoldable pub biometric_satisfied : UnfreezeRequest → Bool
  biometric_satisfied req =
      let method = env.to_lower (trim_space req.verification_method) in
      req.biometric_ok
      || str_eq method "biometric"
      || str_eq method "face"
      || str_eq method "fingerprint"

  -- The part of `Unfreeze` under the service lock.
  unfoldable pub unfreeze_locked : ℕ → String → Service env → Service env × Option FreezeError
  unfolding append_audit log_event
  unfreeze_locked now user s0 = elim (s0.users user) [
    | none ↦ (s0, some user_not_found)
    | some _ ↦
        let s1 = record s0 { freeze_state = put s0.freeze_state user false } in
        let s2 = append_audit env now user "emergency_unfreeze" "security" "success" "User" s1 in
        (
          log_event env now user "emergency_unfreeze" "security" (env.text_json ("frozen" ∷ [])) s2,
          none,
        )
  ]

  -- The rest of the call, with what the check of the password said.
  unfoldable pub unfreeze_checked :
      ℕ → String → Option OtpError → Service env → Service env × Option FreezeError
  unfolding unfreeze_locked
  unfreeze_checked now user (some err) s = (s, some (otp_refused err))
  unfreeze_checked now user none s = unfreeze_locked now user s

  -- `Unfreeze`
  unfoldable pub unfreeze :
      ℕ → String → UnfreezeRequest → Service env → Service env × Option FreezeError
  unfolding unfreeze_checked biometric_satisfied check_otp
  unfreeze now user req s =
      let otp = trim_space req.otp in
      if not (biometric_satisfied req)
      then (s, some biometric_required)
      else if env.otp_required_to_unfreeze && str_eq otp ""
      then (s, some otp_missing)
      else if str_eq otp ""
      then unfreeze_locked now user s
      else let (s', e) = check_otp env now user otp s in unfreeze_checked now user e s'
