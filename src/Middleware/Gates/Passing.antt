-- ===== src/Middleware/Gates/Passing.antt =====
-- What a request that passed a gate has shown (biometric_gate.go, stepup.go, otp_gate.go).
use hybrid_quantum_banking_b.Base.{
  ℕ, ◌≡◌, String, str_eq, Bool, true, false, ◌||◌, Option, some, arith,
}
use hybrid_quantum_banking_b.Base.Int64.{lt64}
use hybrid_quantum_banking_b.Base.Text.{trim_space}
use hybrid_quantum_banking_b.Middleware.Gates.{
  passes, has_user, user_text, Verifier, require_biometric_challenge,
  require_biometric_above_amount, require_otp_verification,
}

-- A request at or above the threshold passes the amount gate only with a known user, a challenge
-- and a signature that the verifier accepts.
pub biometric_above_amount :
    (threshold amount : ℕ) (verify : Verifier) (user : Option String) (challenge signature : String)
    → lt64 amount threshold ≡ false
    → require_biometric_above_amount threshold (some verify) amount user challenge signature
      ≡ passes
    → (has_user user ≡ true)
      × (str_eq (trim_space challenge) "" || str_eq (trim_space signature) "" ≡ false)
      × (verify (user_text user) (trim_space challenge) (trim_space signature) ≡ true)
unfolding require_biometric_above_amount
biometric_above_amount threshold amount verify user challenge signature a p = ground (arith, a, p)

-- Where challenges are enforced, a request passes only with a known user, a challenge and a
-- signature that the verifier accepts.
pub biometric_enforced :
    (verify : Verifier) (user : Option String) (challenge signature : String)
    → require_biometric_challenge true (some verify) user challenge signature ≡ passes
    → (has_user user ≡ true)
      × (str_eq (trim_space challenge) "" || str_eq (trim_space signature) "" ≡ false)
      × (verify (user_text user) (trim_space challenge) (trim_space signature) ≡ true)
unfolding require_biometric_challenge
biometric_enforced verify user challenge signature p = ground (arith, p)

-- A request passes the gate of one-time passwords only with a known user and a password that is
-- not blank and that the verifier accepts.
pub otp_gate_passed :
    (verify : String → String → Bool) (user : Option String) (otp : String)
    → require_otp_verification (some verify) user (some otp) ≡ passes
    → (has_user user ≡ true)
      × (str_eq (trim_space otp) "" ≡ false)
      × (verify (user_text user) (trim_space otp) ≡ true)
unfolding require_otp_verification
otp_gate_passed verify user otp p = ground (arith, p)
