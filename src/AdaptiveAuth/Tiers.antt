-- ===== src/AdaptiveAuth/Tiers.antt =====
-- What each tier asks for, and which sessions reach it (adaptive_auth.go, `EvaluateAuthTier`).
use hybrid_quantum_banking_b.Base.{
  ℕ, ◌/◌, ◌≡◌, ◌⊎◌, String, str_eq, eq_iff, true, false, arith, if◌then◌else◌,
}
use hybrid_quantum_banking_b.Base.Int64.{lt64}
use hybrid_quantum_banking_b.Base.Float.{Floats}
use hybrid_quantum_banking_b.AdaptiveAuth.{
  AuthManager, SessionProfile, TransactionProfile, silent_escalation, evaluate_auth_tier,
  set_user_limit, get_user_limit, ten_minutes,
}

module _ (fl : Floats) where
  -- The transaction is of level `high` or scores 70 or more.
  abbrev pub IsHighRisk : TransactionProfile fl → Type 0
  IsHighRisk t = (t.risk_level ≡ "high") ⊎ (fl.le (fl.lit 70000) t.risk_score ≡ true)

  -- The session behaves unlike its user.
  abbrev pub IsAnomalous : SessionProfile fl → Type 0
  IsAnomalous s = (s.is_anomalous_session ≡ true) ⊎ (fl.lt (fl.lit 700) s.behavioural_drift ≡ true)

  -- Only a high-risk transaction is blocked.
  pub blocked-IsHighRisk :
      (a : AuthManager) (s : SessionProfile fl) (t : TransactionProfile fl)
      → (evaluate_auth_tier fl a s t).is_blocked ≡ true
      → IsHighRisk t
  unfolding evaluate_auth_tier
  blocked-IsHighRisk a s t h = ground (arith, eq_iff t.risk_level "high")

  -- An anomalous session whose transaction is not high-risk meets less than a merely doubtful one:
  -- neither a one-time password nor an acknowledgement nor a block, however many failed
  -- authentications it has and however little its device is trusted.
  pub anomalous_skips_otp :
      (a : AuthManager) (s : SessionProfile fl) (t : TransactionProfile fl)
      → ¬ (IsHighRisk t)
      → IsAnomalous s
      → let d = evaluate_auth_tier fl a s t in
        (d.tier ≡ silent_escalation)
        × (d.require_otp ≡ false)
        × (d.require_ack ≡ false)
        × (d.is_blocked ≡ false)
        × (d.reduced_tx_limit ≡ a.default_limit / 2)
  unfolding evaluate_auth_tier
  anomalous_skips_otp a s t n h = ground (arith, eq_iff t.risk_level "high")

  -- Where no one-time password is asked for, the transaction is not high-risk; and unless the
  -- session is anomalous, its device is trusted, no authentication has failed and the session is
  -- at most 10 minutes old.
  pub no_otp_is_trusted :
      (a : AuthManager) (s : SessionProfile fl) (t : TransactionProfile fl)
      → (evaluate_auth_tier fl a s t).require_otp ≡ false
      → ¬ (IsAnomalous s)
      → (¬ (IsHighRisk t))
        × (fl.lt s.device_trust_score (fl.lit 700) ≡ false)
        × (lt64 0 s.failed_auth_attempts ≡ false)
        × (lt64 ten_minutes s.session_age ≡ false)
  unfolding evaluate_auth_tier
  no_otp_is_trusted a s t h n = ground (arith, eq_iff t.risk_level "high", n)

-- A limit that was set for a user is read back for that user, and for nobody else.
pub get_user_limit-set :
    (user other : String) (limit : ℕ) (a : AuthManager)
    → get_user_limit other (set_user_limit user limit a)
      ≡ (if str_eq other user then limit else get_user_limit other a)
unfolding get_user_limit set_user_limit
get_user_limit-set user other limit a = ground arith
