-- ===== src/AdaptiveAuth.antt =====
-- The choice of an authentication tier of backend/internal/domain/security/adaptive_auth.go, with
-- the limits that it keeps for each user. Scores are abstract float64 values; the explanations
-- shown to the user are left out.
pub mod Tiers
use hybrid_quantum_banking_b.Base.{
  ℕ, ◌/◌, String, str_eq, Bool, true, false, ◌&&◌, ◌||◌, Option, none, some, ltb, if◌then◌else◌,
}
use hybrid_quantum_banking_b.Base.Int64.{lt64}
use hybrid_quantum_banking_b.Base.Maps.{put}
use hybrid_quantum_banking_b.Base.Float.{Floats}

-- `AdaptiveAuthTier`
pub data Tier : Type 0 where
  biometric_only biometric_ack biometric_plus_otp block_identity_verify silent_escalation : Tier

-- `AdaptiveAuthTier.String`
unfoldable pub tier_name : Tier → String
tier_name biometric_only = "biometric_only"
tier_name biometric_ack = "biometric_plus_ack"
tier_name biometric_plus_otp = "biometric_plus_otp"
tier_name block_identity_verify = "block_identity_verify"
tier_name silent_escalation = "silent_escalation"

-- `AuthDecision`
pub record AuthDecision : Type 0 where
  pub tier : Tier
  pub require_biometric : Bool
  pub require_otp : Bool
  pub require_ack : Bool
  pub require_manual_review : Bool
  pub is_blocked : Bool
  pub silent : Bool
  pub reduced_tx_limit : ℕ

-- `AdaptiveAuthManager`
pub record AuthManager : Type 0 where
  pub user_limits : String → Option ℕ
  pub default_limit : ℕ
  pub high_value_limit : ℕ

-- `NewAdaptiveAuthManager`
unfoldable pub new_manager : AuthManager
new_manager = record {
  user_limits = λ _. none;
  default_limit = 10000000;
  high_value_limit = 10000000;
}

module _ (fl : Floats) where
  open fl use {F, lt, le, lit}

  -- `SessionRiskProfile`
  pub record SessionProfile : Type 0 where
    pub device_trust_score : F
    pub behavioural_drift : F
    pub session_age : ℕ
    pub failed_auth_attempts : ℕ
    pub is_anomalous_session : Bool
    pub is_trusted_device : Bool

  -- `TransactionRiskProfile`
  pub record TransactionProfile : Type 0 where
    pub risk_score : F
    pub risk_level : String
    pub amount_paise : ℕ
    pub is_new_recipient : Bool
    pub amount_vs_average : F

-- A decision that asks for the biometric factor and nothing else.
abbrev pub plain : Tier → AuthDecision
plain t = record {
  tier = t;
  require_biometric = true;
  require_otp = false;
  require_ack = false;
  require_manual_review = false;
  is_blocked = false;
  silent = false;
  reduced_tx_limit = 0;
}

-- 10 minutes in nanoseconds.
abbrev pub ten_minutes : ℕ
ten_minutes = 600000000000

-- `EvaluateAuthTier`
unfoldable pub evaluate_auth_tier :
    (fl : Floats) → AuthManager → SessionProfile fl → TransactionProfile fl → AuthDecision
evaluate_auth_tier fl a session txn =
    if str_eq txn.risk_level "high" || fl.le (fl.lit 70000) txn.risk_score
    then record (plain block_identity_verify) {
      require_otp = true;
      require_manual_review = lt64 a.high_value_limit txn.amount_paise;
      is_blocked = true;
    }
    else if session.is_anomalous_session || fl.lt (fl.lit 700) session.behavioural_drift
    then record (plain silent_escalation) { silent = true; reduced_tx_limit = a.default_limit / 2 }
    else if fl.lt session.device_trust_score (fl.lit 700)
        || lt64 0 session.failed_auth_attempts
        || lt64 ten_minutes session.session_age
    then record (plain biometric_plus_otp) { require_otp = true }
    else if str_eq txn.risk_level "medium"
        || (fl.le (fl.lit 40000) txn.risk_score && fl.lt txn.risk_score (fl.lit 70000))
    then record (plain biometric_ack) { require_ack = true }
    else plain biometric_only

-- `SetUserLimit`
unfoldable pub set_user_limit : String → ℕ → AuthManager → AuthManager
set_user_limit user limit a = record a { user_limits = put a.user_limits user (some limit) }

-- `GetUserLimit`
unfoldable pub get_user_limit : String → AuthManager → ℕ
get_user_limit user a = elim (a.user_limits user) [ some limit ↦ limit | none ↦ a.default_limit ]

-- `ResetUserLimit`
unfoldable pub reset_user_limit : String → AuthManager → AuthManager
reset_user_limit user a = record a { user_limits = put a.user_limits user none }
