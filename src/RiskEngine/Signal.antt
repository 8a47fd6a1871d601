-- ===== src/RiskEngine/Signal.antt =====
-- The data of the risk engine (risk_engine.go, and `AmountTermParams` of config/models.go).
use hybrid_quantum_banking_b.Base.{ℕ, String, Bool}
use hybrid_quantum_banking_b.Base.Float.{Floats}

-- `RiskLevel`
pub data RiskLevel : Type 0 where
  low medium high : RiskLevel

-- The texts of the levels.
abbrev pub level_text : RiskLevel → String
level_text low = "low"
level_text medium = "medium"
level_text high = "high"

module _ (fl : Floats) where
  open fl use {F}

  -- `AmountTermParams`
  pub record AmountTermParams : Type 0 where
    pub k : F
    pub cap : F
    pub clip_max : F
    pub floor_avg_paise : ℕ
    pub balance_clip_max : F

  -- `RiskSignal`: the nine signals that the heuristic reads, the cold-start mark, and those inputs
  -- of the served model that a transaction sets.
  pub record RiskSignal : Type 0 where
    pub amount_vs_average : F
    pub is_new_recipient : Bool
    pub hour_of_day : ℕ
    pub failed_pin_attempts : ℕ
    pub velocity_count_1hr : ℕ
    pub balance_impact : F
    pub recipient_gnn_score : F
    pub behaviour_drift : F
    pub session_trust_score : F
    pub is_cold_start : Bool
    pub transaction_amount : F
    pub account_age_days : ℕ
    pub current_balance : F
    pub payment_channel : String
    pub currency : String
    pub account_type : String

  -- `Assessment`
  pub record Assessment : Type 0 where
    pub level : RiskLevel
    pub score : F
