-- ===== src/Transfers/State.antt =====
-- The part of `Service` that transfers read and write, and what they take from outside
-- (service.go).
use hybrid_quantum_banking_b.Base.{ℕ, String, Bool, Option, List}
use hybrid_quantum_banking_b.Base.Float.{Floats}
use hybrid_quantum_banking_b.Accounts.{Account}
use hybrid_quantum_banking_b.AccountingLedger.{Entry}
use hybrid_quantum_banking_b.AdaptiveAuth.{AuthManager}
use hybrid_quantum_banking_b.Blockchain.Events.{Event, Host}
use hybrid_quantum_banking_b.Blockchain.Writes.{Backend}
use hybrid_quantum_banking_b.Otp.{OtpState}
use hybrid_quantum_banking_b.Outbox.{OutboxEvent}
use hybrid_quantum_banking_b.RiskEngine.{RiskLevel, RiskSignal, Assessment, AmountTermParams}
use hybrid_quantum_banking_b.ThreatResponse.{Manager}

-- The texts that `Transaction.Status` takes on the way of a transaction; `other_status` is any
-- other, which a stored transaction may carry.
pub data Status : Type 0 where
  success blocked warning_ack_required : Status
  other_status : String → Status

-- The fields of `User` that are read.
pub record User : Type 0 where
  pub created_at : ℕ
  pub device_bound : Bool

-- `AuditEvent`
pub record AuditEvent : Type 0 where
  pub id : String
  pub timestamp : ℕ
  pub user_id : String
  pub event_type : String
  pub triggered_by : String
  pub outcome : String

-- `NotificationItem`
pub record Notification : Type 0 where
  pub id : String
  pub category : String
  pub title : String
  pub created_at : ℕ

-- `InitiateTransactionRequest`; the two scores are float64.
module _ (fl : Floats) where
  open fl use {F}

  pub record InitiateRequest : Type 0 where
    pub amount_paise : ℕ
    pub recipient : String
    pub channel : String
    pub failed_pin_attempts : ℕ
    pub behaviour_drift : F
    pub session_trust_score : F

  -- `Transaction`
  pub record Transaction : Type 0 where
    pub id : String
    pub user_id : String
    pub amount_paise : ℕ
    pub recipient : String
    pub channel : String
    pub status : Status
    pub risk_level : RiskLevel
    pub risk_score : F
    pub created_at : ℕ
    pub idempotency_key : String
    pub cooling_off_until : Option ℕ

  -- `TransactionResult`
  pub record TransactionResult : Type 0 where
    pub transaction_id : String
    pub status : Status
    pub risk_level : RiskLevel
    pub risk_score : F
    pub cooling_off_until : Option ℕ
    pub step_up_required : Bool
    pub required_tier : String
    pub require_biometric : Bool
    pub require_otp : Bool
    pub require_manual_review : Bool

-- The collaborators: the arithmetic of float64, the fraud graph, the risk engine, and formatting.
-- `json` stands for `json.Marshal` of the named value, `none` for its failure.
pub record Env : Type 1 where
  pub fl : Floats
  pub host : Host
  pub Graph : Type 0
  pub graph_score : Graph → String → fl.F
  pub graph_add : String → String → ℕ → Graph → Graph
  pub evaluate : RiskSignal fl → Assessment fl
  pub params : AmountTermParams fl
  pub cooling_off_minutes : ℕ
  pub fabric : Option Backend
  pub to_lower : String → String
  pub format_id : String → ℕ → String
  pub transaction_json : Transaction fl → Option String
  pub result_json : TransactionResult fl → Option String
  pub audit_json : AuditEvent → Option String
  pub risk_event_json : Transaction fl → Option String
  pub text_json : List String → Option String
  pub narration : String → ℕ → String
  pub otp_required_to_unfreeze : Bool

-- The readings of one call: the clock, and the draws of `randomHex`.
pub record Inputs : Type 0 where
  pub now : ℕ
  pub debit_entry_id : String
  pub credit_entry_id : String
  pub outbox_id : String

module _ (env : Env) where
  open env use {fl, Graph}

  -- An entry of the two idempotency maps, which are always written and deleted together.
  pub record Cached : Type 0 where
    pub key : String
    pub result : TransactionResult fl
    pub expiry : ℕ

  -- The fields of `Service`.
  pub record Service : Type 0 where
    pub counter : ℕ
    pub users : String → Option User
    pub accounts : String → List Account
    pub transactions : String → List (Transaction fl)
    pub beneficiaries : String → String → Bool
    pub freeze_state : String → Bool
    pub idempotency : List Cached
    pub audit : List AuditEvent
    pub chain : List Event
    pub book : List Entry
    pub outbox : List OutboxEvent
    pub graph : Graph
    pub auth : AuthManager
    pub threats : Manager
    pub notifications : String → List Notification
    pub otp : OtpState
