-- ===== src/ThreatResponse.antt =====
-- The automated playbooks of backend/internal/domain/security/threat_response.go. The explanations
-- shown to the user are left out; the clock is an argument.
pub mod Playbooks
use hybrid_quantum_banking_b.Base.{
  ℕ, String, str_eq, Bool, true, false, not, Option, none, some, List, [], ◌∷◌, ◌++◌, if◌then◌else◌,
}
use hybrid_quantum_banking_b.Base.Int64.{add64, le64}
use hybrid_quantum_banking_b.Base.Maps.{put}

-- `ThreatType`; any other text is unknown.
pub data ThreatType : Type 0 where
  sim_swap device_compromise credential_stuffing mass_fraud_pattern unknown : ThreatType

-- `ThreatResponse`
pub record Response : Type 0 where
  pub threat_type : ThreatType
  pub user_id : String
  pub action : String
  pub session_termination : Bool
  pub transaction_suspension : Bool
  pub emergency_alert : Bool
  pub email_alert : Bool
  pub push_notification : Bool
  pub captcha : Bool
  pub rate_limit : Bool
  pub manual_review : Bool
  pub video_kyc : Bool
  pub blockchain_log : Bool
  pub timestamp : ℕ

-- `ThreatResponseManager`
pub record Manager : Type 0 where
  pub active_threats : String → List Response
  pub credential_attempts : String → ℕ
  pub rate_limit_escalated : String → Bool

-- `NewThreatResponseManager`
unfoldable pub new_threat_manager : Manager
new_threat_manager = record {
  active_threats = λ _. [];
  credential_attempts = λ _. 0;
  rate_limit_escalated = λ _. false;
}

-- The response before a playbook has run.
abbrev pub blank : ThreatType → String → ℕ → Response
blank threat user now = record {
  threat_type = threat;
  user_id = user;
  action = "";
  session_termination = false;
  transaction_suspension = false;
  emergency_alert = false;
  email_alert = false;
  push_notification = false;
  captcha = false;
  rate_limit = false;
  manual_review = false;
  video_kyc = false;
  blockchain_log = true;
  timestamp = now;
}

-- The four playbooks, and the answer where there is none.
unfoldable pub playbook : ThreatType → Response → Response
playbook sim_swap r = record r {
  action = "session_termination_transaction_suspension_video_kyc_required";
  session_termination = true;
  transaction_suspension = true;
  email_alert = true;
  emergency_alert = true;
  video_kyc = true;
  manual_review = true;
}
playbook device_compromise r = record r {
  action = "transaction_suspension_device_lock";
  transaction_suspension = true;
  push_notification = true;
  email_alert = true;
}
playbook credential_stuffing r = record r {
  action = "rate_limit_escalation_captcha_threat_intel_share";
  captcha = true;
  rate_limit = true;
}
playbook mass_fraud_pattern r = record r {
  action = "emergency_broadcast_manual_review_elevation";
  emergency_alert = true;
  email_alert = true;
  push_notification = true;
  manual_review = true;
}
playbook unknown r = record r { action = "no_playbook_defined" }

-- `getStringFromMap(metadata, "ip", "unknown")`, on the entry of the key if it is a text.
abbrev pub ip_of : Option String → String
ip_of none = "unknown"
ip_of (some ip) = if str_eq ip "" then "unknown" else ip

-- What the credential stuffing playbook writes beside the response.
escalate : ThreatType → Option String → Manager → Manager
escalate credential_stuffing ip m = record m {
  rate_limit_escalated = put m.rate_limit_escalated (ip_of ip) true;
}
escalate sim_swap _ m = m
escalate device_compromise _ m = m
escalate mass_fraud_pattern _ m = m
escalate unknown _ m = m

-- `RespondToThreat`
unfoldable pub respond_to_threat :
    ℕ → ThreatType → String → Option String → Manager → Manager × Response
unfolding playbook escalate
respond_to_threat now threat user ip m =
    let response = playbook threat (blank threat user now) in
    let m' = escalate threat ip m in
    (
      record m' {
        active_threats = put m'.active_threats user (m'.active_threats user ++ response ∷ []);
      },
      response,
    )

-- `RecordFailedLogin`
unfoldable pub record_failed_login : String → Manager → Manager
record_failed_login ip m = record m {
  credential_attempts = put m.credential_attempts ip (add64 (m.credential_attempts ip) 1);
}

-- `ResetFailedLogins`
unfoldable pub reset_failed_logins : String → Manager → Manager
reset_failed_logins ip m = record m { credential_attempts = put m.credential_attempts ip 0 }

-- `IsCredentialStuffingDetected`
unfoldable pub stuffing_detected : String → Manager → Bool
stuffing_detected ip m = le64 10 (m.credential_attempts ip)

-- `ClearThreats`
unfoldable pub clear_threats : String → Manager → Manager
clear_threats user m = record m { active_threats = put m.active_threats user [] }
