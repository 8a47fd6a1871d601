-- ===== src/Examples/Setup.antt =====
-- A small bank with one user, and an environment whose collaborators are concrete functions.
use Prim.Native.String.{◌++◌ as ◌+s◌}
use hybrid_quantum_banking_b.Base.{
  ℕ, str_eq, Bool, true, false, List, [], ◌∷◌, none, some, if◌then◌else◌,
}
use hybrid_quantum_banking_b.Base.Float.{milli}
use hybrid_quantum_banking_b.Accounts.{Account}
use hybrid_quantum_banking_b.AdaptiveAuth.{AuthManager}
use hybrid_quantum_banking_b.Blockchain.Events.{Host}
use hybrid_quantum_banking_b.Otp.{OtpState}
use hybrid_quantum_banking_b.RiskEngine.{low, AmountTermParams}
use hybrid_quantum_banking_b.ThreatResponse.{Manager}
use hybrid_quantum_banking_b.Transfers.State.{
  Env, Inputs, Service, InitiateRequest, Transaction, Status,
}

abbrev pub demo_host : Host
demo_host = record {
  sha256_hex = λ s. "h" +s s;
  itoa = λ _. "0";
  format_time = λ _. "t";
  format_violations = λ _. "violations";
}

abbrev pub demo_params : AmountTermParams milli
demo_params = record {
  k = 4000;
  cap = 30000;
  clip_max = 10000;
  floor_avg_paise = 50000;
  balance_clip_max = 1000;
}

abbrev pub demo_env : Env
demo_env = record {
  fl = milli;
  host = demo_host;
  Graph = Unit;
  graph_score = λ _ _. 0;
  graph_add = λ _ _ _ g. g;
  evaluate = λ _. record { level = low; score = 0 };
  params = demo_params;
  cooling_off_minutes = 240;
  fabric = none;
  to_lower = λ s. s;
  format_id = λ prefix _. prefix;
  transaction_json = λ tx. some tx.id;
  result_json = λ _. some "result";
  audit_json = λ _. some "audit";
  risk_event_json = λ _. some "decision";
  text_json = λ _. some "texts";
  narration = λ _ _. "payment";
  otp_required_to_unfreeze = true;
}

abbrev pub demo_account : ℕ → Account
demo_account balance = record {
  id = "acc1";
  account_type = "savings";
  upi_id = "alice@upi";
  balance_paise = balance;
}

abbrev pub demo_auth : AuthManager
demo_auth = record {
  user_limits = λ _. none;
  default_limit = 10000000;
  high_value_limit = 10000000;
}

abbrev pub demo_threats : Manager
demo_threats = record {
  active_threats = λ _. [];
  credential_attempts = λ _. 0;
  rate_limit_escalated = λ _. false;
}

-- Alice has a one-time password that expires at time 900.
abbrev pub demo_otp : OtpState
demo_otp = record {
  profiles =
      λ u. if str_eq u "alice" then some (record { code = "123456"; expiry = some 900 }) else none;
  attempts = λ _. 0;
  lock_until = λ _. none;
}

-- Alice has the given balance and history.
abbrev pub demo_state : ℕ → Bool → List (Transaction milli) → Service demo_env
demo_state balance frozen history = record {
  counter = 0;
  users =
      λ u. if str_eq u "alice" then some (record { created_at = 0; device_bound = true }) else none;
  accounts = λ u. if str_eq u "alice" then demo_account balance ∷ [] else [];
  transactions = λ u. if str_eq u "alice" then history else [];
  beneficiaries = λ _ _. false;
  freeze_state = λ u. if str_eq u "alice" then frozen else false;
  idempotency = [];
  audit = [];
  chain = [];
  book = [];
  outbox = [];
  graph = tt;
  auth = demo_auth;
  threats = demo_threats;
  notifications = λ _. [];
  otp = demo_otp;
}

abbrev pub demo_inputs : ℕ → Inputs
demo_inputs now = record {
  now = now;
  debit_entry_id = "le1";
  credit_entry_id = "le2";
  outbox_id = "ob1";
}

abbrev pub demo_request : ℕ → InitiateRequest milli
demo_request amount = record {
  amount_paise = amount;
  recipient = "bob";
  channel = "upi";
  failed_pin_attempts = 0;
  behaviour_drift = 0;
  session_trust_score = 1000;
}

abbrev pub demo_transaction : Status → Transaction milli
demo_transaction st = record {
  id = "t1";
  user_id = "alice";
  amount_paise = 300;
  recipient = "bob";
  channel = "upi";
  status = st;
  risk_level = low;
  risk_score = 0;
  created_at = 10;
  idempotency_key = "k1";
  cooling_off_until = none;
}
