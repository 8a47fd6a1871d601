-- ===== src/Transfers/Steps.antt =====
-- The steps of `InitiateTransaction` of service.go up to the debit.
use hybrid_quantum_banking_b.Base.Float.{Floats}
use hybrid_quantum_banking_b.Base.{
  ℕ, ◌+◌, ◌*◌, String, Bool, true, false, not, ◌||◌, List, [], ◌∷◌, Option, none, some,
  if◌then◌else◌,
}
use hybrid_quantum_banking_b.Base.Int64.{non_positive}
use hybrid_quantum_banking_b.Base.Maps.{put}
use hybrid_quantum_banking_b.Base.Text.{first_non_empty}
use hybrid_quantum_banking_b.Accounts.{apply_debit}
use hybrid_quantum_banking_b.AccountingLedger.{post_outgoing_payment}
use hybrid_quantum_banking_b.AdaptiveAuth.{
  AuthDecision, SessionProfile, TransactionProfile, evaluate_auth_tier,
}
use hybrid_quantum_banking_b.Blockchain.Writes.{
  WriteResult, written, violation, marshal_failed, backend_failed,
}
use hybrid_quantum_banking_b.Outbox.{enqueue}
use hybrid_quantum_banking_b.RiskEngine.{Assessment, level_text}
use hybrid_quantum_banking_b.Transfers.State.{
  Env, Inputs, Service, Transaction, TransactionResult, InitiateRequest, Status, success, blocked,
  warning_ack_required, other_status, User,
}
use hybrid_quantum_banking_b.Transfers.Recording.{append_audit, append_transaction}
use hybrid_quantum_banking_b.Transfers.Signals.{average_amount, seen_recipient, signal_of, clamp}

-- The errors that the calls return.
pub data TransferError : Type 0 where
  user_not_found key_missing amount_not_positive recipient_missing : TransferError
  contract_violation ledger_failed insufficient_funds : TransferError

abbrev pub is_blocked_status : Status → Bool
is_blocked_status blocked = true
is_blocked_status _ = false

abbrev pub is_success_status : Status → Bool
is_success_status success = true
is_success_status _ = false

-- The text of a status, as it stands in the audit trail.
abbrev pub status_text : Status → String
status_text success = "success"
status_text blocked = "blocked"
status_text warning_ack_required = "warning_ack_required"
status_text (other_status t) = t

-- The list with the status of its last transaction set.
unfoldable pub set_last_status :
    (fl : Floats) → Status → List (Transaction fl) → List (Transaction fl)
set_last_status fl st [] = []
set_last_status fl st (tx ∷ []) = record tx { status = st } ∷ []
set_last_status fl st (tx ∷ u ∷ rest) = tx ∷ set_last_status fl st (u ∷ rest)

abbrev device_of : Option User → Bool
device_of none = false
device_of (some u) = u.device_bound

-- What the strict ledger write means to the caller.
abbrev pub write_error : WriteResult → Option TransferError
write_error (written _) = none
write_error (violation _ _) = some contract_violation
write_error marshal_failed = some ledger_failed
write_error backend_failed = some ledger_failed

module _ (env : Env) where
  open env use {fl}

  -- How a call ends, beside the new state.
  pub data Outcome : Type 0 where
    done : TransactionResult fl → Outcome
    failed : TransferError → Outcome

  -- `coolingOffWindow`, in nanoseconds.
  unfoldable pub cooling_off_window : ℕ
  cooling_off_window =
      (if non_positive env.cooling_off_minutes then 240 else env.cooling_off_minutes) * 60000000000

  -- `assessment` and `authDecision`.
  unfoldable pub assess_request :
      Inputs → String → InitiateRequest fl → Service env → Assessment fl × AuthDecision
  unfolding signal_of average_amount seen_recipient clamp evaluate_auth_tier
  assess_request inp user req s =
      let assessment = env.evaluate (signal_of env inp user req s) in
      let session : SessionProfile fl = record {
        device_trust_score = clamp fl req.session_trust_score (fl.lit 0) (fl.lit 1000);
        behavioural_drift = clamp fl req.behaviour_drift (fl.lit 0) (fl.lit 1000);
        session_age = 0;
        failed_auth_attempts = req.failed_pin_attempts;
        is_anomalous_session = false;
        is_trusted_device = device_of (s.users user);
      } in
      let profile : TransactionProfile fl = record {
        risk_score = assessment.score;
        risk_level = level_text assessment.level;
        amount_paise = req.amount_paise;
        is_new_recipient = not (seen_recipient env user req s);
        amount_vs_average = fl.div (fl.of_int req.amount_paise) (average_amount env user s);
      } in
      (assessment, evaluate_auth_tier fl s.auth session profile)

  -- The status that the decision gives the transaction.
  unfoldable pub status_of : AuthDecision → Status
  status_of d =
      if d.is_blocked
      then blocked
      else if d.require_otp || d.require_ack
      then warning_ack_required
      else success

  -- The transaction that is recorded.
  unfoldable pub new_transaction :
      Inputs
      → String
      → String
      → InitiateRequest fl
      → String
      → Assessment fl
      → AuthDecision
      → Transaction fl
  unfolding status_of cooling_off_window first_non_empty
  new_transaction inp user key req id assessment d = record {
    id = id;
    user_id = user;
    amount_paise = req.amount_paise;
    recipient = req.recipient;
    channel = first_non_empty req.channel "upi";
    status = status_of d;
    risk_level = assessment.level;
    risk_score = assessment.score;
    created_at = inp.now;
    idempotency_key = key;
    cooling_off_until = if d.is_blocked then some (inp.now + cooling_off_window) else none;
  }

  -- `s.outbox.Enqueue("risk.decision", …)`
  unfoldable pub enqueue_decision : Inputs → Option String → Service env → Service env
  unfolding enqueue
  enqueue_decision inp none s = s
  enqueue_decision inp (some payload) s = record s {
    outbox = enqueue inp.outbox_id inp.now "risk.decision" payload s.outbox;
  }

  -- From the outbox event to the fraud graph: the transaction is in the history, its recipient is
  -- known from now on unless it was blocked, and the graph has the edge.
  unfoldable pub record_transaction : Inputs → String → Transaction fl → Service env → Service env
  unfolding enqueue_decision append_transaction
  record_transaction inp user txn s0 =
      let s1 = enqueue_decision inp (env.risk_event_json txn) s0 in
      let s2 = append_transaction env user txn s1 in
      let s3 =
        (if is_blocked_status txn.status then s2 else record s2 {
          beneficiaries =
              put s2.beneficiaries user
                (put (s2.beneficiaries user) (env.to_lower txn.recipient) true);
        }) in
      record s3 { graph = env.graph_add user txn.recipient txn.amount_paise s3.graph }

  -- The branch of a rejected strict write.
  unfoldable pub reject_transaction : Inputs → String → TransferError → Service env → Service env
  unfolding set_last_status append_audit
  reject_transaction inp user contract_violation s =
      append_audit env inp.now user "transaction_initiated" "transaction" "blocked" "SmartContract"
        (record s {
          transactions = put s.transactions user (set_last_status fl blocked (s.transactions user));
        })
  reject_transaction inp user _ s = s

  -- The double entry of a successful transaction: its outcome is dropped.
  unfoldable pub post_entry : Inputs → String → Transaction fl → Service env → Service env
  unfolding post_outgoing_payment
  post_entry inp user txn s = elim (s.accounts user) [
    | [] ↦ s
    | acct ∷ _ ↦ record s {
      book =
          (post_outgoing_payment
            (record {
              now = inp.now;
              debit_id = inp.debit_entry_id;
              credit_id = inp.credit_entry_id;
            })
            txn.id acct.id user txn.recipient txn.amount_paise
            (env.narration txn.recipient txn.amount_paise) s.book).0;
    }
  ]

  -- The money of a successful transaction; `none` where the funds are insufficient.
  unfoldable pub move_money : Inputs → String → Transaction fl → Service env → Service env × Bool
  unfolding post_entry
  move_money inp user txn s0 =
      if is_success_status txn.status
      then (let s = post_entry inp user txn s0 in
          elim (apply_debit txn.amount_paise (s.accounts user)) [
            | none ↦ (s, false)
            | some accounts ↦ (record s { accounts = put s.accounts user accounts }, true)
          ])
      else (s0, true)
