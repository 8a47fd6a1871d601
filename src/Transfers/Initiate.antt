-- ===== src/Transfers/Initiate.antt =====
-- `InitiateTransaction` of service.go, put together from its steps.
use Prim.Native.String.{◌++◌ as ◌+s◌}
use hybrid_quantum_banking_b.Base.{
  String, str_eq, true, false, ◌&&◌, ◌||◌, Option, none, some, ltb, if◌then◌else◌,
}
use hybrid_quantum_banking_b.Base.Int64.{non_positive}
use hybrid_quantum_banking_b.Base.Text.{trim_space}
use hybrid_quantum_banking_b.AdaptiveAuth.{AuthDecision, tier_name}
use hybrid_quantum_banking_b.Blockchain.Events.{default_rules}
use hybrid_quantum_banking_b.Blockchain.Writes.{write_event_strict}
use hybrid_quantum_banking_b.RiskEngine.{high}
use hybrid_quantum_banking_b.ThreatResponse.{device_compromise, respond_to_threat}
use hybrid_quantum_banking_b.Transfers.State.{
  User, Env, Inputs, Service, Transaction, TransactionResult, InitiateRequest, blocked, Cached,
}
use hybrid_quantum_banking_b.Transfers.Idempotency.{find_cached, drop_key, set_idempotent}
use hybrid_quantum_banking_b.Transfers.Recording.{
  next_id, log_event, append_audit, push_notification,
}
use hybrid_quantum_banking_b.Transfers.Steps.{
  user_not_found, key_missing, amount_not_positive, recipient_missing, insufficient_funds,
  is_blocked_status, status_text, write_error, Outcome, done, failed, assess_request,
  new_transaction, record_transaction, reject_transaction, move_money,
}

module _ (env : Env) where
  open env use {fl}

  -- The result of a transaction of a frozen user.
  abbrev pub frozen_result : String → TransactionResult fl
  frozen_result id = record {
    transaction_id = id;
    status = blocked;
    risk_level = high;
    risk_score = fl.lit 100000;
    cooling_off_until = none;
    step_up_required = true;
    required_tier = "";
    require_biometric = false;
    require_otp = false;
    require_manual_review = false;
  }

  -- The branch of a frozen user.
  unfoldable pub initiate_frozen :
      Inputs → String → String → Service env → Service env × Outcome env
  unfolding next_id set_idempotent append_audit log_event
  initiate_frozen inp user cache_key s0 =
      let (s1, id) = next_id env "txn" s0 in
      let res = frozen_result id in
      let s2 = record s1 {
        idempotency = set_idempotent env inp.now cache_key res s1.idempotency;
      } in
      let s3 =
        append_audit env inp.now user "transaction_blocked" "transaction" "blocked" "AI" s2 in
      (
        log_event env inp.now user "transaction_blocked" "transaction" (env.result_json res) s3,
        done res,
      )

  -- The playbook of a blocked transaction that scores 70 or more.
  unfoldable pub respond : Inputs → String → Transaction fl → Service env → Service env
  unfolding respond_to_threat
  respond inp user txn s =
      if is_blocked_status txn.status && fl.le (fl.lit 70000) txn.risk_score
      then record s {
        threats = (respond_to_threat inp.now device_compromise user none s.threats).0;
      }
      else s

  -- `TransactionResult` at the end of the call.
  unfoldable pub result_of : Transaction fl → AuthDecision → TransactionResult fl
  unfolding tier_name
  result_of txn d = record {
    transaction_id = txn.id;
    status = txn.status;
    risk_level = txn.risk_level;
    risk_score = txn.risk_score;
    cooling_off_until = txn.cooling_off_until;
    step_up_required = d.is_blocked || d.require_otp || d.require_ack;
    required_tier = tier_name d.tier;
    require_biometric = d.require_biometric;
    require_otp = d.require_otp;
    require_manual_review = d.require_manual_review;
  }

  -- From the playbook to the end.
  unfoldable pub conclude :
      Inputs
      → String
      → String
      → Transaction fl
      → AuthDecision
      → Service env
      → Service env × Outcome env
  unfolding respond result_of append_audit push_notification set_idempotent
  conclude inp user cache_key txn d s0 =
      let s1 = respond inp user txn s0 in
      let s2 =
        append_audit env inp.now user "transaction_initiated" "transaction" (status_text txn.status)
          "AI" s1 in
      let res = result_of txn d in
      let s3 = record s2 {
        idempotency = set_idempotent env inp.now cache_key res s2.idempotency;
      } in
      let s4 =
        (if is_blocked_status txn.status
          then push_notification env inp.now user "security" "Transaction Blocked" s3
          else s3) in
      (s4, done res)

  -- The debit and what follows it.
  unfoldable pub settle :
      Inputs
      → String
      → String
      → Transaction fl
      → AuthDecision
      → Service env
      → Service env × Outcome env
  unfolding move_money conclude
  settle inp user cache_key txn d s =
      let (s', paid) = move_money env inp user txn s in
      if paid then conclude inp user cache_key txn d s' else (s', failed insufficient_funds)

  -- The part of `InitiateTransaction` from the risk assessment on.
  unfoldable pub initiate_assessed :
      Inputs
      → String
      → String
      → String
      → InitiateRequest fl
      → Service env
      → Service env × Outcome env
  unfolding assess_request next_id new_transaction record_transaction reject_transaction settle
  initiate_assessed inp user key cache_key req s0 =
      let (assessment, d) = assess_request env inp user req s0 in
      let (s1, id) = next_id env "txn" s0 in
      let txn = new_transaction env inp user key req id assessment d in
      let s2 = record_transaction env inp user txn s1 in
      let (chain, outcome) =
        write_event_strict env.host default_rules env.fabric inp.now user "transaction_initiated"
          "transaction" (env.transaction_json txn) s2.chain in
      let s3 = record s2 { chain = chain } in
      elim (write_error outcome) [
        | some e ↦ (reject_transaction env inp user e s3, failed e)
        | none ↦ settle inp user cache_key txn d s3
      ]

  -- The checks of the request, and the freeze.
  unfoldable pub initiate_checked :
      Inputs
      → String
      → String
      → String
      → InitiateRequest fl
      → Service env
      → Service env × Outcome env
  unfolding initiate_frozen initiate_assessed
  initiate_checked inp user key cache_key req s =
      if non_positive req.amount_paise
      then (s, failed amount_not_positive)
      else if str_eq (trim_space req.recipient) ""
      then (s, failed recipient_missing)
      else if s.freeze_state user
      then initiate_frozen inp user cache_key s
      else initiate_assessed inp user key cache_key req s

  -- A cached result that is not expired is returned; an expired one is dropped.
  unfoldable pub initiate_cached :
      Inputs
      → String
      → String
      → String
      → InitiateRequest fl
      → Option (Cached env)
      → Service env
      → Service env × Outcome env
  unfolding initiate_checked drop_key
  initiate_cached inp user key cache_key req none s = initiate_checked inp user key cache_key req s
  initiate_cached inp user key cache_key req (some c) s =
      if ltb inp.now c.expiry
      then (s, done c.result)
      else initiate_checked inp user key cache_key req
          (record s { idempotency = drop_key env cache_key s.idempotency })

  -- The key under which results are cached.
  abbrev pub cache_key_of : String → String → String
  cache_key_of user key = user +s (":" +s key)

  -- The rest of the call, with what `s.users` holds for the user.
  unfoldable pub initiate_user :
      Inputs
      → String
      → String
      → InitiateRequest fl
      → Option User
      → Service env
      → Service env × Outcome env
  unfolding initiate_cached find_cached
  initiate_user inp user key req none s = (s, failed user_not_found)
  initiate_user inp user key req (some _) s =
      if str_eq key ""
      then (s, failed key_missing)
      else initiate_cached inp user key (cache_key_of user key) req
          (find_cached env (cache_key_of user key) s.idempotency) s

  -- `InitiateTransaction`
  unfoldable pub initiate_transaction :
      Inputs → String → String → InitiateRequest fl → Service env → Service env × Outcome env
  unfolding initiate_user
  initiate_transaction inp user key req s = initiate_user inp user key req (s.users user) s
