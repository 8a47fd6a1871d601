-- ===== src/Transfers/Override.antt =====
-- `OverrideTransaction` of service.go.
use hybrid_quantum_banking_b.Base.{
  ℕ, String, str_eq, Bool, true, false, not, ◌||◌, List, [], ◌∷◌, Option, none, some, if◌then◌else◌,
}
use hybrid_quantum_banking_b.Base.Float.{Floats}
use hybrid_quantum_banking_b.Base.Int64.{le64}
use hybrid_quantum_banking_b.Base.Maps.{put}
use hybrid_quantum_banking_b.Base.Text.{trim_space}
use hybrid_quantum_banking_b.Accounts.{apply_debit}
use hybrid_quantum_banking_b.Otp.{OtpError, verify_otp_token}
use hybrid_quantum_banking_b.Transfers.State.{
  Env, Service, Transaction, TransactionResult, Status, success, blocked, warning_ack_required,
  User,
}
use hybrid_quantum_banking_b.Transfers.Recording.{log_event, append_audit}

-- `OverrideRequest`
pub record OverrideRequest : Type 0 where
  pub transaction_id : String
  pub biometric_ok : Bool
  pub otp : String

pub data OverrideError : Type 0 where
  id_missing factors_missing not_pending not_found insufficient_funds : OverrideError
  otp_refused : OtpError → OverrideError

abbrev pub is_pending : Status → Bool
is_pending blocked = true
is_pending warning_ack_required = true
is_pending _ = false

module _ (fl : Floats) where
  -- The first transaction of the id.
  unfoldable pub find_transaction : String → List (Transaction fl) → Option (Transaction fl)
  find_transaction id [] = none
  find_transaction id (tx ∷ txs) = if str_eq tx.id id then some tx else find_transaction id txs

  -- A write through the pointer to that transaction.
  unfoldable pub update_transaction :
      (Transaction fl → Transaction fl) → String → List (Transaction fl) → List (Transaction fl)
  update_transaction f id [] = []
  update_transaction f id (tx ∷ txs) =
      let rest = update_transaction f id txs in if str_eq tx.id id then f tx ∷ txs else tx ∷ rest

abbrev pub set_status : {fl : Floats} → Status → Transaction fl → Transaction fl
set_status st tx = record tx { status = st }

abbrev pub is_known : Option User → Bool
is_known none = false
is_known (some _) = true

module _ (env : Env) where
  open env use {fl}

  pub data OverrideOutcome : Type 0 where
    overridden : TransactionResult fl → OverrideOutcome
    override_failed : OverrideError → OverrideOutcome

  -- `VerifyOTPToken` on the service, with its audit entry.
  unfoldable pub check_otp : ℕ → String → String → Service env → Service env × Option OtpError
  unfolding verify_otp_token append_audit
  check_otp now user otp s =
      let (otp_state, e) = verify_otp_token now (is_known (s.users user)) user otp s.otp in
      let s' = record s { otp = otp_state } in
      elim e [
        | some err ↦ (s', some err)
        | none ↦ (append_audit env now user "otp_verified" "auth" "success" "System" s', none)
      ]

  -- 1,00,000 rupees or more.
  abbrev pub wants_review : Transaction fl → Bool
  wants_review tx = le64 10000000 tx.amount_paise

  -- The events of a completed override.
  unfoldable pub record_override : ℕ → String → Transaction fl → Service env → Service env
  unfolding append_audit log_event
  record_override now user tx s0 =
      let s1 = record s0 {
        beneficiaries =
            put s0.beneficiaries user
              (put (s0.beneficiaries user) (env.to_lower tx.recipient) true);
      } in
      let s2 = append_audit env now user "transaction_override" "transaction" "success" "User" s1 in
      let s3 =
        log_event env now user "transaction_override" "transaction" (env.transaction_json tx) s2 in
      if wants_review tx
      then log_event env now user "manual_review_queued" "audit" (env.text_json (tx.id ∷ []))
          (append_audit env now user "manual_review_queued" "transaction" "flagged" "System" s3)
      else s3

  -- The override of the transaction that was found: its status is set before the debit.
  unfoldable pub override_found :
      ℕ → String → Transaction fl → Service env → Service env × OverrideOutcome
  unfolding record_override update_transaction
  override_found now user tx0 s0 =
      if not (is_pending tx0.status)
      then (s0, override_failed not_pending)
      else let tx = set_status success tx0 in
        let s1 = record s0 {
          transactions =
              put s0.transactions user
                (update_transaction fl (set_status success) tx.id (s0.transactions user));
        } in
        elim (apply_debit tx.amount_paise (s1.accounts user)) [
          | none ↦ (s1, override_failed insufficient_funds)
          | some accounts ↦ (
            record_override now user tx (record s1 { accounts = put s1.accounts user accounts }),
            overridden (record {
              transaction_id = tx.id;
              status = tx.status;
              risk_level = tx.risk_level;
              risk_score = tx.risk_score;
              cooling_off_until = none;
              step_up_required = false;
              required_tier = "";
              require_biometric = false;
              require_otp = false;
              require_manual_review = wants_review tx;
            }),
          )
        ]

  -- The override with what the search found.
  unfoldable pub override_search :
      ℕ → String → Option (Transaction fl) → Service env → Service env × OverrideOutcome
  unfolding override_found
  override_search now user none s = (s, override_failed not_found)
  override_search now user (some tx) s = override_found now user tx s

  -- The part of `OverrideTransaction` under the service lock.
  unfoldable pub override_locked : ℕ → String → String → Service env → Service env × OverrideOutcome
  unfolding override_search find_transaction
  override_locked now user id s =
      override_search now user (find_transaction fl id (s.transactions user)) s

  -- The rest of the call, with what the check of the password said.
  unfoldable pub override_checked :
      ℕ → String → String → Option OtpError → Service env → Service env × OverrideOutcome
  unfolding override_locked
  override_checked now user id (some err) s = (s, override_failed (otp_refused err))
  override_checked now user id none s = override_locked now user id s

  -- `OverrideTransaction`
  unfoldable pub override_transaction :
      ℕ → String → OverrideRequest → Service env → Service env × OverrideOutcome
  unfolding override_checked check_otp
  override_transaction now user req s =
      if str_eq (trim_space req.transaction_id) ""
      then (s, override_failed id_missing)
      else if not req.biometric_ok || str_eq (trim_space req.otp) ""
      then (s, override_failed factors_missing)
      else let (s', e) = check_otp now user req.otp s in
        override_checked now user req.transaction_id e s'
