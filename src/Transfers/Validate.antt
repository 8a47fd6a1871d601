-- ===== src/Transfers/Validate.antt =====
-- `ValidateRisk` of service.go: the verdict of the risk worker on a recorded transaction.
use hybrid_quantum_banking_b.Base.{
  ℕ, String, str_eq, Bool, true, false, not, ◌&&◌, ◌||◌, List, [], ◌∷◌, Option, none, some, ltb,
  if◌then◌else◌,
}
use hybrid_quantum_banking_b.Base.Maps.{put}
use hybrid_quantum_banking_b.RiskEngine.{RiskLevel, low, medium, high}
use hybrid_quantum_banking_b.Transfers.State.{
  Env, Service, Transaction, Status, success, blocked, warning_ack_required,
}
use hybrid_quantum_banking_b.Transfers.Recording.{log_event, append_audit}
use hybrid_quantum_banking_b.Transfers.Steps.{is_blocked_status, status_text}
use hybrid_quantum_banking_b.Transfers.Override.{find_transaction, update_transaction, is_pending}

-- `ValidationVerdict`, the fields that decide.
pub record Verdict : Type 0 where
  pub agrees_with_ml : Bool
  pub suggested_level : String
  pub recommended_action : String

-- `ValidateRiskResponse`
pub record Response : Type 0 where
  pub applied : Bool
  pub new_status : Status
  pub old_status : Status

pub data ValidateOutcome : Type 0 where
  validated : Response → ValidateOutcome
  unknown_transaction : ValidateOutcome
  window_expired : Status → ValidateOutcome

abbrev pub window_over : ℕ → Option ℕ → Bool
window_over now none = false
window_over now (some until) = ltb until now

-- The status that a verdict gives, if it changes anything.
unfoldable pub apply_verdict : Verdict → Status → Option Status
apply_verdict v st =
    if v.agrees_with_ml
    then (if str_eq v.suggested_level "critical" && not (is_blocked_status st)
        then some blocked
        else none)
    else if str_eq v.recommended_action "step_up" || str_eq v.recommended_action "cooling_off"
    then (if not (is_blocked_status st) then some warning_ack_required else none)
    else if str_eq v.recommended_action "block"
    then some blocked
    else if str_eq v.recommended_action "dismiss"
    then (if is_pending st then some success else none)
    else none

-- The risk level that a verdict gives.
unfoldable pub apply_level : Verdict → RiskLevel → RiskLevel
apply_level v level =
    if str_eq v.suggested_level "low"
    then low
    else if str_eq v.suggested_level "medium"
    then medium
    else if str_eq v.suggested_level "high"
    then high
    else level

abbrev pub status_or : Status → Option Status → Status
status_or st none = st
status_or st (some new) = new

abbrev pub is_some : Option Status → Bool
is_some none = false
is_some (some _) = true

module _ (env : Env) where
  open env use {fl}

  -- The write through the pointer to the transaction.
  unfoldable pub mark_transaction : Verdict → Transaction fl → Transaction fl
  unfolding apply_verdict apply_level
  mark_transaction v tx = record tx {
    status = status_or tx.status (apply_verdict v tx.status);
    risk_level = apply_level v tx.risk_level;
  }

  -- The search of all users' transactions, in the order in which the map is iterated: the key of
  -- the list that holds it, with the transaction.
  unfoldable pub find_owner : String → List String → Service env → Option (String × Transaction fl)
  unfolding find_transaction
  find_owner id [] s = none
  find_owner id (user ∷ users) s =
      let rest = find_owner id users s in
      elim (find_transaction fl id (s.transactions user)) [
        | some tx ↦ some (user, tx)
        | none ↦ rest
      ]

  -- The verdict on the transaction that was found.
  unfoldable pub validate_found :
      ℕ → Verdict → String → Transaction fl → Service env → Service env × ValidateOutcome
  unfolding mark_transaction update_transaction append_audit log_event
  validate_found now v owner tx s =
      if window_over now tx.cooling_off_until
      then (s, window_expired tx.status)
      else let new = status_or tx.status (apply_verdict v tx.status) in
        let s1 = record s {
          transactions =
              put s.transactions owner
                (update_transaction fl (mark_transaction v) tx.id (s.transactions owner));
        } in
        let s2 =
          append_audit env now tx.user_id "risk_validation" "transaction" "applied" "AI" s1 in
        (
          log_event env now tx.user_id "risk_validation" "transaction"
              (env.text_json (
                tx.id
                ∷ v.suggested_level
                ∷ v.recommended_action
                ∷ status_text tx.status
                ∷ status_text new
                ∷ []))
              s2,
          validated (record {
            applied = is_some (apply_verdict v tx.status);
            new_status = new;
            old_status = tx.status;
          }),
        )

  -- The rest of the call, with what the search found.
  unfoldable pub validate_search :
      ℕ → Verdict → Option (String × Transaction fl) → Service env → Service env × ValidateOutcome
  unfolding validate_found
  validate_search now v none s = (s, unknown_transaction)
  validate_search now v (some (owner, tx)) s = validate_found now v owner tx s

  -- `ValidateRisk`; `order` is the order in which the map of users is iterated.
  unfoldable pub validate_risk :
      ℕ → List String → String → Verdict → Service env → Service env × ValidateOutcome
  unfolding find_owner validate_search
  validate_risk now order id v s = validate_search now v (find_owner id order s) s
