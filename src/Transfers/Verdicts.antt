-- ===== src/Transfers/Verdicts.antt =====
-- What the verdict of the risk worker can do to a transaction (service.go, `ValidateRisk`).
use hybrid_quantum_banking_b.Base.{
  ℕ, ◌≡◌, refl, ap, ◌∙◌, String, eq_iff, false, Option, none, some, List, arith,
}
use hybrid_quantum_banking_b.Base.Maps.{put, put_self}
use hybrid_quantum_banking_b.Accounts.{Account, apply_debit}
use hybrid_quantum_banking_b.Transfers.State.{
  Env, Service, Transaction, success, blocked, warning_ack_required,
}
use hybrid_quantum_banking_b.Transfers.Recording.{append_audit, next_id, log_event}
use hybrid_quantum_banking_b.Transfers.Override.{
  find_transaction, update_transaction, override_locked, set_status,
}
use hybrid_quantum_banking_b.Transfers.Overrides.{
  find_transaction-update, found_paid, released, locked_found, record_override-transactions,
}
use hybrid_quantum_banking_b.Transfers.Validate.{
  Verdict, validate_risk, validate_search, find_owner, validate_found, apply_verdict,
  mark_transaction, window_over,
}

-- A verdict releases a blocked transaction only if it disagrees with the model and neither asks for
-- a block nor leaves the action open: it asks for `dismiss`.
pub released_by_dismissal :
    (v : Verdict)
    → apply_verdict v blocked ≡ some success
    → (v.agrees_with_ml ≡ false) × (v.recommended_action ≡ "dismiss")
unfolding apply_verdict
released_by_dismissal v h = ground (arith, eq_iff v.recommended_action "dismiss")

module _ (env : Env) where
  open env use {fl}

  found_moves :
      (now : ℕ) (v : Verdict) (owner : String) (tx : Transaction fl) (s : Service env)
      → let s' = (validate_found env now v owner tx s).0 in
        (s'.accounts ≡ s.accounts) × (s'.book ≡ s.book)
  unfolding validate_found append_audit next_id log_event
  found_moves now v owner tx s = ground arith

  search_moves :
      (now : ℕ) (v : Verdict) (o : Option (String × Transaction fl)) (s : Service env)
      → let s' = (validate_search env now v o s).0 in
        (s'.accounts ≡ s.accounts) × (s'.book ≡ s.book)
  unfolding validate_search
  search_moves now v none s = (refl, refl)
  search_moves now v (some (owner, tx)) s = found_moves now v owner tx s

  -- No verdict moves money or posts an entry, not even one that gives the transaction the status
  -- `success`.
  pub verdict_moves_no_money :
      (now : ℕ) (order : List String) (id : String) (v : Verdict) (s : Service env)
      → let s' = (validate_risk env now order id v s).0 in
        (s'.accounts ≡ s.accounts) × (s'.book ≡ s.book)
  unfolding validate_risk
  verdict_moves_no_money now order id v s = search_moves now v (find_owner env id order s) s

  found-transactions :
      (now : ℕ) (v : Verdict) (owner : String) (tx : Transaction fl) (s : Service env)
      → window_over now tx.cooling_off_until ≡ false
      → (validate_found env now v owner tx s).0.transactions
        ≡ put s.transactions owner
            (update_transaction fl (mark_transaction env v) tx.id (s.transactions owner))
  unfolding validate_found append_audit next_id log_event
  found-transactions now v owner tx s h = rw h refl

  step_up_marks :
      (v : Verdict) (tx : Transaction fl)
      → tx.status ≡ success
      → v.agrees_with_ml ≡ false
      → v.recommended_action ≡ "step_up"
      → (mark_transaction env v tx).status ≡ warning_ack_required
  unfolding mark_transaction apply_verdict
  step_up_marks v tx t a r = ground (arith, t, a, r, eq_iff v.recommended_action "step_up")

  -- A transaction of status `success`, whose money has been moved, on which the risk worker asks for
  -- a step-up: if the funds still cover it, the override that follows debits its amount once more.
  pub step_up_debits_again :
      (now later : ℕ) (v : Verdict) (user id : String) (tx : Transaction fl) (s : Service env)
      (after : List Account)
      → find_transaction fl id (s.transactions user) ≡ some tx
      → tx.status ≡ success
      → window_over now tx.cooling_off_until ≡ false
      → v.agrees_with_ml ≡ false
      → v.recommended_action ≡ "step_up"
      → apply_debit tx.amount_paise (s.accounts user) ≡ some after
      → let s' = (validate_found env now v user tx s).0 in
        (override_locked env later user id s').0.accounts ≡ put s.accounts user after
  unfolding mark_transaction
  step_up_debits_again now later v user id tx s after f t w a r d =
      let s' = (validate_found env now v user tx s).0 in
      let tx' = mark_transaction env v tx in
      let list = update_transaction fl (mark_transaction env v) tx.id (s.transactions user) in
      let kept : s'.transactions user ≡ list =
        ap (λ m. m user) (found-transactions now v user tx s w)
        ∙ put_self s.transactions user list in
      let again =
        find_transaction-update fl (mark_transaction env v) id (s.transactions user) tx (λ x. refl)
          f in
      let same = (found_moves now v user tx s).0 in
      let covered : apply_debit tx'.amount_paise (s'.accounts user) ≡ some after =
        ap (λ m. apply_debit tx.amount_paise (m user)) same ∙ d in
      ap (λ z. z.0.accounts)
        (locked_found env later user id s' tx' (ap (find_transaction fl id) kept ∙ again.0))
      ∙ ap (λ z. z.accounts)
          (found_paid env later user tx' s' after (ground (arith, step_up_marks v tx t a r))
            covered)
      ∙ (record_override-transactions env later user (set_status success tx')
          (record (released env user tx' s') { accounts = put s'.accounts user after })).1
      ∙ ap (λ m. put m user after) same
