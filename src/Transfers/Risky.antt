-- ===== src/Transfers/Risky.antt =====
-- Transactions whose risk is high (service.go, `InitiateTransaction`; adaptive_auth.go,
-- `EvaluateAuthTier`).
use hybrid_quantum_banking_b.Base.Int64.{non_positive}
use hybrid_quantum_banking_b.Base.Text.{trim_space}
use hybrid_quantum_banking_b.Base.{
  ◌≡◌, ◌⊎◌, refl, inl, inr, String, str_eq, true, arith, Bool-cases, Option-cases, sym, eq_iff, ap,
  ◌∙◌,
}
use hybrid_quantum_banking_b.AdaptiveAuth.{AuthDecision, evaluate_auth_tier}
use hybrid_quantum_banking_b.RiskEngine.{level_text}
use hybrid_quantum_banking_b.Transfers.State.{
  Env, Inputs, Service, Transaction, TransactionResult, InitiateRequest, blocked,
}
use hybrid_quantum_banking_b.Transfers.Signals.{signal_of}
use hybrid_quantum_banking_b.Transfers.Steps.{
  Outcome, done, failed, assess_request, status_of, new_transaction, write_error, is_success_status,
  move_money, amount_not_positive, recipient_missing,
}
use hybrid_quantum_banking_b.Transfers.Initiate.{
  initiate_transaction, initiate_checked, initiate_frozen, initiate_assessed, cache_key_of, settle,
  result_of,
}
use hybrid_quantum_banking_b.Transfers.Effects.{conclude_lem, move_money_free, settle_paid}
use hybrid_quantum_banking_b.Transfers.Assessed.{
  request_txn, logged_at, strict_write, assessed_refused, assessed_accepted,
}
use hybrid_quantum_banking_b.Transfers.Outcomes.{
  IsFresh, fresh_lem, done_inj, result-Debits, failure_takes_no_money,
}

module _ (env : Env) where
  open env use {fl}

  -- The risk engine finds the request at level `high`, or scores it 70 or more.
  abbrev pub IsRisky : Inputs → String → InitiateRequest fl → Service env → Type 0
  IsRisky inp user req s =
      let a = env.evaluate (signal_of env inp user req s) in
      (level_text a.level ≡ "high") ⊎ (fl.le (fl.lit 70000) a.score ≡ true)

  risky-blocked :
      (inp : Inputs) (user : String) (req : InitiateRequest fl) (s : Service env)
      → IsRisky inp user req s
      → (assess_request env inp user req s).1.is_blocked ≡ true
  unfolding assess_request evaluate_auth_tier
  risky-blocked inp user req s h =
      let a = env.evaluate (signal_of env inp user req s) in
      ground (arith, h, eq_iff (level_text a.level) "high")

  risky-status :
      (inp : Inputs) (user key : String) (req : InitiateRequest fl) (s : Service env)
      → IsRisky inp user req s
      → (request_txn env inp user key req s).status ≡ blocked
  unfolding new_transaction status_of
  risky-status inp user key req s h = rw (risky-blocked inp user req s h) refl

  settle_blocked :
      (inp : Inputs) (user cache_key : String) (txn : Transaction fl) (d : AuthDecision)
      (s : Service env) (res : TransactionResult fl)
      → txn.status ≡ blocked
      → (settle env inp user cache_key txn d s).1 ≡ done res
      → res.status ≡ blocked
  unfolding result_of
  settle_blocked inp user cache_key txn d s res b h =
      let m = move_money_free env inp user txn s (ap is_success_status b) in
      let p = settle_paid env inp user cache_key txn d s (ap (λ z. z.1) m) in
      let c = conclude_lem env inp user cache_key txn d (move_money env inp user txn s).0 in
      let same : result_of env txn d ≡ res = done_inj env (sym c.3 ∙ ap (λ z. z.1) (sym p) ∙ h) in
      ap (λ z. z.status) (sym same) ∙ b

  assessed_blocked :
      (inp : Inputs) (user key cache_key : String) (req : InitiateRequest fl) (s : Service env)
      (res : TransactionResult fl)
      → IsRisky inp user req s
      → (initiate_assessed env inp user key cache_key req s).1 ≡ done res
      → res.status ≡ blocked
  assessed_blocked inp user key cache_key req s res r h =
      elim (Option-cases (write_error (strict_write env inp user key req s).1)) [
        | inr (e, w) ↦
            absurd (ground (arith, h, assessed_refused env inp user key cache_key req s e w))
        | inl w ↦
            settle_blocked inp user cache_key (request_txn env inp user key req s)
              (assess_request env inp user req s).1 (logged_at env inp user key req s) res
              (risky-status inp user key req s r)
              (ap (λ z. z.1) (sym (assessed_accepted env inp user key cache_key req s w)) ∙ h)
      ]

  frozen_blocked :
      (inp : Inputs) (user cache_key : String) (s : Service env) (res : TransactionResult fl)
      → (initiate_frozen env inp user cache_key s).1 ≡ done res
      → res.status ≡ blocked
  unfolding initiate_frozen
  frozen_blocked inp user cache_key s res h = ap (λ z. z.status) (sym (done_inj env h))

  checked_blocked :
      (inp : Inputs) (user key cache_key : String) (req : InitiateRequest fl) (s : Service env)
      (res : TransactionResult fl)
      → IsRisky inp user req s
      → (initiate_checked env inp user key cache_key req s).1 ≡ done res
      → res.status ≡ blocked
  unfolding initiate_checked
  checked_blocked inp user key cache_key req s res r h =
      let call = initiate_checked env inp user key cache_key req s in
      elim (Bool-cases (non_positive req.amount_paise)) [
        | inl p ↦
            let e : call ≡ (s, failed amount_not_positive) = rw p refl in
            absurd (ground (arith, ap (λ z. z.1) (sym e) ∙ h))
        | inr p ↦ elim (Bool-cases (str_eq (trim_space req.recipient) "")) [
          | inl q ↦
              let e : call ≡ (s, failed recipient_missing) = rw (p, q) refl in
              absurd (ground (arith, ap (λ z. z.1) (sym e) ∙ h))
          | inr q ↦ elim (Bool-cases (s.freeze_state user)) [
            | inl f ↦
                let e : call ≡ initiate_frozen env inp user cache_key s = rw (p, q, f) refl in
                frozen_blocked inp user cache_key s res (ap (λ z. z.1) (sym e) ∙ h)
            | inr f ↦
                let e : call ≡ initiate_assessed env inp user key cache_key req s =
                  rw (p, q, f) refl in
                assessed_blocked inp user key cache_key req s res r (ap (λ z. z.1) (sym e) ∙ h)
          ]
        ]
      ]

  -- The call had no result but `blocked`.
  abbrev pub IsRefused : Outcome env → Type 0
  IsRefused (done res) = res.status ≡ blocked
  IsRefused (failed _) = Unit

  refused_lem :
      (inp : Inputs) (user key : String) (req : InitiateRequest fl) (s : Service env)
      (o : Outcome env)
      → IsFresh env user key s
      → IsRisky inp user req s
      → (initiate_transaction env inp user key req s).1 ≡ o
      → IsRefused o × ((initiate_transaction env inp user key req s).0.accounts ≡ s.accounts)
  refused_lem inp user key req s (failed e) f r h =
      (tt, failure_takes_no_money env inp user key req s e h)
  refused_lem inp user key req s (done res) f r h =
      let b =
        checked_blocked inp user key (cache_key_of env user key) req s res r
          (ap (λ z. z.1) (sym (fresh_lem env inp user key req s f)) ∙ h) in
      let d = result-Debits env inp user key req s res f h in (b, ground (arith, b, d))

  -- For a known user and a fresh idempotency key: where the risk engine finds the request at level
  -- `high` or scores it 70 or more, `InitiateTransaction` changes no account of anybody, whatever
  -- the session of the request is like; the call fails, or its result has the status `blocked`.
  pub high_risk_is_not_paid :
      (inp : Inputs) (user key : String) (req : InitiateRequest fl) (s : Service env)
      → IsFresh env user key s
      → IsRisky inp user req s
      → let r = initiate_transaction env inp user key req s in
        IsRefused r.1 × (r.0.accounts ≡ s.accounts)
  high_risk_is_not_paid inp user key req s f r =
      refused_lem inp user key req s (initiate_transaction env inp user key req s).1 f r refl
