-- ===== src/Transfers/Failures.antt =====
-- A transaction whose debit is refused (service.go, `InitiateTransaction`).
use hybrid_quantum_banking_b.Base.{
  ◌≡◌, ◌≢◌, ◌⊎◌, inl, inr, refl, sym, ap, ◌∙◌, String, str_eq, true, false, some, [], ◌∷◌, ◌++◌,
  arith, Bool-cases, Option-cases,
}
use hybrid_quantum_banking_b.Base.Int64.{non_positive}
use hybrid_quantum_banking_b.Base.Maps.{put_self}
use hybrid_quantum_banking_b.Base.Text.{trim_space}
use hybrid_quantum_banking_b.AdaptiveAuth.{AuthDecision}
use hybrid_quantum_banking_b.Transfers.State.{
  Env, Inputs, Service, Transaction, InitiateRequest, Status, success, blocked,
  warning_ack_required, other_status,
}
use hybrid_quantum_banking_b.Transfers.Recording.{append_transaction, next_id}
use hybrid_quantum_banking_b.Blockchain.Writes.{
  WriteResult, written, violation, marshal_failed, backend_failed,
}
use hybrid_quantum_banking_b.Transfers.Steps.{
  TransferError, insufficient_funds, failed, record_transaction, enqueue_decision, post_entry,
  move_money, is_success_status, new_transaction, assess_request, write_error,
}
use hybrid_quantum_banking_b.Transfers.Initiate.{
  initiate_transaction, initiate_checked, initiate_assessed, initiate_frozen, settle, cache_key_of,
}
use hybrid_quantum_banking_b.Transfers.Effects.{
  settle_unpaid, settle_paid, move_money_free, conclude_lem,
}
use hybrid_quantum_banking_b.Transfers.Assessed.{
  request_txn, recorded_at, logged_at, strict_write, assessed_refused, assessed_accepted,
}
use hybrid_quantum_banking_b.Transfers.Outcomes.{IsFresh, fresh_lem, failure_takes_no_money}

is_success_lem : (st : Status) → is_success_status st ≡ true → st ≡ success
is_success_lem success h = refl
is_success_lem blocked h = absurd (ground (arith, h))
is_success_lem warning_ack_required h = absurd (ground (arith, h))
is_success_lem (other_status t) h = absurd (ground (arith, h))

write_error_lem : (w : WriteResult) → write_error w ≢ some insufficient_funds
write_error_lem (written _) h = cc
write_error_lem (violation _ _) h = cc
write_error_lem marshal_failed h = cc
write_error_lem backend_failed h = cc

module _ (env : Env) where
  open env use {fl}

  recorded_lem :
      (inp : Inputs) (user : String) (txn : Transaction fl) (s : Service env)
      → (record_transaction env inp user txn s).transactions user ≡ s.transactions user ++ txn ∷ []
  unfolding record_transaction enqueue_decision append_transaction
  recorded_lem inp user txn s =
      ground (arith, put_self s.transactions user (s.transactions user ++ txn ∷ []))

  recorded_at-transactions :
      (inp : Inputs) (user key : String) (req : InitiateRequest fl) (s : Service env)
      → (recorded_at env inp user key req s).transactions user
        ≡ s.transactions user ++ request_txn env inp user key req s ∷ []
  unfolding next_id
  recorded_at-transactions inp user key req s =
      recorded_lem inp user (request_txn env inp user key req s) (next_id env "txn" s).0

  post_entry-transactions :
      (inp : Inputs) (user : String) (txn : Transaction fl) (s : Service env)
      → (post_entry env inp user txn s).transactions ≡ s.transactions
  unfolding post_entry
  post_entry-transactions inp user txn s = ground arith

  move_money-transactions :
      (inp : Inputs) (user : String) (txn : Transaction fl) (s : Service env)
      → (move_money env inp user txn s).0.transactions ≡ s.transactions
  unfolding move_money
  move_money-transactions inp user txn s = ground (arith, post_entry-transactions inp user txn s)

  move_money_pays :
      (inp : Inputs) (user : String) (txn : Transaction fl) (s : Service env)
      → is_success_status txn.status ≡ false
      → (move_money env inp user txn s).1 ≡ true
  move_money_pays inp user txn s h = ground (arith, move_money_free env inp user txn s h)

  settle_failed :
      (inp : Inputs) (user cache_key : String) (txn : Transaction fl) (d : AuthDecision)
      (s : Service env) (x : TransferError)
      → (settle env inp user cache_key txn d s).1 ≡ failed x
      → (is_success_status txn.status ≡ true)
        × ((settle env inp user cache_key txn d s).0.transactions ≡ s.transactions)
  settle_failed inp user cache_key txn d s x h =
      elim (Bool-cases (move_money env inp user txn s).1) [
        | inl p ↦ absurd (
            ground (
              arith,
              h,
              settle_paid env inp user cache_key txn d s p,
              conclude_lem env inp user cache_key txn d (move_money env inp user txn s).0,
            ))
        | inr p ↦ (
          elim (Bool-cases (is_success_status txn.status)) [
            | inl t ↦ t
            | inr t ↦ absurd (ground (arith, p, move_money_pays inp user txn s t))
          ],
          ground (
            arith,
            settle_unpaid env inp user cache_key txn d s p,
            move_money-transactions inp user txn s,
          ),
        )
      ]

  assessed_unpaid :
      (inp : Inputs) (user key cache_key : String) (req : InitiateRequest fl) (s : Service env)
      → (initiate_assessed env inp user key cache_key req s).1 ≡ failed insufficient_funds
      → (is_success_status (request_txn env inp user key req s).status ≡ true)
        × ((initiate_assessed env inp user key cache_key req s).0.transactions
            ≡ (recorded_at env inp user key req s).transactions)
  assessed_unpaid inp user key cache_key req s h =
      elim (Option-cases (write_error (strict_write env inp user key req s).1)) [
        | inr (e, w) ↦ absurd (
            write_error_lem (strict_write env inp user key req s).1
              (ground (arith, w, h, assessed_refused env inp user key cache_key req s e w)))
        | inl w ↦
            let p = assessed_accepted env inp user key cache_key req s w in
            let f =
              settle_failed inp user cache_key (request_txn env inp user key req s)
                (assess_request env inp user req s).1 (logged_at env inp user key req s)
                insufficient_funds (ap (λ z. z.1) (sym p) ∙ h) in
            (f.0, ap (λ z. z.0.transactions) p ∙ f.1)
      ]

  checked_branches :
      (inp : Inputs) (user key cache_key : String) (req : InitiateRequest fl) (s : Service env)
      → let r = initiate_checked env inp user key cache_key req s in
        (r ≡ initiate_assessed env inp user key cache_key req s) ⊎ (r.1 ≢ failed insufficient_funds)
  unfolding initiate_checked initiate_frozen
  checked_branches inp user key cache_key req s =
      elim (Bool-cases (non_positive req.amount_paise)) [
        | inl p ↦ inr (rw p (λ h. cc))
        | inr p ↦ elim (Bool-cases (str_eq (trim_space req.recipient) "")) [
          | inl q ↦ inr (rw (p, q) (λ h. cc))
          | inr q ↦ elim (Bool-cases (s.freeze_state user)) [
            | inl f ↦ inr (rw (p, q, f) (λ h. cc))
            | inr f ↦ inl (rw (p, q, f) refl)
          ]
        ]
      ]

  checked_unpaid :
      (inp : Inputs) (user key cache_key : String) (req : InitiateRequest fl) (s : Service env)
      → (initiate_checked env inp user key cache_key req s).1 ≡ failed insufficient_funds
      → initiate_checked env inp user key cache_key req s
        ≡ initiate_assessed env inp user key cache_key req s
  checked_unpaid inp user key cache_key req s h =
      elim (checked_branches inp user key cache_key req s) [ inl p ↦ p | inr n ↦ absurd (n h) ]

  -- Where a call under a fresh key fails for insufficient funds, no account has changed, but the
  -- user's history has a new transaction of the requested amount with the status `success`.
  pub refused_debit_stays_success :
      (inp : Inputs) (user key : String) (req : InitiateRequest fl) (s : Service env)
      → IsFresh env user key s
      → (initiate_transaction env inp user key req s).1 ≡ failed insufficient_funds
      → let s' = (initiate_transaction env inp user key req s).0 in
        (tx : Transaction fl) × (s'.transactions user ≡ s.transactions user ++ tx ∷ [])
        × (tx.status ≡ success)
        × (tx.amount_paise ≡ req.amount_paise)
        × (s'.accounts ≡ s.accounts)
  unfolding new_transaction
  refused_debit_stays_success inp user key req s f h =
      let p = fresh_lem env inp user key req s f in
      let q =
        checked_unpaid inp user key (cache_key_of env user key) req s (ap (λ z. z.1) (sym p) ∙ h) in
      let u =
        assessed_unpaid inp user key (cache_key_of env user key) req s
          (ap (λ z. z.1) (sym (p ∙ q)) ∙ h) in
      (
        request_txn env inp user key req s,
        ap (λ z. z.0.transactions user) (p ∙ q)
            ∙ ap (λ m. m user) u.1
            ∙ recorded_at-transactions inp user key req s,
        is_success_lem (request_txn env inp user key req s).status u.0,
        refl,
        failure_takes_no_money env inp user key req s insufficient_funds h,
      )
