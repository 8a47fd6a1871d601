-- ===== src/Payments/Writes.antt =====
-- What payments write and what they leave alone (service_payment.go, `InitiatePayment`).
use hybrid_quantum_banking_b.Base.{
  ℕ, ◌≡◌, ◌≢◌, ◌⊎◌, refl, sym, ap, ◌∙◌, String, str_eq, inl, inr, Option, none, some, List, [], ◌∷◌,
  ◌++◌, ◌&&◌, arith, Bool-cases,
}
use hybrid_quantum_banking_b.Base.Int64.{non_positive}
use hybrid_quantum_banking_b.Base.Text.{trim_space}
use hybrid_quantum_banking_b.Base.Maps.{put}
use hybrid_quantum_banking_b.Blockchain.Events.{
  Event, Host, default_rules, cooling_off_rule, consent_revocation_rule, double_spend_rule,
}
use hybrid_quantum_banking_b.Blockchain.Writes.{
  WriteResult, Backend, backend_result, category_for, write_event_strict,
}
use hybrid_quantum_banking_b.Transfers.State.{Env, Service}
use hybrid_quantum_banking_b.Transfers.Recording.{next_id, append_audit, log_event}
use hybrid_quantum_banking_b.Transfers.Steps.{TransferError, contract_violation, write_error}
use hybrid_quantum_banking_b.Payments.{
  new_payment, payment_score, gnn_score, amount_not_positive, beneficiary_missing,
  insufficient_balance, Payment, PaymentError, PaymentRequest, PaymentService, ReceiptRequest, Bank,
  user_not_found, not_written, initiate_payment, verify_payment_receipt, verify_receipt_found,
  find_payment, record_payment, end_payment, refuse_payment, bank_checks, knows,
}

network_write : (o : Option Event) → write_error (backend_result o) ≢ some contract_violation
network_write none h = cc
network_write (some _) h = cc

payment_write :
    (host : Host) (fb : Option Backend) (now : ℕ) (user : String) (o : Option String)
    (es : List Event)
    → write_error
        (write_event_strict host default_rules fb now user "payment_initiated" "payment" o es).1
      ≢ some contract_violation
unfolding write_event_strict default_rules cooling_off_rule consent_revocation_rule
    double_spend_rule
payment_write host (some fb) now user o es h =
    network_write (fb (category_for "payment") user "payment_initiated" o) h
payment_write host none now user none es h = cc
payment_write host none now user (some p) es h = cc

inl_inj : {A B : Type 0} {a b : A} → Path (A ⊎ B) (inl a) (inl b) → a ≡ b
inl_inj h = cc

module _ (env : Env) where
  open env use {fl}

  end_payment-core :
      (now : ℕ) (user : String) (p : Payment fl) (e : Option TransferError) (s : PaymentService env)
      → let r = end_payment env now user p e s in
        (r.0.core.accounts ≡ s.core.accounts) × (r.0.core.book ≡ s.core.book)
  unfolding end_payment refuse_payment append_audit next_id log_event
  end_payment-core now user p none s = (refl, refl)
  end_payment-core now user p (some e) s = ground arith

  -- The strict write of a payment, and the state in which its outcome is looked at.
  abbrev pub payment_strict :
      (Payment fl → Option String)
      → ℕ
      → String
      → Payment fl
      → PaymentService env
      → List Event × WriteResult
  payment_strict json now user p s =
      write_event_strict env.host default_rules env.fabric now user "payment_initiated" "payment"
        (json p)
        (append_audit env now user "payment_initiated" "payment" "initiated" "User" s.core).chain

  abbrev pub payment_logged :
      (Payment fl → Option String)
      → ℕ
      → String
      → Payment fl
      → PaymentService env
      → PaymentService env
  payment_logged json now user p s = record s {
    core =
        record (append_audit env now user "payment_initiated" "payment" "initiated" "User" s.core) {
          chain = (payment_strict json now user p s).0;
        };
    payments = put s.payments user (s.payments user ++ p ∷ []);
  }

  record_payment-core :
      (json : Payment fl → Option String) (now : ℕ) (user : String) (p : Payment fl)
      (s : PaymentService env)
      → let r = record_payment env json now user p s in
        (r.0.core.accounts ≡ s.core.accounts) × (r.0.core.book ≡ s.core.book)
  unfolding record_payment append_audit next_id log_event
  record_payment-core json now user p s =
      end_payment-core now user p (write_error (payment_strict json now user p s).1)
        (payment_logged json now user p s)

  end_payment_error :
      (now : ℕ) (user : String) (p : Payment fl) (e : Option TransferError) (s : PaymentService env)
      → e ≢ some contract_violation
      → (end_payment env now user p e s).1 ≢ inl (not_written contract_violation)
  unfolding end_payment
  end_payment_error now user p none s n h = cc
  end_payment_error now user p (some e) s n h = n (cc)

  record_payment_error :
      (json : Payment fl → Option String) (now : ℕ) (user : String) (p : Payment fl)
      (s : PaymentService env)
      → (record_payment env json now user p s).1 ≢ inl (not_written contract_violation)
  unfolding record_payment
  record_payment_error json now user p s =
      end_payment_error now user p (write_error (payment_strict json now user p s).1)
        (payment_logged json now user p s)
        (payment_write env.host env.fabric now user (json p)
          (append_audit env now user "payment_initiated" "payment" "initiated" "User" s.core).chain)

  -- How a payment begins: it is refused at once, or recorded.
  initiate_branches :
      (json : Payment fl → Option String) (bank : Option Bank) (now : ℕ) (user : String)
      (req : PaymentRequest) (s : PaymentService env)
      → let r = initiate_payment env json bank now user req s in
        ((e : PaymentError) × (r ≡ (s, inl e)) × (e ≢ not_written contract_violation))
        ⊎ ((p : Payment fl) × (core : Service env) × (r
              ≡ record_payment env json now user p (record s { core = core }))
            × (core.accounts ≡ s.core.accounts)
            × (core.book ≡ s.core.book))
  unfolding initiate_payment next_id
  initiate_branches json bank now user req s = elim (Bool-cases (knows env (s.core.users user))) [
    | inr k ↦ inl (user_not_found, rw k refl, λ h. cc)
    | inl k ↦ elim (Bool-cases (non_positive req.amount_paise)) [
      | inl a ↦ inl (amount_not_positive, rw (k, a) refl, λ h. cc)
      | inr a ↦
          elim (Bool-cases (
            str_eq (trim_space req.beneficiary_name) ""
            && str_eq (trim_space req.beneficiary_account) "")) [
              | inl b ↦ inl (beneficiary_missing, rw (k, a, b) refl, λ h. cc)
              | inr b ↦ elim (Bool-cases (bank_checks env bank req (s.core.accounts user)).1) [
                | inl c ↦ inl (insufficient_balance, rw (k, a, b, c) refl, λ h. cc)
                | inr c ↦ inr (
                  new_payment env now user (next_id env "pay" s.core).1 req (
                      payment_score env (bank_checks env bank req (s.core.accounts user)).0
                        (gnn_score env req.beneficiary_name s)),
                  (next_id env "pay" s.core).0,
                  rw (k, a, b, c) refl,
                  refl,
                  refl,
                )
              ]
            ]
    ]
  ]

  found-core :
      (json : Payment fl → Option String) (now : ℕ) (user id : String) (req : ReceiptRequest)
      (o : Option (Payment fl)) (s : PaymentService env)
      → let r = verify_receipt_found env json now user id req o s in
        (r.0.core.accounts ≡ s.core.accounts) × (r.0.core.book ≡ s.core.book)
  unfolding verify_receipt_found append_audit next_id log_event
  found-core json now user id req none s = (refl, refl)
  found-core json now user id req (some p) s = ground arith

  receipt-core :
      (json : Payment fl → Option String) (now : ℕ) (user id : String) (req : ReceiptRequest)
      (s : PaymentService env)
      → let r = verify_payment_receipt env json now user id req s in
        (r.0.core.accounts ≡ s.core.accounts) × (r.0.core.book ≡ s.core.book)
  unfolding verify_payment_receipt
  receipt-core json now user id req s = elim (Bool-cases (knows env (s.core.users user))) [
    | inl k ↦ rw k (found-core json now user id req (find_payment env id (s.payments user)) s)
    | inr k ↦ rw k (refl, refl)
  ]

  -- No call of `InitiatePayment` or `VerifyPaymentReceipt` changes an account or the book, not even
  -- the one that completes a payment.
  pub payments_move_no_money :
      (json : Payment fl → Option String) (bank : Option Bank) (now : ℕ) (user id : String)
      (req : PaymentRequest) (receipt : ReceiptRequest) (s : PaymentService env)
      → let a = (initiate_payment env json bank now user req s).0.core in
        let b = (verify_payment_receipt env json now user id receipt s).0.core in
        (a.accounts ≡ s.core.accounts)
        × (a.book ≡ s.core.book)
        × (b.accounts ≡ s.core.accounts)
        × (b.book ≡ s.core.book)
  payments_move_no_money json bank now user id req receipt s =
      let v = receipt-core json now user id receipt s in
      elim (initiate_branches json bank now user req s) [
        | inl r ↦ (ap (λ z. z.0.core.accounts) r.1, ap (λ z. z.0.core.book) r.1, v.0, v.1)
        | inr r ↦
            let t = record s { core = r.1 } in
            let c = record_payment-core json now user r.0 t in
            (
              ap (λ z. z.0.core.accounts) r.2 ∙ c.0 ∙ r.3,
              ap (λ z. z.0.core.book) r.2 ∙ c.1 ∙ r.4,
              v.0,
              v.1,
            )
      ]

  -- With the default rules the strict write never refuses a payment for a violation, whatever was
  -- written before: neither a repeated payload nor a cooling-off period stops one.
  pub payment_is_never_refused :
      (json : Payment fl → Option String) (bank : Option Bank) (now : ℕ) (user : String)
      (req : PaymentRequest) (s : PaymentService env)
      → (initiate_payment env json bank now user req s).1 ≢ inl (not_written contract_violation)
  payment_is_never_refused json bank now user req s h =
      elim (initiate_branches json bank now user req s) [
        | inl r ↦ r.2 (inl_inj (sym (ap (λ z. z.1) r.1) ∙ h))
        | inr r ↦
            record_payment_error json now user r.0 (record s { core = r.1 })
              (sym (ap (λ z. z.1) r.2) ∙ h)
      ]
