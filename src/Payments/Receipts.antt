-- ===== src/Payments/Receipts.antt =====
-- Verified receipts (service_payment.go, `VerifyPaymentReceipt`).
use hybrid_quantum_banking_b.Base.{
  ℕ, ◌≡◌, refl, ap, ◌∙◌, String, eq_refl, true, false, inl, Option, some, List, [], ◌∷◌, arith,
}
use hybrid_quantum_banking_b.Base.Text.{first_non_empty}
use hybrid_quantum_banking_b.Transfers.State.{Env}
use hybrid_quantum_banking_b.Transfers.Recording.{next_id, append_audit, log_event}
use hybrid_quantum_banking_b.Payments.{
  Payment, PaymentService, ReceiptRequest, already_verified, verify_payment_receipt,
  verify_receipt_found, complete_payment, update_payment, find_payment, is_verified, knows,
  completed,
}

module _ (env : Env) where
  open env use {fl}

  -- The payment has that id, and the user is known.
  pub record HasPayment (user id : String) (s : PaymentService env) (p : Payment fl) : Type 0 where
    pub known : knows env (s.core.users user) ≡ true
    pub found : find_payment env id (s.payments user) ≡ some p
    pub unverified : is_verified env p.receipt ≡ false

  find_payment-update :
      (f : Payment fl → Payment fl) (id : String) (ps : List (Payment fl)) (p : Payment fl)
      → ((q : Payment fl) → (f q).id ≡ q.id)
      → find_payment env id ps ≡ some p
      → find_payment env id (update_payment env f id ps) ≡ some (f p)
  unfolding find_payment update_payment
  find_payment-update f id [] p k h = absurd (ground (arith, h))
  find_payment-update f id (q ∷ ps) p k h = ground (arith, find_payment-update f id ps p k, k q)

  receipt_found :
      (json : Payment fl → Option String) (now : ℕ) (user id : String) (req : ReceiptRequest)
      (s : PaymentService env) (p : Payment fl)
      → knows env (s.core.users user) ≡ true
      → find_payment env id (s.payments user) ≡ some p
      → verify_payment_receipt env json now user id req s
        ≡ verify_receipt_found env json now user id req (some p) s
  unfolding verify_payment_receipt
  receipt_found json now user id req s p k f =
      rw k (ap (λ o. verify_receipt_found env json now user id req o s) f)

  receipt_completes :
      (json : Payment fl → Option String) (now : ℕ) (user id : String) (req : ReceiptRequest)
      (s : PaymentService env) (p : Payment fl)
      → is_verified env p.receipt ≡ false
      → let r = verify_receipt_found env json now user id req (some p) s in
        (r.0.payments user ≡ update_payment env (complete_payment env now req) id (s.payments user))
        × (r.0.core.users ≡ s.core.users)
  unfolding verify_receipt_found append_audit next_id log_event
  receipt_completes json now user id req s p v = rw v (rw (eq_refl user) refl, refl)

  receipt_repeated :
      (json : Payment fl → Option String) (now : ℕ) (user id : String) (req : ReceiptRequest)
      (s : PaymentService env) (p : Payment fl)
      → is_verified env p.receipt ≡ true
      → verify_receipt_found env json now user id req (some p) s ≡ (s, inl already_verified)
  unfolding verify_receipt_found
  receipt_repeated json now user id req s p v = rw v refl

  -- The payment `p'` is `p`, completed at `now` with the receipt of the request.
  pub record IsCompleted (now : ℕ) (req : ReceiptRequest) (p p' : Payment fl) : Type 0 where
    pub status : p'.status ≡ completed
    pub completed_at : p'.completed_at ≡ some now
    pub receipt :
        p'.receipt
        ≡ some (record {
          verified = true;
          verified_at = now;
          verified_by = req.verified_by;
          verifier_type = first_non_empty req.verifier_type "user";
          receipt_hash = req.receipt_hash;
        })
    pub same_payment : (p'.id ≡ p.id) × (p'.user_id ≡ p.user_id)
    pub same_terms :
        (p'.amount_paise ≡ p.amount_paise)
        × (p'.currency ≡ p.currency)
        × (p'.beneficiary_account ≡ p.beneficiary_account)

  complete_payment-IsCompleted :
      (now : ℕ) (req : ReceiptRequest) (p : Payment fl)
      → IsCompleted now req p (complete_payment env now req p)
  unfolding complete_payment
  complete_payment-IsCompleted now req p = record {
    status = refl;
    completed_at = refl;
    receipt = refl;
    same_payment = (refl, refl);
    same_terms = (refl, refl, refl);
  }

  -- Verifying the receipt of a known user's payment that is not verified yet: the payment found
  -- under the id is then of status completed, with the time of the call and the receipt of the
  -- request, and of the same id, amount, currency and beneficiary; and every later verification of
  -- it is refused and changes nothing.
  pub receipt_verified_once :
      (json : Payment fl → Option String) (now later : ℕ) (user id : String)
      (req again : ReceiptRequest) (s : PaymentService env) (p : Payment fl)
      → HasPayment user id s p
      → let s' = (verify_payment_receipt env json now user id req s).0 in
        ((p' : Payment fl) × (find_payment env id (s'.payments user) ≡ some p')
          × IsCompleted now req p p')
        × (verify_payment_receipt env json later user id again s' ≡ (s', inl already_verified))
  unfolding complete_payment
  receipt_verified_once json now later user id req again s p h =
      let s' = (verify_payment_receipt env json now user id req s).0 in
      let p' = complete_payment env now req p in
      let e = receipt_found json now user id req s p h.known h.found in
      let c = receipt_completes json now user id req s p h.unverified in
      let f : find_payment env id (s'.payments user) ≡ some p' =
        ap (λ z. find_payment env id (z.0.payments user)) e
        ∙ ap (find_payment env id) c.0
        ∙ find_payment-update (complete_payment env now req) id (s.payments user) p (λ q. refl)
            h.found in
      (
        (p', f, complete_payment-IsCompleted now req p),
        receipt_found json later user id again s' p'
              (ap (λ z. knows env (z.0.core.users user)) e
                ∙ ap (λ m. knows env (m user)) c.1
                ∙ h.known)
              f
            ∙ receipt_repeated json later user id again s' p' refl,
      )
