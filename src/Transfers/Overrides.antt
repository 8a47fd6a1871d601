-- ===== src/Transfers/Overrides.antt =====
-- What an override after step-up needs and does (service.go, `OverrideTransaction`).
use hybrid_quantum_banking_b.Base.{
  ℕ, ◌≡◌, refl, sym, ap, subst, ◌∙◌, String, str_eq, eq_refl, eq_iff, true, false, Option, none,
  some, List, [], ◌∷◌, arith, Bool-cases, Option-cases, inl, inr,
}
use hybrid_quantum_banking_b.Base.Float.{Floats}
use hybrid_quantum_banking_b.Base.Maps.{put}
use hybrid_quantum_banking_b.Base.Text.{trim_space}
use hybrid_quantum_banking_b.Accounts.{Account, apply_debit}
use hybrid_quantum_banking_b.Otp.{OtpError, verify_otp_token}
use hybrid_quantum_banking_b.Transfers.State.{Env, Service, Transaction, TransactionResult, success}
use hybrid_quantum_banking_b.Transfers.Recording.{append_audit, next_id, log_event}
use hybrid_quantum_banking_b.Transfers.Override.{
  OverrideRequest, overridden, override_failed, not_pending, insufficient_funds, is_pending,
  find_transaction, update_transaction, set_status, check_otp, record_override, override_found,
  override_checked, is_known, override_search, override_locked, override_transaction,
}

module _ (fl : Floats) where
  -- Writing through the pointer of the first transaction of an id is seen by the next search.
  pub find_transaction-update :
      (f : Transaction fl → Transaction fl) (id : String) (txs : List (Transaction fl))
      (tx : Transaction fl)
      → ((t : Transaction fl) → (f t).id ≡ t.id)
      → find_transaction fl id txs ≡ some tx
      → (find_transaction fl id (update_transaction fl f tx.id txs) ≡ some (f tx)) × (tx.id ≡ id)
  unfolding find_transaction update_transaction
  find_transaction-update f id [] tx k h = absurd (ground (arith, h))
  find_transaction-update f id (t ∷ txs) tx k h = ground (
    arith,
    find_transaction-update f id txs tx k,
    k t,
    eq_iff t.id id,
    eq_iff t.id tx.id,
    eq_refl t.id,
  )

module _ (env : Env) where
  open env use {fl}

  pub record_override-transactions :
      (now : ℕ) (user : String) (tx : Transaction fl) (s : Service env)
      → ((record_override env now user tx s).transactions ≡ s.transactions)
        × ((record_override env now user tx s).accounts ≡ s.accounts)
  unfolding record_override append_audit next_id log_event
  record_override-transactions now user tx s = ground arith

  -- The state after the status was set, in which the debit is made.
  abbrev pub released : String → Transaction fl → Service env → Service env
  released user tx s = record s {
    transactions =
        put s.transactions user
          (update_transaction fl (set_status success) tx.id (s.transactions user));
  }

  found_unpaid :
      (now : ℕ) (user : String) (tx : Transaction fl) (s : Service env)
      → is_pending tx.status ≡ true
      → apply_debit tx.amount_paise (s.accounts user) ≡ none
      → override_found env now user tx s ≡ (released user tx s, override_failed insufficient_funds)
  unfolding override_found
  found_unpaid now user tx s h d = rw (h, d) refl

  pub found_paid :
      (now : ℕ) (user : String) (tx : Transaction fl) (s : Service env) (after : List Account)
      → is_pending tx.status ≡ true
      → apply_debit tx.amount_paise (s.accounts user) ≡ some after
      → (override_found env now user tx s).0
        ≡ record_override env now user
            (set_status success tx)
            (record (released user tx s) { accounts = put s.accounts user after })
  unfolding override_found
  found_paid now user tx s after h d = rw (h, d) refl

  pub found-transactions :
      (now : ℕ) (user : String) (tx : Transaction fl) (s : Service env)
      → is_pending tx.status ≡ true
      → (override_found env now user tx s).0.transactions ≡ (released user tx s).transactions
  found-transactions now user tx s h =
      elim (Option-cases (apply_debit tx.amount_paise (s.accounts user))) [
        | inl d ↦ ap (λ z. z.0.transactions) (found_unpaid now user tx s h d)
        | inr (after, d) ↦
            ap (λ z. z.transactions) (found_paid now user tx s after h d)
            ∙ (record_override-transactions now user (set_status success tx)
                (record (released user tx s) { accounts = put s.accounts user after })).0
      ]

  pub locked_found :
      (now : ℕ) (user id : String) (s : Service env) (tx : Transaction fl)
      → find_transaction fl id (s.transactions user) ≡ some tx
      → override_locked env now user id s ≡ override_found env now user tx s
  unfolding override_locked override_search
  locked_found now user id s tx h = ap (λ o. override_search env now user o s) h

  pub found_settled :
      (now : ℕ) (user : String) (s : Service env) (tx : Transaction fl)
      → is_pending tx.status ≡ false
      → override_found env now user tx s ≡ (s, override_failed not_pending)
  unfolding override_found
  found_settled now user s tx h = rw h refl

  -- What a completed override has taken from the accounts.
  pub record IsReleased (user id : String) (s s' : Service env) : Type 0 where
    pub tx : Transaction fl
    pub found : find_transaction fl id (s.transactions user) ≡ some tx
    pub pending : is_pending tx.status ≡ true
    pub after : List Account
    pub covered : apply_debit tx.amount_paise (s.accounts user) ≡ some after
    pub debited : s'.accounts ≡ put s.accounts user after

  found-IsReleased :
      (now : ℕ) (user id : String) (tx : Transaction fl) (s : Service env)
      (res : TransactionResult fl) (o : Option (List Account))
      → find_transaction fl id (s.transactions user) ≡ some tx
      → apply_debit tx.amount_paise (s.accounts user) ≡ o
      → (override_found env now user tx s).1 ≡ overridden res
      → IsReleased user id s (override_found env now user tx s).0
  found-IsReleased now user id tx s res o f d h = elim (Bool-cases (is_pending tx.status)) [
    | inr p ↦ absurd (ground (arith, h, found_settled now user s tx p))
    | inl p ↦ elim (Option-cases (apply_debit tx.amount_paise (s.accounts user))) [
      | inl n ↦ absurd (ground (arith, h, found_unpaid now user tx s p n))
      | inr (after, a) ↦ record {
        tx = tx;
        found = f;
        pending = p;
        after = after;
        covered = a;
        debited =
            ap (λ z. z.accounts) (found_paid now user tx s after p a)
            ∙ (record_override-transactions now user (set_status success tx)
                (record (released user tx s) { accounts = put s.accounts user after })).1;
      }
    ]
  ]

  search-IsReleased :
      (now : ℕ) (user id : String) (s : Service env) (res : TransactionResult fl)
      (o : Option (Transaction fl))
      → find_transaction fl id (s.transactions user) ≡ o
      → (override_search env now user o s).1 ≡ overridden res
      → IsReleased user id s (override_search env now user o s).0
  unfolding override_search
  search-IsReleased now user id s res none f h = absurd (ground (arith, h))
  search-IsReleased now user id s res (some tx) f h =
      found-IsReleased now user id tx s res (apply_debit tx.amount_paise (s.accounts user)) f refl h

  locked-IsReleased :
      (now : ℕ) (user id : String) (s : Service env) (res : TransactionResult fl)
      → (override_locked env now user id s).1 ≡ overridden res
      → IsReleased user id s (override_locked env now user id s).0
  unfolding override_locked
  locked-IsReleased now user id s res h =
      search-IsReleased now user id s res (find_transaction fl id (s.transactions user)) refl h

  pub check_otp-Keeps :
      (now : ℕ) (user otp : String) (s : Service env)
      → ((check_otp env now user otp s).0.transactions ≡ s.transactions)
        × ((check_otp env now user otp s).0.accounts ≡ s.accounts)
  unfolding check_otp append_audit next_id log_event
  check_otp-Keeps now user otp s = ground arith

  IsReleased-from :
      (user id : String) (s t s' : Service env)
      → (t.transactions ≡ s.transactions) × (t.accounts ≡ s.accounts)
      → IsReleased user id t s'
      → IsReleased user id s s'
  IsReleased-from user id s t s' k r = record {
    tx = r.tx;
    found = ap (λ m. find_transaction fl id (m user)) (sym k.0) ∙ r.found;
    pending = r.pending;
    after = r.after;
    covered = ap (λ m. apply_debit r.tx.amount_paise (m user)) (sym k.1) ∙ r.covered;
    debited = r.debited ∙ ap (λ m. put m user r.after) k.1;
  }

  checked-IsReleased :
      (now : ℕ) (user id : String) (e : Option OtpError) (s : Service env)
      (res : TransactionResult fl)
      → (override_checked env now user id e s).1 ≡ overridden res
      → (e ≡ none) × IsReleased user id s (override_checked env now user id e s).0
  unfolding override_checked
  checked-IsReleased now user id (some err) s res h = absurd (ground (arith, h))
  checked-IsReleased now user id none s res h = (refl, locked-IsReleased now user id s res h)

  override_guards :
      (now : ℕ) (user : String) (req : OverrideRequest) (s : Service env)
      (res : TransactionResult fl)
      → (override_transaction env now user req s).1 ≡ overridden res
      → (req.biometric_ok ≡ true)
        × (override_transaction env now user req s
            ≡ override_checked env now user req.transaction_id
                (check_otp env now user req.otp s).1
                (check_otp env now user req.otp s).0)
  unfolding override_transaction
  override_guards now user req s res h =
      elim (Bool-cases (str_eq (trim_space req.transaction_id) "")) [
        | inl p ↦ absurd (ground (arith, h))
        | inr p ↦ elim (Bool-cases req.biometric_ok) [
          | inr b ↦ absurd (ground (arith, h))
          | inl b ↦ elim (Bool-cases (str_eq (trim_space req.otp) "")) [
            | inl o ↦ absurd (ground (arith, h))
            | inr o ↦ (b, rw (p, b, o) refl)
          ]
        ]
      ]

  check_otp-verifies :
      (now : ℕ) (user otp : String) (s : Service env)
      → (check_otp env now user otp s).1 ≡ none
      → (verify_otp_token now (is_known (s.users user)) user otp s.otp).1 ≡ none
  unfolding check_otp
  check_otp-verifies now user otp s h = ground (arith, h)

  -- A completed override had the biometric factor and a one-time password that was accepted; it
  -- found a pending transaction of the user, and has debited exactly its amount.
  pub overridden_is_authorised :
      (now : ℕ) (user : String) (req : OverrideRequest) (s : Service env)
      (res : TransactionResult fl)
      → (override_transaction env now user req s).1 ≡ overridden res
      → (req.biometric_ok ≡ true)
        × ((verify_otp_token now (is_known (s.users user)) user req.otp s.otp).1 ≡ none)
        × IsReleased user req.transaction_id s (override_transaction env now user req s).0
  overridden_is_authorised now user req s res h =
      let g = override_guards now user req s res h in
      let t = (check_otp env now user req.otp s).0 in
      let r =
        checked-IsReleased now user req.transaction_id (check_otp env now user req.otp s).1 t res
          (ap (λ z. z.1) (sym g.1) ∙ h) in
      (
        g.0,
        check_otp-verifies now user req.otp s r.0,
        subst (λ z. IsReleased user req.transaction_id s z.0) (sym g.1)
            (IsReleased-from user req.transaction_id s t
              (override_checked env now user req.transaction_id (check_otp env now user req.otp s).1
                t).0
              (check_otp-Keeps now user req.otp s) r.1),
      )
