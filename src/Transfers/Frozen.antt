-- ===== src/Transfers/Frozen.antt =====
-- What the emergency freeze holds back, and what lifts it (service.go, `EmergencyFreeze`,
-- `Unfreeze`, `InitiateTransaction`).
use hybrid_quantum_banking_b.Base.{
  ℕ, ◌≡◌, ◌≢◌, ◌⊎◌, refl, ◌∙◌, String, str_eq, true, ltb, Option, none, some, arith, Bool-cases,
  inl, inr,
}
use hybrid_quantum_banking_b.Base.Int64.{non_positive}
use hybrid_quantum_banking_b.Base.Text.{trim_space}
use hybrid_quantum_banking_b.Otp.{OtpError, verify_otp_token}
use hybrid_quantum_banking_b.Transfers.State.{Env, Inputs, Service, InitiateRequest, Cached, User}
use hybrid_quantum_banking_b.Transfers.Recording.{append_audit, next_id, log_event}
use hybrid_quantum_banking_b.Transfers.Idempotency.{find_cached, drop_key}
use hybrid_quantum_banking_b.Transfers.Initiate.{
  initiate_transaction, initiate_user, initiate_cached, initiate_checked, initiate_frozen,
  cache_key_of,
}
use hybrid_quantum_banking_b.Transfers.Override.{check_otp, is_known}
use hybrid_quantum_banking_b.Transfers.Freeze.{
  UnfreezeRequest, biometric_satisfied, unfreeze_locked, unfreeze_checked, unfreeze,
}

module _ (env : Env) where
  open env use {fl}

  -- Accounts, book, history and known recipients are the same in both states.
  pub record IsUntouched (s s' : Service env) : Type 0 where
    pub accounts_same : s'.accounts ≡ s.accounts
    pub book_same : s'.book ≡ s.book
    pub transactions_same : s'.transactions ≡ s.transactions
    pub beneficiaries_same : s'.beneficiaries ≡ s.beneficiaries

  untouched : (s : Service env) → IsUntouched s s
  untouched s = record {
    accounts_same = refl;
    book_same = refl;
    transactions_same = refl;
    beneficiaries_same = refl;
  }

  frozen_branch :
      (inp : Inputs) (user cache_key : String) (s : Service env)
      → IsUntouched s (initiate_frozen env inp user cache_key s).0
  unfolding initiate_frozen append_audit next_id log_event
  frozen_branch inp user cache_key s = record {
    accounts_same = refl;
    book_same = refl;
    transactions_same = refl;
    beneficiaries_same = refl;
  }

  frozen_checked :
      (inp : Inputs) (user key cache_key : String) (req : InitiateRequest fl) (s : Service env)
      → s.freeze_state user ≡ true
      → IsUntouched s (initiate_checked env inp user key cache_key req s).0
  unfolding initiate_checked
  frozen_checked inp user key cache_key req s h =
      elim (Bool-cases (non_positive req.amount_paise)) [
        | inl p ↦ rw p (untouched s)
        | inr p ↦ elim (Bool-cases (str_eq (trim_space req.recipient) "")) [
          | inl q ↦ rw (p, q) (untouched s)
          | inr q ↦ rw (p, q, h) (frozen_branch inp user cache_key s)
        ]
      ]

  frozen_cached :
      (inp : Inputs) (user key cache_key : String) (req : InitiateRequest fl)
      (o : Option (Cached env)) (s : Service env)
      → s.freeze_state user ≡ true
      → IsUntouched s (initiate_cached env inp user key cache_key req o s).0
  unfolding initiate_cached
  frozen_cached inp user key cache_key req none s h = frozen_checked inp user key cache_key req s h
  frozen_cached inp user key cache_key req (some c) s h = elim (Bool-cases (ltb inp.now c.expiry)) [
    | inl p ↦ rw p (untouched s)
    | inr p ↦
        let t = record s { idempotency = drop_key env cache_key s.idempotency } in
        let u = frozen_checked inp user key cache_key req t h in
        rw p (record {
          accounts_same = u.accounts_same;
          book_same = u.book_same;
          transactions_same = u.transactions_same;
          beneficiaries_same = u.beneficiaries_same;
        })
  ]

  frozen_user :
      (inp : Inputs) (user key : String) (req : InitiateRequest fl) (o : Option User)
      (s : Service env)
      → s.freeze_state user ≡ true
      → IsUntouched s (initiate_user env inp user key req o s).0
  unfolding initiate_user
  frozen_user inp user key req none s h = untouched s
  frozen_user inp user key req (some u) s h = elim (Bool-cases (str_eq key "")) [
    | inl p ↦ rw p (untouched s)
    | inr p ↦ rw p (
        frozen_cached inp user key (cache_key_of env user key) req
          (find_cached env (cache_key_of env user key) s.idempotency) s h)
  ]

  -- While a user is frozen, no call of theirs, whatever its request and its idempotency key, changes
  -- an account, the book, a history or the known recipients.
  pub frozen_moves_nothing :
      (inp : Inputs) (user key : String) (req : InitiateRequest fl) (s : Service env)
      → s.freeze_state user ≡ true
      → IsUntouched s (initiate_transaction env inp user key req s).0
  unfolding initiate_transaction
  frozen_moves_nothing inp user key req s h = frozen_user inp user key req (s.users user) s h

  check_otp-freeze_state :
      (now : ℕ) (user otp : String) (s : Service env)
      → (check_otp env now user otp s).0.freeze_state ≡ s.freeze_state
  unfolding check_otp append_audit next_id log_event
  check_otp-freeze_state now user otp s = ground arith

  check_otp-accepted :
      (now : ℕ) (user otp : String) (s : Service env)
      → (check_otp env now user otp s).1 ≡ none
      → (verify_otp_token now (is_known (s.users user)) user otp s.otp).1 ≡ none
  unfolding check_otp
  check_otp-accepted now user otp s h = ground (arith, h)

  locked_keeps :
      (now : ℕ) (user : String) (s : Service env)
      → (unfreeze_locked env now user s).1 ≢ none
      → (unfreeze_locked env now user s).0.freeze_state ≡ s.freeze_state
  unfolding unfreeze_locked
  locked_keeps now user s h = ground (arith, h)

  unfreeze_checked-freeze_state :
      (now : ℕ) (user : String) (e : Option OtpError) (s : Service env)
      → let r = unfreeze_checked env now user e s in
        ((e ≡ none) × (r.1 ≡ none)) ⊎ (r.0.freeze_state ≡ s.freeze_state)
  unfolding unfreeze_checked
  unfreeze_checked-freeze_state now user (some err) s = inr refl
  unfreeze_checked-freeze_state now user none s = ground (arith, locked_keeps now user s)

  -- Where a one-time password is required, `Unfreeze` either changes no freeze at all, or the
  -- biometric factor was given and the password was accepted.
  pub unfreeze_needs_factors :
      (now : ℕ) (user : String) (req : UnfreezeRequest) (s : Service env)
      → env.otp_required_to_unfreeze ≡ true
      → ((unfreeze env now user req s).0.freeze_state ≡ s.freeze_state)
        ⊎ ((biometric_satisfied env req ≡ true)
            × ((verify_otp_token now (is_known (s.users user)) user (trim_space req.otp) s.otp).1
                ≡ none))
  unfolding unfreeze
  unfreeze_needs_factors now user req s r = elim (Bool-cases (biometric_satisfied env req)) [
    | inr b ↦ inl (rw b refl)
    | inl b ↦ elim (Bool-cases (str_eq (trim_space req.otp) "")) [
      | inl o ↦ inl (rw (b, r, o) refl)
      | inr o ↦
          let c = check_otp env now user (trim_space req.otp) s in
          elim (unfreeze_checked-freeze_state now user c.1 c.0) [
            | inl v ↦ inr (b, check_otp-accepted now user (trim_space req.otp) s v.0)
            | inr k ↦
                inl (rw (b, r, o) (k ∙ check_otp-freeze_state now user (trim_space req.otp) s))
          ]
    ]
  ]
