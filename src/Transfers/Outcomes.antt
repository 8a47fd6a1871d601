-- ===== src/Transfers/Outcomes.antt =====
-- What a call of `InitiateTransaction` does to the money, on every path (service.go).
use hybrid_quantum_banking_b.Base.Int64.{non_positive}
use hybrid_quantum_banking_b.Base.Text.{trim_space}
use hybrid_quantum_banking_b.Base.{
  ◌≡◌, refl, inl, inr, ℕ, String, str_eq, false, Option, none, some, arith, if◌then◌else◌,
  Bool-cases, subst, sym, ap, ◌∙◌,
}
use hybrid_quantum_banking_b.Transfers.State.{
  User, Env, Inputs, Service, TransactionResult, InitiateRequest, Cached,
}
use hybrid_quantum_banking_b.Transfers.Recording.{append_audit, next_id, log_event}
use hybrid_quantum_banking_b.Transfers.Idempotency.{find_cached, drop_key}
use hybrid_quantum_banking_b.Transfers.Steps.{
  amount_not_positive, recipient_missing, key_missing, TransferError, Outcome, done, failed,
  is_success_status,
}
use hybrid_quantum_banking_b.Transfers.Initiate.{
  initiate_transaction, cache_key_of, initiate_user, initiate_frozen, frozen_result,
  initiate_cached, initiate_checked,
}
use hybrid_quantum_banking_b.Transfers.Effects.{Keeps, Debits, Ends, fails, finishes}
use hybrid_quantum_banking_b.Transfers.Assessed.{assessed_lem}

module _ (env : Env) where
  open env use {fl}

  pub done_inj : {a b : TransactionResult fl} → Path (Outcome env) (done a) (done b) → a ≡ b
  done_inj h = cc

  frozen_lem :
      (inp : Inputs) (user cache_key : String) (amount : ℕ) (s : Service env)
      → Ends env inp user cache_key amount s (initiate_frozen env inp user cache_key s)
  unfolding initiate_frozen append_audit next_id log_event
  frozen_lem inp user cache_key amount s =
      finishes (frozen_result env (next_id env "txn" s).1) refl refl refl refl

  -- The checks before the assessment leave everything as it is.
  pub checked_lem :
      (inp : Inputs) (user key cache_key : String) (req : InitiateRequest fl) (s : Service env)
      → Ends env inp user cache_key req.amount_paise s
          (initiate_checked env inp user key cache_key req s)
  unfolding initiate_checked
  checked_lem inp user key cache_key req s = elim (Bool-cases (non_positive req.amount_paise)) [
    | inl p ↦ fails amount_not_positive (rw p) (rw p (refl, refl, refl))
    | inr p ↦ elim (Bool-cases (str_eq (trim_space req.recipient) "")) [
      | inl q ↦ fails recipient_missing (rw (p, q)) (rw (p, q) (refl, refl, refl))
      | inr q ↦ elim (Bool-cases (s.freeze_state user)) [
        | inl f ↦ rw (p, q, f) (frozen_lem inp user cache_key req.amount_paise s)
        | inr f ↦ rw (p, q, f) (assessed_lem env inp user key cache_key req s)
      ]
    ]
  ]

  -- The user exists, the key is not empty, and no result is cached under it.
  pub record IsFresh (user key : String) (s : Service env) : Type 0 where
    pub account : User
    pub known : s.users user ≡ some account
    pub keyed : str_eq key "" ≡ false
    pub new : find_cached env (cache_key_of env user key) s.idempotency ≡ none

  pub fresh_lem :
      (inp : Inputs) (user key : String) (req : InitiateRequest fl) (s : Service env)
      → IsFresh user key s
      → initiate_transaction env inp user key req s
        ≡ initiate_checked env inp user key (cache_key_of env user key) req s
  unfolding initiate_transaction initiate_user initiate_cached
  fresh_lem inp user key req s f =
      ap (λ u. initiate_user env inp user key req u s) f.known
      ∙ ap
          (λ b.
            if b
            then (s, failed key_missing)
            else initiate_cached env inp user key (cache_key_of env user key) req
                (find_cached env (cache_key_of env user key) s.idempotency) s)
          f.keyed
      ∙ ap (λ c. initiate_cached env inp user key (cache_key_of env user key) req c s) f.new

  Ends-Debits :
      (inp : Inputs) (user cache_key : String) (amount : ℕ) (s : Service env)
      (r : Service env × Outcome env) (res : TransactionResult fl)
      → r.1 ≡ done res
      → Ends env inp user cache_key amount s r
      → Debits env user amount (is_success_status res.status) s r.0
  Ends-Debits inp user cache_key amount s r res h (fails e f k) = absurd (ground (arith, h, f))
  Ends-Debits inp user cache_key amount s r res h (finishes res' f d u c) =
      subst (λ x. Debits env user amount (is_success_status x.status) s r.0) (done_inj (sym f ∙ h))
        d

  Ends-fails :
      (inp : Inputs) (user cache_key : String) (amount : ℕ) (s : Service env)
      (r : Service env × Outcome env) (e : TransferError)
      → r.1 ≡ failed e
      → Ends env inp user cache_key amount s r
      → Keeps env s r.0
  Ends-fails inp user cache_key amount s r e h (fails x f k) = k
  Ends-fails inp user cache_key amount s r e h (finishes res f d u c) =
      absurd (ground (arith, h, f))

  -- For a known user and a fresh idempotency key: a call with a result of status `success` has
  -- debited exactly the amount from the user's accounts, and with any other result, blocked or
  -- waiting for a step-up, no account of anybody has changed.
  pub result-Debits :
      (inp : Inputs) (user key : String) (req : InitiateRequest fl) (s : Service env)
      (res : TransactionResult fl)
      → IsFresh user key s
      → (initiate_transaction env inp user key req s).1 ≡ done res
      → Debits env user req.amount_paise
          (is_success_status res.status)
          s
          (initiate_transaction env inp user key req s).0
  result-Debits inp user key req s res f h =
      let p = fresh_lem inp user key req s f in
      subst (λ z. Debits env user req.amount_paise (is_success_status res.status) s z.0) (sym p)
        (Ends-Debits inp user (cache_key_of env user key) req.amount_paise s
          (initiate_checked env inp user key (cache_key_of env user key) req s) res
          (ap (λ z. z.1) (sym p) ∙ h) (checked_lem inp user key (cache_key_of env user key) req s))

  cached_failure :
      (inp : Inputs) (user key cache_key : String) (req : InitiateRequest fl)
      (o : Option (Cached env)) (s : Service env) (e : TransferError)
      → (initiate_cached env inp user key cache_key req o s).1 ≡ failed e
      → (initiate_cached env inp user key cache_key req o s).0.accounts ≡ s.accounts
  unfolding initiate_cached
  cached_failure inp user key cache_key req none s e h =
      (Ends-fails inp user cache_key req.amount_paise s
        (initiate_checked env inp user key cache_key req s) e h
        (checked_lem inp user key cache_key req s)).0
  cached_failure inp user key cache_key req (some c) s e h =
      let t = record s { idempotency = drop_key env cache_key s.idempotency } in
      ground (
        arith,
        Ends-fails inp user cache_key req.amount_paise t
            (initiate_checked env inp user key cache_key req t) e,
        checked_lem inp user key cache_key req t,
      )

  user_failure :
      (inp : Inputs) (user key : String) (req : InitiateRequest fl) (o : Option User)
      (s : Service env) (e : TransferError)
      → (initiate_user env inp user key req o s).1 ≡ failed e
      → (initiate_user env inp user key req o s).0.accounts ≡ s.accounts
  unfolding initiate_user
  user_failure inp user key req none s e h = refl
  user_failure inp user key req (some u) s e h = ground (
    arith,
    cached_failure inp user key (cache_key_of env user key) req
        (find_cached env (cache_key_of env user key) s.idempotency) s e,
  )

  -- A call that fails, for whatever reason and on whatever path, has changed no account.
  pub failure_takes_no_money :
      (inp : Inputs) (user key : String) (req : InitiateRequest fl) (s : Service env)
      (e : TransferError)
      → (initiate_transaction env inp user key req s).1 ≡ failed e
      → (initiate_transaction env inp user key req s).0.accounts ≡ s.accounts
  unfolding initiate_transaction
  failure_takes_no_money inp user key req s e h = user_failure inp user key req (s.users user) s e h
