-- ===== src/Transfers/Effects.antt =====
-- What the steps of `InitiateTransaction` change of the money, the users and the cached results
-- (service.go).
use hybrid_quantum_banking_b.Base.{
  ◌≡◌, ◌⊎◌, refl, inl, inr, ℕ, String, Bool, true, false, Option, none, some, List, arith,
  Bool-cases,
}
use hybrid_quantum_banking_b.Base.Maps.{put}
use hybrid_quantum_banking_b.Accounts.{Account, apply_debit}
use hybrid_quantum_banking_b.AdaptiveAuth.{AuthDecision}
use hybrid_quantum_banking_b.Transfers.State.{Env, Inputs, Service, Transaction, TransactionResult}
use hybrid_quantum_banking_b.Transfers.Recording.{
  append_audit, append_transaction, next_id, log_event, push_notification,
}
use hybrid_quantum_banking_b.Transfers.Idempotency.{set_idempotent}
use hybrid_quantum_banking_b.Transfers.Steps.{
  TransferError, insufficient_funds, Outcome, done, failed, record_transaction, reject_transaction,
  move_money, post_entry, is_success_status, status_text, enqueue_decision,
}
use hybrid_quantum_banking_b.Transfers.Initiate.{settle, conclude, respond, result_of}

module _ (env : Env) where
  open env use {fl}

  -- The steps that leave the accounts and the cached results alone.
  abbrev pub Keeps : Service env → Service env → Type 0
  Keeps s s' = (s'.accounts ≡ s.accounts) × (s'.users ≡ s.users) × (s'.idempotency ≡ s.idempotency)

  pub post_entry-Keeps :
      (inp : Inputs) (user : String) (txn : Transaction fl) (s : Service env)
      → Keeps s (post_entry env inp user txn s)
  unfolding post_entry
  post_entry-Keeps inp user txn s = ground arith

  pub record_transaction-Keeps :
      (inp : Inputs) (user : String) (txn : Transaction fl) (s : Service env)
      → Keeps s (record_transaction env inp user txn s)
  unfolding record_transaction enqueue_decision append_transaction
  record_transaction-Keeps inp user txn s = ground arith

  pub reject_transaction-Keeps :
      (inp : Inputs) (user : String) (e : TransferError) (s : Service env)
      → Keeps s (reject_transaction env inp user e s)
  unfolding reject_transaction append_audit next_id log_event
  reject_transaction-Keeps inp user e s = ground arith

  pub respond-Keeps :
      (inp : Inputs) (user : String) (txn : Transaction fl) (s : Service env)
      → Keeps s (respond env inp user txn s)
  unfolding respond
  respond-Keeps inp user txn s = ground arith

  pub append_audit-Keeps :
      (now : ℕ) (user event_type resource outcome by : String) (s : Service env)
      → Keeps s (append_audit env now user event_type resource outcome by s)
  unfolding append_audit next_id log_event
  append_audit-Keeps now user event_type resource outcome by s = ground arith

  pub conclude_lem :
      (inp : Inputs) (user cache_key : String) (txn : Transaction fl) (d : AuthDecision)
      (s : Service env)
      → let r = conclude env inp user cache_key txn d s in
        (r.0.accounts ≡ s.accounts)
        × (r.0.users ≡ s.users)
        × (r.0.idempotency
            ≡ set_idempotent env inp.now cache_key (result_of env txn d) s.idempotency)
        × (r.1 ≡ done (result_of env txn d))
  unfolding conclude push_notification next_id
  conclude_lem inp user cache_key txn d s = ground (
    arith,
    respond-Keeps inp user txn s,
    append_audit-Keeps inp.now user "transaction_initiated" "transaction" (status_text txn.status)
        "AI" (respond env inp user txn s),
  )

  -- The money of a recorded transaction: debited if it succeeded, else untouched.
  abbrev pub Debits : String → ℕ → Bool → Service env → Service env → Type 0
  Debits user amount false s s' = s'.accounts ≡ s.accounts
  Debits user amount true s s' =
      (after : List Account) × (apply_debit amount (s.accounts user) ≡ some after)
      × (s'.accounts ≡ put s.accounts user after)

  pub move_money_debit :
      (inp : Inputs) (user : String) (txn : Transaction fl) (s : Service env)
      → (o : Option (List Account)) → apply_debit txn.amount_paise (s.accounts user) ≡ o
      → is_success_status txn.status ≡ true
      → let r = move_money env inp user txn s in
        ((o ≡ none) × (r.1 ≡ false) × Keeps s r.0)
        ⊎ ((r.1 ≡ true)
            × Debits user txn.amount_paise true s r.0
            × (r.0.users ≡ s.users)
            × (r.0.idempotency ≡ s.idempotency))
  unfolding move_money
  move_money_debit inp user txn s none e t = inl (ground (arith, post_entry-Keeps inp user txn s))
  move_money_debit inp user txn s (some after) e t = inr (
    ground (arith, post_entry-Keeps inp user txn s),
    (after, e, ground (arith, post_entry-Keeps inp user txn s)),
    ground (arith, post_entry-Keeps inp user txn s),
    ground (arith, post_entry-Keeps inp user txn s),
  )

  -- How a call that is not answered from the cache ends: it fails and takes no money, or it has a
  -- result that is cached, and takes exactly the money of a successful result.
  pub data Ends (inp : Inputs) (user cache_key : String) (amount : ℕ) (s : Service env)
      (r : Service env × Outcome env) : Type 0 where
    fails : (e : TransferError) → r.1 ≡ failed e → Keeps s r.0 → Ends inp user cache_key amount s r
    finishes :
        (res : TransactionResult fl)
        → r.1 ≡ done res
        → Debits user amount (is_success_status res.status) s r.0
        → r.0.users ≡ s.users
        → r.0.idempotency ≡ set_idempotent env inp.now cache_key res s.idempotency
        → Ends inp user cache_key amount s r

  pub settle_unpaid :
      (inp : Inputs) (user cache_key : String) (txn : Transaction fl) (d : AuthDecision)
      (s : Service env)
      → (move_money env inp user txn s).1 ≡ false
      → settle env inp user cache_key txn d s
        ≡ ((move_money env inp user txn s).0, failed insufficient_funds)
  unfolding settle
  settle_unpaid inp user cache_key txn d s h = rw h

  pub settle_paid :
      (inp : Inputs) (user cache_key : String) (txn : Transaction fl) (d : AuthDecision)
      (s : Service env)
      → (move_money env inp user txn s).1 ≡ true
      → settle env inp user cache_key txn d s
        ≡ conclude env inp user cache_key txn d (move_money env inp user txn s).0
  unfolding settle
  settle_paid inp user cache_key txn d s h = rw h

  pub move_money_free :
      (inp : Inputs) (user : String) (txn : Transaction fl) (s : Service env)
      → is_success_status txn.status ≡ false
      → move_money env inp user txn s ≡ (s, true)
  unfolding move_money
  move_money_free inp user txn s h = rw h

  pub Debits_lem :
      (user : String) (amount : ℕ) (b b' : Bool) (s s' s'' : Service env)
      → b' ≡ b
      → s''.accounts ≡ s'.accounts
      → Debits user amount b s s'
      → Debits user amount b' s s''
  Debits_lem user amount true true s s' s'' e a h = (h.0, h.1, ground (arith, a, h.2))
  Debits_lem user amount false false s s' s'' e a h = ground (arith, a, h)
  Debits_lem user amount true false s s' s'' e a h = absurd (ground (arith, e))
  Debits_lem user amount false true s s' s'' e a h = absurd (ground (arith, e))

  pub settle_lem :
      (inp : Inputs) (user cache_key : String) (txn : Transaction fl) (d : AuthDecision)
      (s : Service env)
      → Ends inp user cache_key txn.amount_paise s (settle env inp user cache_key txn d s)
  unfolding result_of
  settle_lem inp user cache_key txn d s = elim (Bool-cases (is_success_status txn.status)) [
    | inl t ↦
        elim (move_money_debit inp user txn s (apply_debit txn.amount_paise (s.accounts user)) refl
          t) [
            | inl u ↦
                let p = settle_unpaid inp user cache_key txn d s u.1 in
                fails insufficient_funds (rw p) (ground (arith, p, u.2))
            | inr u ↦
                let p = settle_paid inp user cache_key txn d s u.0 in
                let c = conclude_lem inp user cache_key txn d (move_money env inp user txn s).0 in
                finishes (result_of env txn d) (rw (p, c.3))
                  (Debits_lem user txn.amount_paise true (is_success_status txn.status) s
                    (move_money env inp user txn s).0 (settle env inp user cache_key txn d s).0 t
                    (ground (arith, p, c.0)) u.1)
                  (ground (arith, p, c.1, u.2)) (ground (arith, p, c.2, u.3))
          ]
    | inr t ↦
        let m = move_money_free inp user txn s t in
        let p = settle_paid inp user cache_key txn d s (ground (arith, m)) in
        let c = conclude_lem inp user cache_key txn d (move_money env inp user txn s).0 in
        finishes (result_of env txn d) (rw (p, c.3))
          (Debits_lem user txn.amount_paise false (is_success_status txn.status) s s
            (settle env inp user cache_key txn d s).0 t (ground (arith, p, c.0, m)) refl)
          (ground (arith, p, c.1, m)) (ground (arith, p, c.2, m))
  ]
