-- ===== src/Transfers/Assessed.antt =====
-- The part of `InitiateTransaction` from the risk assessment on, with its intermediate states named
-- (service.go).
use hybrid_quantum_banking_b.Base.{
  ◌≡◌, refl, inl, inr, ℕ, String, Bool, true, false, Option, none, some, List, arith, Option-cases,
  subst, sym, ap, ◌∙◌,
}
use hybrid_quantum_banking_b.Blockchain.Events.{Event, default_rules}
use hybrid_quantum_banking_b.Blockchain.Writes.{write_event_strict, WriteResult}
use hybrid_quantum_banking_b.Transfers.State.{Env, Inputs, Service, Transaction, InitiateRequest}
use hybrid_quantum_banking_b.Transfers.Recording.{next_id}
use hybrid_quantum_banking_b.Transfers.Steps.{
  TransferError, Outcome, failed, record_transaction, reject_transaction, new_transaction,
  assess_request, is_success_status, write_error,
}
use hybrid_quantum_banking_b.Transfers.Initiate.{initiate_assessed, settle}
use hybrid_quantum_banking_b.Transfers.Effects.{
  Keeps, Debits, Ends, fails, finishes, record_transaction-Keeps, reject_transaction-Keeps,
  settle_lem,
}

module _ (env : Env) where
  open env use {fl}

  pub Debits-from :
      (user : String) (amount : ℕ) (b : Bool) (s t s' : Service env)
      → t.accounts ≡ s.accounts
      → Debits env user amount b t s'
      → Debits env user amount b s s'
  Debits-from user amount true s t s' e h = (h.0, ground (arith, e, h.1), ground (arith, e, h.2))
  Debits-from user amount false s t s' e h = ground (arith, e, h)

  -- What is done before the debit changes neither money nor cache.
  pub Ends-from :
      (inp : Inputs) (user cache_key : String) (amount : ℕ) (s t : Service env)
      (r q : Service env × Outcome env)
      → Keeps env s t
      → q ≡ r
      → Ends env inp user cache_key amount t r
      → Ends env inp user cache_key amount s q
  Ends-from inp user cache_key amount s t r q k e (fails x f g) =
      fails x (ground (arith, e, f)) (ground (arith, e, g, k))
  Ends-from inp user cache_key amount s t r q k e (finishes res f b u c) =
      finishes res (ground (arith, e, f))
        (subst (λ z. Debits env user amount (is_success_status res.status) s z.0) (sym e)
          (Debits-from user amount (is_success_status res.status) s t r.0 k.0 b))
        (ground (arith, e, u, k)) (ground (arith, e, c, k))

  -- The transaction of a request, and the state with its number taken.
  abbrev pub request_txn :
      Inputs → String → String → InitiateRequest fl → Service env → Transaction fl
  request_txn inp user key req s =
      new_transaction env inp user key req (next_id env "txn" s).1
        (assess_request env inp user req s).0 (assess_request env inp user req s).1

  abbrev pub recorded_at : Inputs → String → String → InitiateRequest fl → Service env → Service env
  recorded_at inp user key req s =
      record_transaction env inp user (request_txn inp user key req s) (next_id env "txn" s).0

  abbrev pub strict_write :
      Inputs → String → String → InitiateRequest fl → Service env → List Event × WriteResult
  strict_write inp user key req s =
      write_event_strict env.host default_rules env.fabric inp.now user "transaction_initiated"
        "transaction" (env.transaction_json (request_txn inp user key req s))
        (recorded_at inp user key req s).chain

  -- The state in which the debit is made.
  abbrev pub logged_at : Inputs → String → String → InitiateRequest fl → Service env → Service env
  logged_at inp user key req s = record (recorded_at inp user key req s) {
    chain = (strict_write inp user key req s).0;
  }

  pub logged_at-Keeps :
      (inp : Inputs) (user key : String) (req : InitiateRequest fl) (s : Service env)
      → Keeps env s (logged_at inp user key req s)
  unfolding next_id
  logged_at-Keeps inp user key req s =
      record_transaction-Keeps env inp user (request_txn inp user key req s) (next_id env "txn" s).0

  -- The last branch of `initiate_assessed`.
  abbrev pub decide :
      Inputs
      → String
      → String
      → String
      → InitiateRequest fl
      → Service env
      → Option TransferError
      → Service env × Outcome env
  decide inp user key cache_key req s (some e) =
      (reject_transaction env inp user e (logged_at inp user key req s), failed e)
  decide inp user key cache_key req s none =
      settle env inp user cache_key (request_txn inp user key req s)
        (assess_request env inp user req s).1 (logged_at inp user key req s)

  pub assessed_decides :
      (inp : Inputs) (user key cache_key : String) (req : InitiateRequest fl) (s : Service env)
      → initiate_assessed env inp user key cache_key req s
        ≡ decide inp user key cache_key req s (write_error (strict_write inp user key req s).1)
  unfolding initiate_assessed
  assessed_decides inp user key cache_key req s = refl

  pub assessed_refused :
      (inp : Inputs) (user key cache_key : String) (req : InitiateRequest fl) (s : Service env)
      (e : TransferError)
      → write_error (strict_write inp user key req s).1 ≡ some e
      → initiate_assessed env inp user key cache_key req s
        ≡ (reject_transaction env inp user e (logged_at inp user key req s), failed e)
  assessed_refused inp user key cache_key req s e h =
      assessed_decides inp user key cache_key req s ∙ ap (decide inp user key cache_key req s) h

  pub assessed_accepted :
      (inp : Inputs) (user key cache_key : String) (req : InitiateRequest fl) (s : Service env)
      → write_error (strict_write inp user key req s).1 ≡ none
      → initiate_assessed env inp user key cache_key req s
        ≡ settle env inp user cache_key
            (request_txn inp user key req s)
            (assess_request env inp user req s).1
            (logged_at inp user key req s)
  assessed_accepted inp user key cache_key req s h =
      assessed_decides inp user key cache_key req s ∙ ap (decide inp user key cache_key req s) h

  pub request_txn-amount :
      (inp : Inputs) (user key : String) (req : InitiateRequest fl) (s : Service env)
      → (request_txn inp user key req s).amount_paise ≡ req.amount_paise
  unfolding new_transaction
  request_txn-amount inp user key req s = refl

  pub assessed_lem :
      (inp : Inputs) (user key cache_key : String) (req : InitiateRequest fl) (s : Service env)
      → Ends env inp user cache_key req.amount_paise s
          (initiate_assessed env inp user key cache_key req s)
  assessed_lem inp user key cache_key req s =
      let t = logged_at inp user key req s in
      elim (Option-cases (write_error (strict_write inp user key req s).1)) [
        | inr (e, w) ↦
            let p = assessed_refused inp user key cache_key req s e w in
            fails e (rw p) (
              ground (
                arith,
                p,
                reject_transaction-Keeps env inp user e t,
                logged_at-Keeps inp user key req s,
              ))
        | inl w ↦
            subst
              (λ a.
                Ends env inp user cache_key a s
                  (initiate_assessed env inp user key cache_key req s))
              (request_txn-amount inp user key req s)
              (Ends-from inp user cache_key (request_txn inp user key req s).amount_paise s t
                (settle env inp user cache_key (request_txn inp user key req s)
                  (assess_request env inp user req s).1 t)
                (initiate_assessed env inp user key cache_key req s)
                (logged_at-Keeps inp user key req s)
                (assessed_accepted inp user key cache_key req s w)
                (settle_lem env inp user cache_key (request_txn inp user key req s)
                  (assess_request env inp user req s).1 t))
      ]
