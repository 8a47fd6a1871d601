-- ===== src/Transfers/DoubleDebit.antt =====
-- A retry of a transaction with its idempotency key, after other calls (service.go,
-- `InitiateTransaction`, `setIdempotentLocked`).
use hybrid_quantum_banking_b.Base.{
  ℕ, suc, ◌+◌, ◌≤◌, ◌<◌, ◌≡◌, ◌≢◌, refl, sym, ap, subst, ◌∙◌, String, str_eq, false, Option, none,
  some, List, [], ◌∷◌, arith, length, ltb, All, Bool-cases, inl, inr,
}
use hybrid_quantum_banking_b.Transfers.State.{
  Env, Inputs, Service, TransactionResult, InitiateRequest, Cached, User,
}
use hybrid_quantum_banking_b.Transfers.Idempotency.{
  max_entries, idempotency_ttl, find_cached, drop_key,
}
use hybrid_quantum_banking_b.Transfers.Steps.{Outcome, done}
use hybrid_quantum_banking_b.Transfers.Initiate.{
  initiate_transaction, initiate_user, initiate_cached, initiate_checked, cache_key_of,
}
use hybrid_quantum_banking_b.Transfers.Cached.{entry, find_cached-set_idempotent, replay_lem}
use hybrid_quantum_banking_b.Transfers.Effects.{Ends, fails, finishes}
use hybrid_quantum_banking_b.Transfers.Outcomes.{IsFresh, fresh_lem, checked_lem, done_inj}
use hybrid_quantum_banking_b.Transfers.Kept.{
  Holds, Holds-less, set_idempotent-Holds, drop_key-Holds, length-set_idempotent,
}

module _ (env : Env) where
  open env use {fl}

  -- The user is known, and the entry of the key is held.
  record Keeping (user : String) (u : User) (key : String) (c : Cached env) (room : ℕ)
      (s : Service env) : Type 0 where
    pub known : s.users user ≡ some u
    pub holds : Holds env key c room s.idempotency

  Keeping-less :
      (user : String) (u : User) (key : String) (c : Cached env) (room : ℕ) (s : Service env)
      → Keeping user u key c (suc room) s
      → Keeping user u key c room s
  Keeping-less user u key c room s h = record {
    known = h.known;
    holds = Holds-less env key c room s.idempotency s.idempotency refl h.holds;
  }

  Ends-Keeping :
      (user : String) (u : User) (key : String) (c : Cached env) (room : ℕ) (inp : Inputs)
      (by other : String) (amount : ℕ) (s : Service env) (r : Service env × Outcome env)
      → key ≢ other
      → ltb c.expiry inp.now ≡ false
      → Keeping user u key c (suc room) s
      → Ends env inp by other amount s r
      → Keeping user u key c room r.0
  Ends-Keeping user u key c room inp by other amount s r n l h (fails e x k) = record {
    known = ap (λ m. m user) k.1 ∙ h.known;
    holds = Holds-less env key c room s.idempotency r.0.idempotency k.2 h.holds;
  }
  Ends-Keeping user u key c room inp by other amount s r n l h (finishes res x d us cs) = record {
    known = ap (λ m. m user) us ∙ h.known;
    holds =
        subst (Holds env key c room) (sym cs)
          (set_idempotent-Holds env inp.now room key other res c s.idempotency n l h.holds);
  }

  cached-Keeping :
      (user : String) (u : User) (key : String) (c : Cached env) (room : ℕ) (inp : Inputs)
      (by text other : String) (req : InitiateRequest fl) (o : Option (Cached env))
      (s : Service env)
      → find_cached env other s.idempotency ≡ o
      → inp.now < c.expiry
      → Keeping user u key c (suc room) s
      → Keeping user u key c room (initiate_cached env inp by text other req o s).0
  unfolding initiate_cached
  cached-Keeping user u key c room inp by text other req none s f l h =
      let n : key ≢ other = λ e.
        absurd (ground (arith, h.holds.found, f, ap (λ k. find_cached env k s.idempotency) e)) in
      Ends-Keeping user u key c room inp by other req.amount_paise s
        (initiate_checked env inp by text other req s) n (ground arith) h
        (checked_lem env inp by text other req s)
  cached-Keeping user u key c room inp by text other req (some x) s f l h =
      elim (Bool-cases (ltb inp.now x.expiry)) [
        | inl y ↦ rw y (Keeping-less user u key c room s h)
        | inr y ↦
            let n : key ≢ other = λ e.
              absurd (
                ground (arith, h.holds.found, f, y, ap (λ k. find_cached env k s.idempotency) e)) in
            let t = record s { idempotency = drop_key env other s.idempotency } in
            rw y (
              Ends-Keeping user u key c room inp by other req.amount_paise t
                (initiate_checked env inp by text other req t) n (ground arith)
                (record {
                  known = h.known;
                  holds = drop_key-Holds env key other c (suc room) s.idempotency n h.holds;
                })
                (checked_lem env inp by text other req t))
      ]

  user-Keeping :
      (user : String) (u : User) (key : String) (c : Cached env) (room : ℕ) (inp : Inputs)
      (by text : String) (req : InitiateRequest fl) (o : Option User) (s : Service env)
      → inp.now < c.expiry
      → Keeping user u key c (suc room) s
      → Keeping user u key c room (initiate_user env inp by text req o s).0
  unfolding initiate_user
  user-Keeping user u key c room inp by text req none s l h = Keeping-less user u key c room s h
  user-Keeping user u key c room inp by text req (some v) s l h =
      elim (Bool-cases (str_eq text "")) [
        | inl y ↦ rw y (Keeping-less user u key c room s h)
        | inr y ↦
            let other = cache_key_of env by text in
            rw y (
              cached-Keeping user u key c room inp by text other req
                (find_cached env other s.idempotency) s refl l h)
      ]

  -- One call of `InitiateTransaction`: its clock and draws, its user, key and request.
  pub record Call : Type 0 where
    pub inputs : Inputs
    pub by : String
    pub with_key : String
    pub asks : InitiateRequest fl

  -- The state after the calls, in their order.
  abbrev pub calls : List Call → Service env → Service env
  calls [] s = s
  calls (x ∷ xs) s = calls xs (initiate_transaction env x.inputs x.by x.with_key x.asks s).0

  -- Every call is made before the time.
  abbrev pub Before : ℕ → List Call → Type 0
  Before time = All (λ x. x.inputs.now < time)

  calls-Keeping :
      (user : String) (u : User) (key : String) (c : Cached env) (room : ℕ) (xs : List Call)
      (s : Service env)
      → Before c.expiry xs
      → Keeping user u key c (length xs + room) s
      → Keeping user u key c room (calls xs s)
  unfolding initiate_transaction
  calls-Keeping user u key c room [] s l h = subst (λ n. Keeping user u key c n s) (omega arith) h
  calls-Keeping user u key c room (x ∷ xs) s l h =
      calls-Keeping user u key c room xs
        (initiate_transaction env x.inputs x.by x.with_key x.asks s).0 l.1
        (user-Keeping user u key c (length xs + room) x.inputs x.by x.with_key x.asks (s.users x.by)
          s l.0 (subst (λ n. Keeping user u key c n s) (omega arith) h))

  Ends-stores :
      (inp : Inputs) (user key : String) (amount room : ℕ) (s : Service env)
      (res : TransactionResult fl) (r : Service env × Outcome env) (f : IsFresh env user key s)
      → room + length s.idempotency < max_entries
      → r.1 ≡ done res
      → Ends env inp user (cache_key_of env user key) amount s r
      → Keeping user f.account
          (cache_key_of env user key)
          (entry env inp.now (cache_key_of env user key) res)
          room
          r.0
  Ends-stores inp user key amount room s res r f n h (fails e x k) = absurd (ground (arith, h, x))
  Ends-stores inp user key amount room s res r f n h (finishes res' x d u c) =
      let k = cache_key_of env user key in
      let same : res' ≡ res = done_inj env (sym x ∙ h) in
      let small : length s.idempotency < max_entries = omega (arith, n) in
      record {
        known = ap (λ m. m user) u ∙ f.known;
        holds = record {
          found =
              ap (find_cached env k) c
              ∙ find_cached-set_idempotent env inp.now k res' s.idempotency small
              ∙ ap (λ z. some (entry env inp.now k z)) same;
          roomy =
              subst (λ z. room + length z ≤ max_entries) (sym c)
                (omega (arith, length-set_idempotent env inp.now k res' s.idempotency small, n));
        };
      }

  -- Once a call of a known user under a fresh idempotency key has a result: after any further calls
  -- of `InitiateTransaction` within 24 hours of it, by any users and under any keys, a retry of the
  -- user with the same key within the 24 hours has the first result again and changes nothing at
  -- all, whatever it asks for. The cache has room for the results: its entries before the first
  -- call and the calls in between are together fewer than its cap of 10,000.
  pub retry_is_replay :
      (inp later : Inputs) (user key : String) (req again : InitiateRequest fl) (xs : List Call)
      (s : Service env) (res : TransactionResult fl)
      → IsFresh env user key s
      → length xs + length s.idempotency < max_entries
      → Before (inp.now + idempotency_ttl) xs
      → later.now < inp.now + idempotency_ttl
      → (initiate_transaction env inp user key req s).1 ≡ done res
      → let s' = calls xs (initiate_transaction env inp user key req s).0 in
        initiate_transaction env later user key again s' ≡ (s', done res)
  retry_is_replay inp later user key req again xs s res f n b l h =
      let k = cache_key_of env user key in
      let e = entry env inp.now k res in
      let r = initiate_transaction env inp user key req s in
      let ends =
        subst (Ends env inp user k req.amount_paise s) (sym (fresh_lem env inp user key req s f))
          (checked_lem env inp user key k req s) in
      let first : Keeping user f.account k e (length xs + 0) r.0 =
        Ends-stores inp user key req.amount_paise (length xs + 0) s res r f (omega (arith, n)) h
          ends in
      let last = calls-Keeping user f.account k e 0 xs r.0 b first in
      replay_lem env later user key again (calls xs r.0) f.account e last.known f.keyed
        last.holds.found (ground arith)
