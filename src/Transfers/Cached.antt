-- ===== src/Transfers/Cached.antt =====
-- The entry of a key in the cache of results, and a call that finds it (service.go,
-- `InitiateTransaction`, `setIdempotentLocked`).
use hybrid_quantum_banking_b.Base.{
  ℕ, zero, suc, ◌+◌, ◌≤◌, ◌<◌, ◌≡◌, refl, ap, ◌∙◌, String, str_eq, eq_refl, Bool, true, false, not,
  none, some, List, [], ◌∷◌, ◌++◌, arith, length, select, select-append, length-append, ltb,
  if◌then◌else◌,
}
use hybrid_quantum_banking_b.Transfers.State.{
  Env, Inputs, Service, TransactionResult, InitiateRequest, Cached, User,
}
use hybrid_quantum_banking_b.Transfers.Idempotency.{
  max_entries, idempotency_ttl, find_cached, drop_key, evict, prune, set_idempotent,
}
use hybrid_quantum_banking_b.Transfers.Steps.{done, failed, key_missing}
use hybrid_quantum_banking_b.Transfers.Initiate.{
  initiate_transaction, initiate_user, initiate_cached, cache_key_of,
}

pub length-select {ℓ} : {A : Type ℓ} (p : A → Bool) (xs : List A) → length (select p xs) ≤ length xs
length-select p [] = omega arith
length-select p (x ∷ xs) = ground (arith, length-select p xs)

module _ (env : Env) where
  open env use {fl}

  pub evict-small :
      (rounds : ℕ) (cs : List (Cached env)) → length cs ≤ max_entries → evict env rounds cs ≡ cs
  unfolding evict
  evict-small rounds [] h = refl
  evict-small zero (c ∷ cs) h = refl
  evict-small (suc rounds) (c ∷ cs) h = ground arith

  find_cached-drop_key :
      (p : Cached env → Bool) (key : String) (cs : List (Cached env))
      → find_cached env key (select p (drop_key env key cs)) ≡ none
  unfolding find_cached drop_key
  find_cached-drop_key p key [] = refl
  find_cached-drop_key p key (c ∷ cs) = ground (arith, find_cached-drop_key p key cs)

  find_cached-append :
      (key : String) (xs : List (Cached env)) (c : Cached env)
      → find_cached env key xs ≡ none
      → c.key ≡ key
      → find_cached env key (xs ++ c ∷ []) ≡ some c
  unfolding find_cached
  find_cached-append key [] c h k = ground (arith, eq_refl key)
  find_cached-append key (x ∷ xs) c h k = ground (arith, find_cached-append key xs c)

  abbrev pub entry : ℕ → String → TransactionResult fl → Cached env
  entry now key res = record { key = key; result = res; expiry = now + idempotency_ttl }

  pub find_cached-set_idempotent :
      (now : ℕ) (key : String) (res : TransactionResult fl) (cs : List (Cached env))
      → length cs < max_entries
      → find_cached env key (set_idempotent env now key res cs) ≡ some (entry now key res)
  unfolding set_idempotent prune drop_key
  find_cached-set_idempotent now key res cs h =
      let live : Cached env → Bool = λ c. not (ltb c.expiry now) in
      let olds = drop_key env key cs in
      let news = entry now key res ∷ [] in
      let kept : select live (olds ++ news) ≡ select live olds ++ news =
        select-append live olds news ∙ ap (λ z. select live olds ++ z) (ground arith) in
      let small : length (select live olds ++ news) ≤ max_entries = omega (
        arith,
        length-append (select live olds) news,
        length-select live olds,
        length-select (λ c. not (str_eq c.key key)) cs,
      ) in
      ap (λ z. find_cached env key (evict env (length z) z)) kept
      ∙ ap (find_cached env key)
          (evict-small (length (select live olds ++ news)) (select live olds ++ news) small)
      ∙ find_cached-append key (select live olds) (entry now key res)
          (find_cached-drop_key live key cs) refl

  pub replay_lem :
      (inp : Inputs) (user key : String) (req : InitiateRequest fl) (s : Service env) (u : User)
      (c : Cached env)
      → s.users user ≡ some u
      → str_eq key "" ≡ false
      → find_cached env (cache_key_of env user key) s.idempotency ≡ some c
      → ltb inp.now c.expiry ≡ true
      → initiate_transaction env inp user key req s ≡ (s, done c.result)
  unfolding initiate_transaction initiate_user initiate_cached
  replay_lem inp user key req s u c k n f l =
      ap (λ u. initiate_user env inp user key req u s) k
      ∙ ap
          (λ b.
            if b
            then (s, failed key_missing)
            else initiate_cached env inp user key (cache_key_of env user key) req
                (find_cached env (cache_key_of env user key) s.idempotency) s)
          n
      ∙ ap (λ c. initiate_cached env inp user key (cache_key_of env user key) req c s) f
      ∙ rw l refl
