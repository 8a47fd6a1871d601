-- ===== src/Transfers/Kept.antt =====
-- A cached result while others are stored and dropped (service.go, `setIdempotentLocked`).
use hybrid_quantum_banking_b.Base.{
  ℕ, suc, ◌+◌, ◌≤◌, ◌<◌, ◌≡◌, ◌≢◌, refl, sym, ap, subst, ◌∙◌, String, str_eq, eq_iff, Bool, true,
  false, not, some, List, [], ◌∷◌, ◌++◌, arith, length, select, length-append, ltb,
}
use hybrid_quantum_banking_b.Base.Maps.{str_eq_ne}
use hybrid_quantum_banking_b.Transfers.State.{Env, TransactionResult, Cached}
use hybrid_quantum_banking_b.Transfers.Idempotency.{
  max_entries, find_cached, drop_key, evict, prune, set_idempotent,
}
use hybrid_quantum_banking_b.Transfers.Cached.{entry, evict-small, length-select}

module _ (env : Env) where
  open env use {fl}

  find_cached-select :
      (p : Cached env → Bool) (key : String) (cs : List (Cached env)) (c : Cached env)
      → p c ≡ true
      → find_cached env key cs ≡ some c
      → find_cached env key (select p cs) ≡ some c
  unfolding find_cached
  find_cached-select p key [] c l h = h
  find_cached-select p key (x ∷ cs) c l h = ground (arith, l, h, find_cached-select p key cs c l)

  find_cached-key :
      (key : String) (cs : List (Cached env)) (c : Cached env)
      → find_cached env key cs ≡ some c
      → c.key ≡ key
  unfolding find_cached
  find_cached-key key [] c h = absurd (ground (arith, h))
  find_cached-key key (x ∷ cs) c h = ground (arith, h, eq_iff x.key key, find_cached-key key cs c)

  find_cached-prefix :
      (key : String) (xs ys : List (Cached env)) (c : Cached env)
      → find_cached env key xs ≡ some c
      → find_cached env key (xs ++ ys) ≡ some c
  unfolding find_cached
  find_cached-prefix key [] ys c h = absurd (ground (arith, h))
  find_cached-prefix key (x ∷ xs) ys c h = ground (arith, h, find_cached-prefix key xs ys c)

  find_cached-drop_other :
      (key other : String) (cs : List (Cached env)) (c : Cached env)
      → key ≢ other
      → find_cached env key cs ≡ some c
      → find_cached env key (drop_key env other cs) ≡ some c
  unfolding drop_key
  find_cached-drop_other key other cs c n h =
      find_cached-select (λ x. not (str_eq x.key other)) key cs c
        (rw (find_cached-key key cs c h, str_eq_ne key other n) refl) h

  -- The entry of a key, and the room left for others.
  pub record Holds (key : String) (c : Cached env) (room : ℕ) (cs : List (Cached env))
      : Type 0 where
    pub found : find_cached env key cs ≡ some c
    pub roomy : room + length cs ≤ max_entries

  -- Storing a result under another key keeps the entry, while it lives and there is room.
  pub set_idempotent-Holds :
      (now room : ℕ) (key other : String) (res : TransactionResult fl) (c : Cached env)
      (cs : List (Cached env))
      → key ≢ other
      → ltb c.expiry now ≡ false
      → Holds key c (suc room) cs
      → Holds key c room (set_idempotent env now other res cs)
  unfolding set_idempotent prune drop_key
  set_idempotent-Holds now room key other res c cs n l h =
      let live : Cached env → Bool = λ x. not (ltb x.expiry now) in
      let all = drop_key env other cs ++ entry env now other res ∷ [] in
      let kept = select live all in
      let short : suc (length kept) ≤ suc (suc (length cs)) = omega (
        arith,
        length-append (drop_key env other cs) (entry env now other res ∷ []),
        length-select live all,
        length-select (λ x. not (str_eq x.key other)) cs,
      ) in
      let same : evict env (length kept) kept ≡ kept =
        evict-small env (length kept) kept (omega (arith, short, h.roomy)) in
      record {
        found =
            ap (find_cached env key) same
            ∙ find_cached-select live key all c (rw l refl) (
                find_cached-prefix key (drop_key env other cs) (entry env now other res ∷ []) c
                  (find_cached-drop_other key other cs c n h.found));
        roomy =
            subst (λ z. room + length z ≤ max_entries) (sym same) (omega (arith, short, h.roomy));
      }

  pub Holds-less :
      (key : String) (c : Cached env) (room : ℕ) (cs ds : List (Cached env))
      → ds ≡ cs
      → Holds key c (suc room) cs
      → Holds key c room ds
  Holds-less key c room cs ds e h =
      subst (Holds key c room) (sym e) (record { found = h.found; roomy = omega (arith, h.roomy) })

  pub drop_key-Holds :
      (key other : String) (c : Cached env) (room : ℕ) (cs : List (Cached env))
      → key ≢ other
      → Holds key c room cs
      → Holds key c room (drop_key env other cs)
  drop_key-Holds key other c room cs n h = record {
    found = find_cached-drop_other key other cs c n h.found;
    roomy =
        unfold drop_key in omega (arith, length-select (λ x. not (str_eq x.key other)) cs, h.roomy);
  }

  pub length-set_idempotent :
      (now : ℕ) (key : String) (res : TransactionResult fl) (cs : List (Cached env))
      → length cs < max_entries
      → length (set_idempotent env now key res cs) ≤ suc (length cs)
  unfolding set_idempotent prune drop_key
  length-set_idempotent now key res cs h =
      let live : Cached env → Bool = λ x. not (ltb x.expiry now) in
      let all = drop_key env key cs ++ entry env now key res ∷ [] in
      let kept = select live all in
      let short : length kept ≤ suc (length cs) = omega (
        arith,
        length-append (drop_key env key cs) (entry env now key res ∷ []),
        length-select live all,
        length-select (λ x. not (str_eq x.key key)) cs,
      ) in
      subst (λ z. length z ≤ suc (length cs))
        (sym (evict-small env (length kept) kept (omega (arith, short, h)))) short
