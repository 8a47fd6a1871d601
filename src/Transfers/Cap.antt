-- ===== src/Transfers/Cap.antt =====
-- The cap of the cached results (service.go, `pruneIdempotencyLocked`).
use hybrid_quantum_banking_b.Base.{
  ℕ, zero, suc, ◌≤◌, ◌<◌, ◌≡◌, ◌⊎◌, inl, inr, refl, String, str_eq, eq_refl, Bool, true, false, not,
  List, [], ◌∷◌, arith, length, select, All, ltb, leb, leb→le, if◌then◌else◌, Bool-cases,
}
use hybrid_quantum_banking_b.Transfers.State.{Env, Cached}
use hybrid_quantum_banking_b.Transfers.Idempotency.{max_entries, drop_key, soonest, evict, prune}

module _ (env : Env) where
  -- No entry has the empty key, which ends the eviction early.
  abbrev pub AreKeyed : List (Cached env) → Type 0
  AreKeyed = All (λ c. str_eq c.key "" ≡ false)

  length-drop_key :
      (key : String) (cs : List (Cached env)) → length (drop_key env key cs) ≤ length cs
  unfolding drop_key
  length-drop_key key [] = omega arith
  length-drop_key key (c ∷ cs) = ground (arith, length-drop_key key cs)

  -- Some entry has that key.
  abbrev Has : String → List (Cached env) → Type 0
  Has key [] = ⊥
  Has key (c ∷ cs) = (c.key ≡ key) ⊎ Has key cs

  drop_key-shorter :
      (key : String) (cs : List (Cached env))
      → Has key cs
      → length (drop_key env key cs) < length cs
  unfolding drop_key
  drop_key-shorter key [] h = absurd h
  drop_key-shorter key (c ∷ cs) (inl e) = ground (arith, e, eq_refl key, length-drop_key key cs)
  drop_key-shorter key (c ∷ cs) (inr h) = ground (arith, drop_key-shorter key cs h)

  pick-Has :
      (best c : Cached env) (cs : List (Cached env)) (b : Bool)
      → Has (soonest env c cs).key (c ∷ cs)
      → Has (soonest env best cs).key (best ∷ cs)
      → Has (soonest env (if b then c else best) cs).key (best ∷ c ∷ cs)
  pick-Has best c cs true h k = inr h
  pick-Has best c cs false h (inl e) = inl e
  pick-Has best c cs false h (inr k) = inr (inr k)

  soonest-Has :
      (best : Cached env) (cs : List (Cached env)) → Has (soonest env best cs).key (best ∷ cs)
  unfolding soonest
  soonest-Has best [] = inl refl
  soonest-Has best (c ∷ cs) =
      pick-Has best c cs (ltb c.expiry best.expiry) (soonest-Has c cs) (soonest-Has best cs)

  Has-keyed :
      (key : String) (cs : List (Cached env)) → Has key cs → AreKeyed cs → str_eq key "" ≡ false
  Has-keyed key [] h k = absurd h
  Has-keyed key (c ∷ cs) (inl e) k = ground (arith, e, k.0)
  Has-keyed key (c ∷ cs) (inr h) k = Has-keyed key cs h k.1

  select-AreKeyed :
      (p : Cached env → Bool) (cs : List (Cached env)) → AreKeyed cs → AreKeyed (select p cs)
  select-AreKeyed p [] k = tt
  select-AreKeyed p (c ∷ cs) k = ground (arith, select-AreKeyed p cs k.1)

  evict_bounded :
      (rounds : ℕ) (cs : List (Cached env))
      → AreKeyed cs
      → length cs ≤ rounds
      → length (evict env rounds cs) ≤ max_entries
  unfolding evict drop_key
  evict_bounded rounds [] k h = omega arith
  evict_bounded zero (c ∷ cs) k h = absurd (omega arith)
  evict_bounded (suc rounds) (c ∷ cs) k h =
      let s = soonest-Has c cs in
      let key = (soonest env c cs).key in
      let d = drop_key-shorter key (c ∷ cs) s in
      let rest =
        evict_bounded rounds (drop_key env key (c ∷ cs))
          (select-AreKeyed (λ x. not (str_eq x.key key)) (c ∷ cs) k) (omega (arith, d)) in
      elim (Bool-cases (leb (length (c ∷ cs)) max_entries)) [
        | inl l ↦ rw l (leb→le (length (c ∷ cs)) max_entries l)
        | inr l ↦ rw (l, Has-keyed key (c ∷ cs) s k) rest
      ]

  -- After a pruning, at most 10,000 results are cached, if no entry has the empty key: there are
  -- rounds enough.
  pub prune_bounded :
      (now : ℕ) (cs : List (Cached env)) → AreKeyed cs → length (prune env now cs) ≤ max_entries
  unfolding prune
  prune_bounded now cs k =
      let live : Cached env → Bool = λ c. not (ltb c.expiry now) in
      evict_bounded (length (select live cs)) (select live cs) (select-AreKeyed live cs k)
        (omega arith)
