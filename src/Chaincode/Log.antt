-- ===== src/Chaincode/Log.antt =====
-- What a call of `RecordEvent` (main.go) does to the store and the chains.
use hybrid_quantum_banking_b.Base.{
  ℕ, ◌+◌, ◌<◌, ◌≡◌, refl, sym, ap, ◌∙◌, subst, String, str_eq, eq_iff, eq_refl, true, false, List,
  [], ◌∷◌, ◌++◌, All, All-append, some, arith, select, select-append, append-nil, Bool-cases,
  Option-cases, inl, inr, ◌⊎◌,
}
use hybrid_quantum_banking_b.Base.Int64.{modulus}
use hybrid_quantum_banking_b.Base.Maps.{put}
use hybrid_quantum_banking_b.Blockchain.Events.{RuleResult}
use hybrid_quantum_banking_b.Base.Text.{trim_space}
use hybrid_quantum_banking_b.Chaincode.Events.{
  Runtime, Event, valid_categories, is_category, put_event, has_key, query_user, of_user,
}
use hybrid_quantum_banking_b.Chaincode.Rules.{enforce_rules}
use hybrid_quantum_banking_b.Chaincode.Contract.{
  World, resolve_window, RecordCall, RecordError, RecordResult, recorded, refused, user_required,
  action_required, unknown_category, invalid_payload, invalid_key, rejected, sealed, commit,
  record_with, record_event, payload_of, event_hash, hash_input, draft,
}
use hybrid_quantum_banking_b.Chaincode.Chain.{
  IsChain, IsChain-bounded, IsChain-snoc, has_key-fresh, put_event-fresh,
}

-- What a call adds to the log.
abbrev pub written : RecordResult → List Event
written (recorded ev) = ev ∷ []
written (refused _) = []

-- The event that a call would record, its history given.
abbrev pub candidate : Runtime → RecordCall → World → Event
candidate rt c w = sealed rt c (w.heads (trim_space c.user_id))

-- What an accepted call has passed.
pub record Accepted (rt : Runtime) (c : RecordCall) (w : World) : Type 0 where
  pub history : List Event
  pub queried : query_user rt (trim_space c.user_id) w.store ≡ some history
  pub categorised : is_category valid_categories (trim_space c.category) ≡ true
  pub passed :
      (enforce_rules rt (resolve_window rt w) c.now (candidate rt c w) history).passed ≡ true
  pub committed :
      record_event rt c w
      ≡ commit
          (enforce_rules rt (resolve_window rt w) c.now (candidate rt c w) history)
          (candidate rt c w)
          w

record_with-cases :
    (rt : Runtime) (c : RecordCall) (w : World)
    → is_category valid_categories (trim_space c.category) ≡ true
    → record_event rt c w ≡ record_with rt c w (query_user rt (trim_space c.user_id) w.store)
    → ((e : RecordError) × (record_event rt c w ≡ (w, refused e))) ⊎ Accepted rt c w
record_with-cases rt c w v q = elim (Option-cases (query_user rt (trim_space c.user_id) w.store)) [
  | inl n ↦ inl (invalid_key, q ∙ ap (record_with rt c w) n ∙ unfold record_with in refl)
  | inr (history, h) ↦
      let verdict = enforce_rules rt (resolve_window rt w) c.now (candidate rt c w) history in
      elim (Bool-cases verdict.passed) [
        | inl y ↦ inr (record {
          history = history;
          queried = h;
          categorised = v;
          passed = y;
          committed = q ∙ ap (record_with rt c w) h ∙ unfold record_with in rw y refl;
        })
        | inr n ↦
            inl (rejected verdict, q ∙ ap (record_with rt c w) h ∙ unfold record_with in rw n refl)
      ]
]

-- Every call is refused and changes nothing, or is accepted.
pub record_event-cases :
    (rt : Runtime) (c : RecordCall) (w : World)
    → ((e : RecordError) × (record_event rt c w ≡ (w, refused e))) ⊎ Accepted rt c w
record_event-cases rt c w = elim (Bool-cases (str_eq (trim_space c.user_id) "")) [
  | inl a ↦ inl (user_required, unfold record_event in rw a refl)
  | inr a ↦ elim (Bool-cases (str_eq (trim_space c.action) "")) [
    | inl b ↦ inl (action_required, unfold record_event in rw (a, b) refl)
    | inr b ↦ elim (Bool-cases (is_category valid_categories (trim_space c.category))) [
      | inr v ↦ inl (unknown_category, unfold record_event in rw (a, b, v) refl)
      | inl v ↦ elim (Bool-cases (rt.valid_json (payload_of c))) [
        | inr j ↦ inl (invalid_payload, unfold record_event in rw (a, b, v, j) refl)
        | inl j ↦ record_with-cases rt c w v (unfold record_event in rw (a, b, v, j) refl)
      ]
    ]
  ]
]

-- The store holds the log, in its order; each user's events in it form the user's chain.
pub record Represents (rt : Runtime) (w : World) (log : List Event) : Type 0 where
  pub same : w.store ≡ log
  pub valid : All (λ e. is_category valid_categories e.category ≡ true) log
  pub chains : (user : String) → IsChain rt 0 "" (select (of_user user) log) (w.heads user)

-- The event of a call that the rules have judged.
abbrev pub judged : Runtime → RecordCall → World → RuleResult → Event
judged rt c w result = record (candidate rt c w) { smart_contract = result }

module _ (rt : Runtime) {w : World} {log : List Event} (rep : Represents rt w log) where
  judged-seq :
      (c : RecordCall) (result : RuleResult)
      → (w.heads (trim_space c.user_id)).seq + 1 < modulus
      → (judged rt c w result).seq ≡ (w.heads (trim_space c.user_id)).seq + 1
  unfolding sealed draft
  judged-seq c result h = omega arith

  fresh-at :
      (user category : String) (m : ℕ)
      → m ≡ (w.heads user).seq + 1
      → All (λ e. has_key user category m e ≡ false) log
  fresh-at user category m q =
      subst (λ n. All (λ e. has_key user category n e ≡ false) log) (sym q)
        (has_key-fresh user category (w.heads user).seq log
          (IsChain-bounded rt (w.heads user) 0 "" (select (of_user user) log) (rep.chains user)))

  pub store-put :
      (c : RecordCall) (result : RuleResult)
      → (w.heads (trim_space c.user_id)).seq + 1 < modulus
      → put_event (judged rt c w result) w.store ≡ log ++ judged rt c w result ∷ []
  store-put c result h =
      ap (put_event (judged rt c w result)) rep.same
      ∙ put_event-fresh (judged rt c w result) log (
          unfold sealed draft in
          fresh-at (trim_space c.user_id) (trim_space c.category) _ (judged-seq c result h))

  IsChain-own :
      (c : RecordCall) (result : RuleResult)
      → (w.heads (trim_space c.user_id)).seq + 1 < modulus
      → IsChain rt 0 ""
          (select (of_user (trim_space c.user_id)) log ++ judged rt c w result ∷ [])
          (record { seq = (judged rt c w result).seq; hash = (judged rt c w result).hash })
  IsChain-own c result h =
      let user = trim_space c.user_id in
      IsChain-snoc rt (w.heads user) 0 "" (select (of_user user) log) (judged rt c w result)
        (rep.chains user) (judged-seq c result h) (unfold sealed draft in refl)
        (unfold sealed draft event_hash hash_input in refl)

  own-event :
      (c : RecordCall) (result : RuleResult)
      → of_user (trim_space c.user_id) (judged rt c w result) ≡ true
  unfolding of_user sealed draft
  own-event c result = eq_refl (trim_space c.user_id)

  other-event :
      (c : RecordCall) (result : RuleResult) (user : String)
      → str_eq user (trim_space c.user_id) ≡ false
      → of_user user (judged rt c w result) ≡ false
  unfolding of_user sealed draft
  other-event c result user n =
      ground (arith, eq_iff user (trim_space c.user_id), eq_iff (trim_space c.user_id) user)

  -- The chain of every user after an accepted call.
  IsChain-put :
      (c : RecordCall) (result : RuleResult)
      → (w.heads (trim_space c.user_id)).seq + 1 < modulus
      → (user : String)
      → IsChain rt 0 ""
          (select (of_user user) log ++ select (of_user user) (judged rt c w result ∷ []))
          (put w.heads
            (trim_space c.user_id)
            (record { seq = (judged rt c w result).seq; hash = (judged rt c w result).hash })
            user)
  IsChain-put c result h user = elim (Bool-cases (str_eq user (trim_space c.user_id))) [
    | inl y ↦
        subst
          (λ u.
            IsChain rt 0 ""
              (select (of_user u) log ++ select (of_user u) (judged rt c w result ∷ []))
              (put w.heads (trim_space c.user_id)
                (record { seq = (judged rt c w result).seq; hash = (judged rt c w result).hash })
                u))
          (sym ((eq_iff user (trim_space c.user_id)).0 y))
          (rw (own-event c result, eq_refl (trim_space c.user_id)) (IsChain-own c result h))
    | inr n ↦
        rw (other-event c result user n, n, append-nil (select (of_user user) log))
          (rep.chains user)
  ]

  -- An accepted call adds its event to the log.
  pub Represents-commit :
      (c : RecordCall) (result : RuleResult)
      → (w.heads (trim_space c.user_id)).seq + 1 < modulus
      → is_category valid_categories (trim_space c.category) ≡ true
      → Represents rt (commit result (candidate rt c w) w).0 (log ++ judged rt c w result ∷ [])
  Represents-commit c result h v = record {
    same = unfold commit in store-put c result h;
    valid =
        All-append (λ e. is_category valid_categories e.category ≡ true) log
          (judged rt c w result ∷ []) rep.valid (unfold sealed draft in v, tt);
    chains = λ user.
        rw (select-append (of_user user) log (judged rt c w result ∷ []))
          (unfold commit sealed draft in IsChain-put c result h user);
  }

  pub commit-written :
      (c : RecordCall) (result : RuleResult)
      → (commit result (candidate rt c w) w).1 ≡ recorded (judged rt c w result)
  unfolding commit
  commit-written c result = refl

  -- Every call keeps the store a log of what was recorded.
  pub Represents-record_event :
      (c : RecordCall)
      → (w.heads (trim_space c.user_id)).seq + 1 < modulus
      → Represents rt (record_event rt c w).0 (log ++ written (record_event rt c w).1)
  Represents-record_event c h = elim (record_event-cases rt c w) [
    | inl (e, q) ↦ rw (q, append-nil log) rep
    | inr ok ↦
        let verdict = enforce_rules rt (resolve_window rt w) c.now (candidate rt c w) ok.history in
        rw (ok.committed, commit-written c verdict) (Represents-commit c verdict h ok.categorised)
  ]
