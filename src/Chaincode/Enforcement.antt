-- ===== src/Chaincode/Enforcement.antt =====
-- What the rules of the chaincode keep out of the log (main.go, `enforceRules`, `RecordEvent`).
use hybrid_quantum_banking_b.Base.{
  ℕ, ◌+◌, ◌<◌, ◌≡◌, ◌≢◌, refl, sym, ap, ◌∙◌, String, eq_iff, eq_refl, Bool, true, false, List, [],
  ◌∷◌, ◌++◌, All, some, arith, select, inl, inr, ◌⊎◌, lt→ltb,
}
use hybrid_quantum_banking_b.Base.Text.{trim_space}
use hybrid_quantum_banking_b.Chaincode.Events.{Runtime, Event, query_user, of_user}
use hybrid_quantum_banking_b.Chaincode.Rules.{
  blocks, repeats, revoked_after, cooling_off_rule, consent_revocation_rule, double_spend_rule,
  enforce_rules,
}
use hybrid_quantum_banking_b.Chaincode.Contract.{
  World, RecordCall, RecordError, refused, record_event, resolve_window, payload_of, sealed, draft,
}
use hybrid_quantum_banking_b.Chaincode.Log.{Accepted, record_event-cases, candidate}
use hybrid_quantum_banking_b.Chaincode.Queries.{
  Reachable, Reachable-Represents, query_user-log, own-middle,
}

blocks-middle :
    (window : ℕ) (ev prev : Event) (xs ys : List Event)
    → prev.user_id ≡ ev.user_id
    → prev.action ≡ "transaction_blocked"
    → ev.timestamp < prev.timestamp + window
    → blocks window ev (xs ++ prev ∷ ys) ≡ true
unfolding blocks
blocks-middle window ev prev [] ys u a t = rw (u, a, eq_refl ev.user_id) (ground arith)
blocks-middle window ev prev (x ∷ xs) ys u a t =
    ground (arith, blocks-middle window ev prev xs ys u a t)

repeats-middle :
    (ev prev : Event) (xs ys : List Event)
    → prev.user_id ≡ ev.user_id
    → prev.action ≡ "transaction_initiated"
    → prev.payload_hash ≡ ev.payload_hash
    → prev.timestamp ≢ ev.timestamp
    → repeats ev (xs ++ prev ∷ ys) ≡ true
unfolding repeats
repeats-middle ev prev [] ys u a p t =
    rw (u, a, p, eq_refl ev.user_id, eq_refl ev.payload_hash) (ground arith)
repeats-middle ev prev (x ∷ xs) ys u a p t = ground (arith, repeats-middle ev prev xs ys u a p t)

-- An event that neither grants nor updates the consent.
abbrev pub KeepsRevoked : Event → Type 0
KeepsRevoked e = (e.action ≢ "consent_granted") × (e.action ≢ "consent_updated")

revoked_after-true :
    (ev : Event) (ys : List Event) → All KeepsRevoked ys → revoked_after true ev ys ≡ true
unfolding revoked_after
revoked_after-true ev [] h = refl
revoked_after-true ev (y ∷ ys) h = ground (
  arith,
  eq_iff y.action "consent_granted",
  eq_iff y.action "consent_updated",
  revoked_after-true ev ys h.1,
  h.0,
)

revoked_after-middle :
    (ev prev : Event) (xs ys : List Event) (revoked : Bool)
    → prev.user_id ≡ ev.user_id
    → prev.action ≡ "consent_revoked"
    → prev.timestamp < ev.timestamp
    → All KeepsRevoked ys
    → revoked_after revoked ev (xs ++ prev ∷ ys) ≡ true
unfolding revoked_after
revoked_after-middle ev prev [] ys revoked u a t h =
    rw (u, a, eq_refl ev.user_id, lt→ltb prev.timestamp ev.timestamp t) (revoked_after-true ev ys h)
revoked_after-middle ev prev (x ∷ xs) ys revoked u a t h =
    revoked_after-middle ev prev xs ys _ u a t h

some-injective : {x y : List Event} → some x ≡ some y → x ≡ y
some-injective h = cc

queried-valid_key :
    (rt : Runtime) (user : String) (store history : List Event)
    → query_user rt user store ≡ some history
    → rt.valid_key user ≡ true
unfolding query_user
queried-valid_key rt user store history h = ground arith

refused-unless :
    (rt : Runtime) (c : RecordCall) (w : World)
    → (Accepted rt c w → true ≡ false)
    → (e : RecordError) × (record_event rt c w ≡ (w, refused e))
refused-unless rt c w clash = elim (record_event-cases rt c w) [
  | inl h ↦ h
  | inr ok ↦ absurd (ground (arith, clash ok))
]

module _ (rt : Runtime) (window now : ℕ) (ev : Event) (history : List Event) where
  -- A failing rule ends the transaction, wherever it stands in the list.
  enforce_rules-fails :
      ((cooling_off_rule rt window now ev history).passed ≡ false)
        ⊎ ((consent_revocation_rule now ev history).passed ≡ false)
        ⊎ ((double_spend_rule now ev history).passed ≡ false)
      → (enforce_rules rt window now ev history).passed ≡ false
  unfolding enforce_rules
  enforce_rules-fails h = ground arith

  cooling_off-fails :
      (ev.action ≡ "transaction_initiated") ⊎ (ev.action ≡ "transaction_override")
      → blocks window ev history ≡ true
      → (cooling_off_rule rt window now ev history).passed ≡ false
  unfolding cooling_off_rule
  cooling_off-fails (inl a) b = rw (b, a) refl
  cooling_off-fails (inr a) b = rw (b, a) (ground arith)

  consent-fails :
      (ev.action ≡ "account_aggregator_sync") ⊎ (ev.action ≡ "data_exported")
      → revoked_after false ev history ≡ true
      → (consent_revocation_rule now ev history).passed ≡ false
  unfolding consent_revocation_rule
  consent-fails (inl a) b = rw (b, a) (ground arith)
  consent-fails (inr a) b = rw (b, a) (ground arith)

  double_spend-fails :
      ev.action ≡ "transaction_initiated"
      → repeats ev history ≡ true
      → (double_spend_rule now ev history).passed ≡ false
  unfolding double_spend_rule
  double_spend-fails a b = rw (b, a) refl

module _ (rt : Runtime) (c : RecordCall) {w : World} (prev : Event) (xs ys : List Event) where
  -- The history that an accepted call is judged by.
  history-middle :
      Reachable rt w (xs ++ prev ∷ ys)
      → prev.user_id ≡ trim_space c.user_id
      → (ok : Accepted rt c w)
      → ok.history ≡ select (of_user prev.user_id) xs ++ prev ∷ select (of_user prev.user_id) ys
  history-middle r u ok =
      let rep = Reachable-Represents rt r in
      some-injective (
        sym ok.queried
        ∙ query_user-log rt rep (trim_space c.user_id)
            (queried-valid_key rt (trim_space c.user_id) w.store ok.history ok.queried)
        ∙ ap some (ap (λ u. select (of_user u) (xs ++ prev ∷ ys)) (sym u) ∙ own-middle prev xs ys))

  -- Where the rules fail on the history, no call can be accepted.
  refused-middle :
      Reachable rt w (xs ++ prev ∷ ys)
      → prev.user_id ≡ trim_space c.user_id
      → (enforce_rules rt
          (resolve_window rt w)
          c.now
          (candidate rt c w)
          (select (of_user prev.user_id) xs ++ prev ∷ select (of_user prev.user_id) ys)).passed
        ≡ false
      → (e : RecordError) × (record_event rt c w ≡ (w, refused e))
  refused-middle r u f = refused-unless rt c w (λ ok.
      sym ok.passed
      ∙ ap (λ h. (enforce_rules rt (resolve_window rt w) c.now (candidate rt c w) h).passed)
          (history-middle r u ok)
      ∙ f)

-- After a blocked transaction of the user was recorded, RecordEvent refuses every new transaction
-- and every override of the user until the configured window is over, and writes nothing.
pub cooling_off_refuses :
    (rt : Runtime) (c : RecordCall) (w : World) (prev : Event) (xs ys : List Event)
    → Reachable rt w (xs ++ prev ∷ ys)
    → prev.user_id ≡ trim_space c.user_id
    → prev.action ≡ "transaction_blocked"
    → (trim_space c.action ≡ "transaction_initiated")
      ⊎ (trim_space c.action ≡ "transaction_override")
    → c.now < prev.timestamp + resolve_window rt w
    → (e : RecordError) × (record_event rt c w ≡ (w, refused e))
unfolding sealed draft
cooling_off_refuses rt c w prev xs ys r u b a t =
    let own = of_user prev.user_id in
    let history = select own xs ++ prev ∷ select own ys in
    let ev = candidate rt c w in
    refused-middle rt c prev xs ys r u (
      enforce_rules-fails rt (resolve_window rt w) c.now ev history (
        inl (
          cooling_off-fails rt (resolve_window rt w) c.now ev history a
            (blocks-middle (resolve_window rt w) ev prev (select own xs) (select own ys) u b t))))

-- After a transaction was recorded, RecordEvent refuses every transaction of the user with the
-- same payload hash whose timestamp is another one, and writes nothing.
pub double_spend_refuses :
    (rt : Runtime) (c : RecordCall) (w : World) (prev : Event) (xs ys : List Event)
    → Reachable rt w (xs ++ prev ∷ ys)
    → prev.user_id ≡ trim_space c.user_id
    → prev.action ≡ "transaction_initiated"
    → trim_space c.action ≡ "transaction_initiated"
    → prev.payload_hash ≡ rt.sha256_hex (payload_of c)
    → prev.timestamp ≢ c.now
    → (e : RecordError) × (record_event rt c w ≡ (w, refused e))
unfolding sealed draft
double_spend_refuses rt c w prev xs ys r u b a p t =
    let own = of_user prev.user_id in
    let history = select own xs ++ prev ∷ select own ys in
    let ev = candidate rt c w in
    refused-middle rt c prev xs ys r u (
      enforce_rules-fails rt (resolve_window rt w) c.now ev history (
        inr (
          inr (
            double_spend-fails rt (resolve_window rt w) c.now ev history a
              (repeats-middle ev prev (select own xs) (select own ys) u b p t)))))

-- After a revocation of the user's consent was recorded, and no later event of the user grants or
-- updates it, RecordEvent refuses every later account synchronisation and data export of the
-- user, and writes nothing.
pub consent_refuses :
    (rt : Runtime) (c : RecordCall) (w : World) (prev : Event) (xs ys : List Event)
    → Reachable rt w (xs ++ prev ∷ ys)
    → prev.user_id ≡ trim_space c.user_id
    → prev.action ≡ "consent_revoked"
    → All KeepsRevoked (select (of_user prev.user_id) ys)
    → (trim_space c.action ≡ "account_aggregator_sync") ⊎ (trim_space c.action ≡ "data_exported")
    → prev.timestamp < c.now
    → (e : RecordError) × (record_event rt c w ≡ (w, refused e))
unfolding sealed draft
consent_refuses rt c w prev xs ys r u b k a t =
    let own = of_user prev.user_id in
    let history = select own xs ++ prev ∷ select own ys in
    let ev = candidate rt c w in
    refused-middle rt c prev xs ys r u (
      enforce_rules-fails rt (resolve_window rt w) c.now ev history (
        inr (
          inl (
            consent-fails rt (resolve_window rt w) c.now ev history a
              (revoked_after-middle ev prev (select own xs) (select own ys) false u b t k)))))
