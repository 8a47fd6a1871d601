-- ===== src/Blockchain/Violations.antt =====
-- What the default rules reject, and what is recorded of a rejected event (ledger.go).
use hybrid_quantum_banking_b.Base.{
  ℕ, ◌+◌, ◌<◌, ◌≡◌, refl, String, eq_refl, true, false, List, [], ◌∷◌, ◌++◌, All, none, some, arith,
  lt→ltb, if◌then◌else◌, ◌≢◌,
}
use hybrid_quantum_banking_b.Base.Maps.{str_eq_ne}
use hybrid_quantum_banking_b.Blockchain.Events.{
  Event, Host, Rule, RuleResult, six_hours, cooling_off_rule, double_spend_rule,
  consent_revocation_rule, default_rules, within_window, events_by_user_and_action,
  event_by_payload_hash, index_key,
}
use hybrid_quantum_banking_b.Blockchain.Writes.{
  run_rules, new_event, is_empty, write_event_in_memory, write_event_strict, WriteResult, written,
  violation,
}
use hybrid_quantum_banking_b.Blockchain.Checks.{verify_cooling_off}
use hybrid_quantum_banking_b.Blockchain.Chain.{
  recorded, recorded-SameBody, write_event_in_memory-events,
}

abbrev pub IsViolation : WriteResult → Type 0
IsViolation (violation _ _) = Unit
IsViolation _ = ⊥

-- A strict write that reports a violation has appended the event all the same.
pub strict_violation_recorded :
    (host : Host) (rules : List Rule) (now : ℕ) (user action resource payload : String)
    (es : List Event)
    → IsViolation (write_event_strict host rules none now user action resource (some payload) es).1
    → (write_event_strict host rules none now user action resource (some payload) es).0
      ≡ es ++ recorded host rules now user action resource payload es ∷ []
unfolding write_event_strict
strict_violation_recorded host rules now user action resource payload es h =
    write_event_in_memory-events host rules now user action resource payload es

within_window-append :
    (now : ℕ) (xs : List Event) (e : Event) (ys : List Event)
    → now < e.timestamp + six_hours
    → within_window now (xs ++ e ∷ ys) ≡ true
unfolding within_window
within_window-append now [] e ys h = ground arith
within_window-append now (x ∷ xs) e ys h = ground (arith, within_window-append now xs e ys h)

events_by_user_and_action-append :
    (user action : String) (xs : List Event) (e : Event) (ys : List Event)
    → e.user_id ≡ user
    → e.action ≡ action
    → events_by_user_and_action user action (xs ++ e ∷ ys)
      ≡ events_by_user_and_action user action xs ++ e ∷ events_by_user_and_action user action ys
unfolding events_by_user_and_action
events_by_user_and_action-append user action [] e ys p q =
    rw (p, q, eq_refl (index_key user action))
events_by_user_and_action-append user action (x ∷ xs) e ys p q =
    ground (arith, events_by_user_and_action-append user action xs e ys p q)

cooling_off_rule-fails :
    (now : ℕ) (ev : Event) (xs : List Event) (e : Event) (ys : List Event)
    → ev.action ≡ "transaction_initiated"
    → e.user_id ≡ ev.user_id
    → e.action ≡ "transaction_blocked"
    → ev.timestamp < e.timestamp + six_hours
    → (cooling_off_rule now ev (xs ++ e ∷ ys)).passed ≡ false
unfolding cooling_off_rule
cooling_off_rule-fails now ev xs e ys a u b t =
    rw (a, events_by_user_and_action-append ev.user_id "transaction_blocked" xs e ys u b)
      (rw (
        within_window-append ev.timestamp
          (events_by_user_and_action ev.user_id "transaction_blocked" xs) e
          (events_by_user_and_action ev.user_id "transaction_blocked" ys) t))

is_empty-append : (vs : List String) (v : String) → is_empty (vs ++ v ∷ []) ≡ false
is_empty-append [] v = refl
is_empty-append (x ∷ vs) v = refl

-- Once there is a violation it is never taken back.
run_rules-is_empty :
    (now : ℕ) (rules : List Rule) (es : List Event) (ev : Event) (vs : List String)
    → is_empty vs ≡ false
    → is_empty (run_rules now rules es ev vs).1 ≡ false
unfolding run_rules
run_rules-is_empty now [] es ev vs h = h
run_rules-is_empty now (rule ∷ rules) es ev vs h =
    let r = rule now ev es in
    let more = if r.passed then vs else vs ++ r.violation ∷ [] in
    run_rules-is_empty now rules es (record ev { smart_contract = r }) more
      (ground (arith, is_empty-append vs r.violation))

-- A rule that rejects the event whatever the rules before it said makes the write a violation.
run_rules-rejects :
    (now : ℕ) (before : List Rule) (rule : Rule) (after : List Rule) (es : List Event) (ev : Event)
    (vs : List String)
    → ((r : RuleResult) → (rule now (record ev { smart_contract = r }) es).passed ≡ false)
    → is_empty (run_rules now (before ++ rule ∷ after) es ev vs).1 ≡ false
unfolding run_rules
run_rules-rejects now [] rule after es ev vs h =
    let r = rule now ev es in
    let more = if r.passed then vs else vs ++ r.violation ∷ [] in
    run_rules-is_empty now after es (record ev { smart_contract = r }) more
      (rw (h ev.smart_contract) (is_empty-append vs r.violation))
run_rules-rejects now (first ∷ before) rule after es ev vs h =
    let r = first now ev es in
    run_rules-rejects now before rule after es (record ev { smart_contract = r })
      (if r.passed then vs else vs ++ r.violation ∷ []) h

strict_rejects :
    (host : Host) (before : List Rule) (rule : Rule) (after : List Rule) (now : ℕ)
    (user action resource payload : String) (es : List Event)
    → ((r : RuleResult)
        → (rule now
            (record (new_event host now user action resource payload es) { smart_contract = r })
            es).passed
          ≡ false)
    → IsViolation
        (write_event_strict host
          (before ++ rule ∷ after)
          none
          now
          user
          action
          resource
          (some payload)
          es).1
unfolding write_event_strict
strict_rejects host before rule after now user action resource payload es h =
    rw
      (run_rules-rejects now before rule after es
        (new_event host now user action resource payload es) [] h)
      tt

-- Within 6 hours of a recorded blocked transaction of a user, wherever it stands in the chain, a
-- strict write of a new transaction of that user is a violation.
pub cooling_off_rejects :
    (host : Host) (now : ℕ) (user resource payload : String) (xs : List Event) (e : Event)
    (ys : List Event)
    → e.user_id ≡ user
    → e.action ≡ "transaction_blocked"
    → now < e.timestamp + six_hours
    → IsViolation
        (write_event_strict host default_rules none now user "transaction_initiated" resource
          (some payload)
          (xs ++ e ∷ ys)).1
unfolding default_rules new_event
cooling_off_rejects host now user resource payload xs e ys u b t =
    strict_rejects host [] cooling_off_rule (consent_revocation_rule ∷ double_spend_rule ∷ []) now
      user "transaction_initiated" resource payload (xs ++ e ∷ ys)
      (λ r.
        cooling_off_rule-fails now
          (record (new_event host now user "transaction_initiated" resource payload
            (xs ++ e ∷ ys)) { smart_contract = r })
          xs e ys refl u b t)

-- No event has the user and the payload hash.
abbrev pub IsUnseen : String → String → List Event → Type 0
IsUnseen user hash = All (λ e. index_key e.user_id e.payload_hash ≢ index_key user hash)

event_by_payload_hash-append :
    (user hash : String) (xs : List Event) (e : Event) (ys : List Event)
    → hash ≢ ""
    → e.user_id ≡ user
    → e.payload_hash ≡ hash
    → IsUnseen user hash xs
    → event_by_payload_hash user hash (xs ++ e ∷ ys) ≡ some e
unfolding event_by_payload_hash
event_by_payload_hash-append user hash [] e ys n u p h =
    rw (u, p, str_eq_ne hash "" n, eq_refl (index_key user hash))
event_by_payload_hash-append user hash (x ∷ xs) e ys n u p h =
    rw (str_eq_ne (index_key x.user_id x.payload_hash) (index_key user hash) h.0)
      (ground (arith, event_by_payload_hash-append user hash xs e ys n u p h.1))

double_spend_rule-fails :
    (now : ℕ) (ev : Event) (xs : List Event) (e : Event) (ys : List Event)
    → ev.action ≡ "transaction_initiated"
    → ev.payload_hash ≢ ""
    → e.user_id ≡ ev.user_id
    → e.payload_hash ≡ ev.payload_hash
    → e.action ≡ "transaction_initiated"
    → IsUnseen ev.user_id ev.payload_hash xs
    → (double_spend_rule now ev (xs ++ e ∷ ys)).passed ≡ false
unfolding double_spend_rule
double_spend_rule-fails now ev xs e ys a n u p b h =
    rw (a, event_by_payload_hash-append ev.user_id ev.payload_hash xs e ys n u p h, b)

-- A transaction that a write of either kind recorded, the first of its user with that payload,
-- cannot be recorded again without a violation: a strict write of the same payload, whatever was
-- written in between, is one. (The hash of the payload is not the empty text.)
pub double_spend_rejects :
    (host : Host) (first second : ℕ) (user resource payload : String) (es later : List Event)
    → host.sha256_hex payload ≢ ""
    → IsUnseen user (host.sha256_hex payload) es
    → let e = recorded host default_rules first user "transaction_initiated" resource payload es in
      IsViolation
        (write_event_strict host default_rules none second user "transaction_initiated" resource
          (some payload)
          (es ++ e ∷ later)).1
unfolding default_rules new_event
double_spend_rejects host first second user resource payload es later n h =
    let e = recorded host default_rules first user "transaction_initiated" resource payload es in
    let b =
      recorded-SameBody host default_rules first user "transaction_initiated" resource payload es in
    strict_rejects host (cooling_off_rule ∷ consent_revocation_rule ∷ []) double_spend_rule []
      second user "transaction_initiated" resource payload (es ++ e ∷ later)
      (λ r.
        double_spend_rule-fails second
          (record (new_event host second user "transaction_initiated" resource payload
            (es ++ e ∷ later)) { smart_contract = r })
          es e later refl n b.user b.payload b.act h)

-- The event keeps only what the last rule said. With the default rules, an event of any action but
-- `transaction_initiated` is recorded as passed, also where the cooling-off rule or the consent
-- rule has just rejected it.
pub last_rule_decides :
    (host : Host) (now : ℕ) (user action resource payload : String) (es : List Event)
    → action ≢ "transaction_initiated"
    → (recorded host default_rules now user action resource payload es).smart_contract.passed ≡ true
unfolding write_event_in_memory default_rules double_spend_rule
last_rule_decides host now user action resource payload es h =
    rw (str_eq_ne action "transaction_initiated" h) (ground arith)

verify_cooling_off-append :
    (now : ℕ) (user : String) (xs : List Event) (e : Event) (ys : List Event)
    → e.user_id ≡ user
    → e.action ≡ "transaction_initiated"
    → e.smart_contract.passed ≡ true
    → now < e.timestamp + six_hours
    → verify_cooling_off now user (xs ++ e ∷ ys) ≢ none
unfolding verify_cooling_off
verify_cooling_off-append now user [] e ys u a p t =
    rw (u, a, p, eq_refl user, lt→ltb now (e.timestamp + six_hours) t) (λ e. cc)
verify_cooling_off-append now user (x ∷ xs) e ys u a p t =
    ground (arith, verify_cooling_off-append now user xs e ys u a p t)

abbrev pub IsWritten : WriteResult → Type 0
IsWritten (written _) = Unit
IsWritten _ = ⊥

written-passed :
    (host : Host) (now : ℕ) (user action resource payload : String) (es : List Event)
    → IsWritten
        (write_event_strict host default_rules none now user action resource (some payload) es).1
    → (recorded host default_rules now user action resource payload es).smart_contract.passed ≡ true
unfolding write_event_strict default_rules
written-passed host now user action resource payload es h = ground arith

-- An accepted transaction puts its user into the cooling-off state of the ledger: once a strict
-- write of `transaction_initiated` has passed every rule, `VerifyCoolingOff` reports a period as
-- active at any time in the 6 hours after it, whatever is written later.
pub accepted_is_cooling :
    (host : Host) (now later_now : ℕ) (user resource payload : String) (es later : List Event)
    → IsWritten
        (write_event_strict host default_rules none now user "transaction_initiated" resource
          (some payload)
          es).1
    → later_now < now + six_hours
    → verify_cooling_off later_now user (
        es
        ++ recorded host default_rules now user "transaction_initiated" resource payload es ∷ later)
      ≢ none
unfolding new_event
accepted_is_cooling host now later_now user resource payload es later h t =
    let e = recorded host default_rules now user "transaction_initiated" resource payload es in
    let b =
      recorded-SameBody host default_rules now user "transaction_initiated" resource payload es in
    verify_cooling_off-append later_now user es e later b.user b.act
      (written-passed host now user "transaction_initiated" resource payload es h)
      (omega (arith, b.time))
