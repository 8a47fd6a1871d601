-- ===== src/Blockchain/Chain.antt =====
-- The chains that writes make (ledger.go, `writeEventInMemory`, `VerifyIntegrity`).
use hybrid_quantum_banking_b.Base.{
  ℕ, ◌≡◌, refl, sym, ◌∙◌, ap, String, eq_iff, List, [], ◌∷◌, ◌++◌, none, some, arith, if◌then◌else◌,
}
use hybrid_quantum_banking_b.Blockchain.Events.{Event, Host, Rule}
use hybrid_quantum_banking_b.Blockchain.Writes.{
  run_rules, head_hash, digest_input, new_event, note_violations, write_event_in_memory,
  write_event, write_event_strict,
}
use hybrid_quantum_banking_b.Blockchain.Checks.{intact, verify_from, verify_integrity}

-- Two events that differ at most in what the rules said of them.
pub record SameBody (x y : Event) : Type 0 where
  pub prev : x.prev_hash ≡ y.prev_hash
  pub payload : x.payload_hash ≡ y.payload_hash
  pub user : x.user_id ≡ y.user_id
  pub act : x.action ≡ y.action
  pub res : x.resource ≡ y.resource
  pub time : x.timestamp ≡ y.timestamp
  pub own : x.hash ≡ y.hash

pub run_rules-SameBody :
    (now : ℕ) (rules : List Rule) (events : List Event) (ev : Event) (vs : List String)
    → SameBody (run_rules now rules events ev vs).0 ev
unfolding run_rules
run_rules-SameBody now [] events ev vs = ground arith
run_rules-SameBody now (rule ∷ rules) events ev vs =
    let r = rule now ev events in
    let more = if r.passed then vs else vs ++ r.violation ∷ [] in
    let h = run_rules-SameBody now rules events (record ev { smart_contract = r }) more in
    record {
      prev = h.prev;
      payload = h.payload;
      user = h.user;
      act = h.act;
      res = h.res;
      time = h.time;
      own = h.own;
    }

pub note_violations-SameBody :
    (host : Host) (ev : Event) (vs : List String) → SameBody (note_violations host (ev, vs)).0 ev
note_violations-SameBody host ev vs = ground arith

-- The event that a write records.
abbrev pub recorded : Host → List Rule → ℕ → String → String → String → String → List Event → Event
recorded host rules now user action resource payload events =
    (write_event_in_memory host rules now user action resource payload events).1

pub recorded-SameBody :
    (host : Host) (rules : List Rule) (now : ℕ) (user action resource payload : String)
    (events : List Event)
    → SameBody
        (recorded host rules now user action resource payload events)
        (new_event host now user action resource payload events)
unfolding write_event_in_memory
recorded-SameBody host rules now user action resource payload events = ground (
  arith,
  note_violations-SameBody host
      (run_rules now rules events (new_event host now user action resource payload events) []).0
      (run_rules now rules events (new_event host now user action resource payload events) []).1,
  run_rules-SameBody now rules events (new_event host now user action resource payload events) [],
)

-- Each event names the hash before it and carries the hash of its own digest.
abbrev pub IsLinked : Host → String → List Event → Type 0
IsLinked host expected [] = Unit
IsLinked host expected (e ∷ es) =
    (e.prev_hash ≡ expected)
    × (e.hash ≡ host.sha256_hex (digest_input host e))
    × IsLinked host e.hash es

pub verify_from-intact :
    (host : Host) (expected : String) (es : List Event)
    → IsLinked host expected es
    → verify_from host expected es ≡ intact
unfolding verify_from
verify_from-intact host expected [] h = refl
verify_from-intact host expected (e ∷ es) h = ground (
  arith,
  eq_iff e.prev_hash expected,
  eq_iff e.hash (host.sha256_hex (digest_input host e)),
  verify_from-intact host e.hash es h.2,
)

pub intact-IsLinked :
    (host : Host) (expected : String) (es : List Event)
    → verify_from host expected es ≡ intact
    → IsLinked host expected es
unfolding verify_from
intact-IsLinked host expected [] h = tt
intact-IsLinked host expected (e ∷ es) h = ground (
  arith,
  eq_iff e.prev_hash expected,
  eq_iff e.hash (host.sha256_hex (digest_input host e)),
  intact-IsLinked host e.hash es,
)

tip : String → List Event → String
tip expected [] = expected
tip expected (e ∷ es) = tip e.hash es

tip-eq-head_hash : (e : Event) (es : List Event) → tip e.hash es ≡ head_hash (e ∷ es)
unfolding tip
tip-eq-head_hash e [] = refl
tip-eq-head_hash e (f ∷ es) = tip-eq-head_hash f es

tip_lem : (es : List Event) → tip "" es ≡ head_hash es
unfolding tip
tip_lem [] = refl
tip_lem (e ∷ es) = tip-eq-head_hash e es

IsLinked-snoc :
    (host : Host) (expected : String) (es : List Event) (ev : Event)
    → IsLinked host expected es
    → ev.prev_hash ≡ tip expected es
    → ev.hash ≡ host.sha256_hex (digest_input host ev)
    → IsLinked host expected (es ++ ev ∷ [])
unfolding tip
IsLinked-snoc host expected [] ev h p q = (p, q, tt)
IsLinked-snoc host expected (x ∷ es) ev h p q = (h.0, h.1, IsLinked-snoc host x.hash es ev h.2 p q)

-- The chains that writes of either kind make, with any rules.
pub data Reachable (host : Host) : List Event → Type 0 where
  genesis : Reachable host []
  audit_write :
      {es : List Event} (rules : List Rule) (now : ℕ) (user action resource payload : String)
      → Reachable host es
      → Reachable host (write_event host rules none now user action resource (some payload) es).0
  strict_write :
      {es : List Event} (rules : List Rule) (now : ℕ) (user action resource payload : String)
      → Reachable host es
      → Reachable host
          (write_event_strict host rules none now user action resource (some payload) es).0

digest_input-SameBody :
    (host : Host) {x y : Event} → SameBody x y → digest_input host x ≡ digest_input host y
digest_input-SameBody host h = rw (h.prev, h.payload, h.user, h.act, h.res, h.time)

new_event-hash :
    (host : Host) (now : ℕ) (user action resource payload : String) (es : List Event)
    → let ev = new_event host now user action resource payload es in
      ev.hash ≡ host.sha256_hex (digest_input host ev)
unfolding new_event
new_event-hash host now user action resource payload es = refl

recorded-IsLinked :
    (host : Host) (rules : List Rule) (now : ℕ) (user action resource payload : String)
    (es : List Event)
    → IsLinked host "" es
    → IsLinked host "" (es ++ recorded host rules now user action resource payload es ∷ [])
recorded-IsLinked host rules now user action resource payload es h =
    let b = recorded-SameBody host rules now user action resource payload es in
    let ev = recorded host rules now user action resource payload es in
    IsLinked-snoc host "" es ev h (b.prev ∙ unfold new_event in sym (tip_lem es)) (
      b.own
      ∙ new_event-hash host now user action resource payload es
      ∙ ap host.sha256_hex (sym (digest_input-SameBody host b)))

-- A write of either kind adds exactly the recorded event at the end of the chain.
pub write_event_in_memory-events :
    (host : Host) (rules : List Rule) (now : ℕ) (user action resource payload : String)
    (es : List Event)
    → (write_event_in_memory host rules now user action resource payload es).0
      ≡ es ++ recorded host rules now user action resource payload es ∷ []
unfolding write_event_in_memory
write_event_in_memory-events host rules now user action resource payload es = refl

Reachable-IsLinked : (host : Host) {es : List Event} → Reachable host es → IsLinked host "" es
unfolding write_event write_event_strict
Reachable-IsLinked host genesis = tt
Reachable-IsLinked host (audit_write {es = es} rules now user action resource payload r) =
    rw (write_event_in_memory-events host rules now user action resource payload es)
      (recorded-IsLinked host rules now user action resource payload es (Reachable-IsLinked host r))
Reachable-IsLinked host (strict_write {es = es} rules now user action resource payload r) =
    rw (write_event_in_memory-events host rules now user action resource payload es)
      (recorded-IsLinked host rules now user action resource payload es (Reachable-IsLinked host r))

-- A chain made by writes of either kind, with any rules, violations included, passes the
-- integrity check.
pub Reachable-verify_integrity :
    (host : Host) {es : List Event} → Reachable host es → verify_integrity host es ≡ intact
unfolding verify_integrity
Reachable-verify_integrity host {es} r = verify_from-intact host "" es (Reachable-IsLinked host r)
