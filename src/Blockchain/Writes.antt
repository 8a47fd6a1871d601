-- ===== src/Blockchain/Writes.antt =====
-- The two writes of an event (ledger.go, `WriteEvent`, `WriteEventStrict`).
use Prim.Native.String.{◌++◌ as ◌+s◌}
use hybrid_quantum_banking_b.Base.{
  ℕ, ◌+◌, String, str_eq, Bool, true, false, ◌||◌, List, [], ◌∷◌, ◌++◌, Option, none, some,
  if◌then◌else◌, length,
}
use hybrid_quantum_banking_b.Blockchain.Events.{RuleResult, Event, Host, Rule}

-- The loop over the rules in `writeEventInMemory`: the event keeps the result of the last rule,
-- and the violations add up.
unfoldable pub run_rules : ℕ → List Rule → List Event → Event → List String → Event × List String
run_rules now [] events ev violations = (ev, violations)
run_rules now (rule ∷ rules) events ev violations =
    let result = rule now ev events in
    run_rules now rules events (record ev { smart_contract = result })
      (if result.passed then violations else violations ++ result.violation ∷ [])

-- The hash of the last event, or none.
abbrev pub head_hash : List Event → String
head_hash [] = ""
head_hash (e ∷ []) = e.hash
head_hash (e ∷ f ∷ es) = head_hash (f ∷ es)

-- The text that is hashed for an event.
abbrev pub digest_input : Host → Event → String
digest_input host ev =
    ev.prev_hash
    +s ev.payload_hash
    +s ev.user_id
    +s ev.action
    +s ev.resource
    +s host.format_time ev.timestamp

abbrev pub no_result : RuleResult
no_result = record { rule_name = ""; passed = false; violation = ""; enforced_at = 0 }

-- The event as it is built before the rules run.
unfoldable pub new_event : Host → ℕ → String → String → String → String → List Event → Event
new_event host now user action resource payload events =
    let payload_hash = host.sha256_hex payload in
    let prev_hash = head_hash events in
    record {
      id = "ledger-" +s host.itoa (length events + 1);
      user_id = user;
      action = action;
      resource = resource;
      payload_hash = payload_hash;
      prev_hash = prev_hash;
      hash =
          host.sha256_hex
            (prev_hash +s payload_hash +s user +s action +s resource +s host.format_time now);
      timestamp = now;
      smart_contract = no_result;
      tx_id = "";
      seq = 0;
      category = "";
    }

abbrev pub is_empty : List String → Bool
is_empty [] = true
is_empty (_ ∷ _) = false

abbrev pub note_violations : Host → Event × List String → Event × List String
note_violations host (ev, violations) = (
  if is_empty violations then ev else record ev {
    smart_contract = record (ev.smart_contract) { violation = host.format_violations violations };
  },
  violations,
)

-- `writeEventInMemory`, on a payload that `json.Marshal` has turned into text: the chain after it,
-- the event and the violations.
unfoldable pub write_event_in_memory :
    Host
    → List Rule
    → ℕ
    → String
    → String
    → String
    → String
    → List Event
    → List Event × Event × List String
unfolding new_event run_rules
write_event_in_memory host rules now user action resource payload events =
    let out =
      run_rules now rules events (new_event host now user action resource payload events) [] in
    let (ev, violations) = note_violations host out in (events ++ ev ∷ [], ev, violations)

-- How a write ends.
pub data WriteResult : Type 0 where
  written : Event → WriteResult
  violation : Event → List String → WriteResult
  marshal_failed backend_failed : WriteResult

-- `RecordEvent` of an attached network, on category, user, action and payload.
abbrev pub Backend : Type 0
Backend = String → String → String → Option String → Option Event

-- `categoryFor`
unfoldable pub category_for : String → String
category_for resource =
    if str_eq resource "transaction"
      || str_eq resource "payment"
      || str_eq resource "consent"
      || str_eq resource "kyc"
      || str_eq resource "goal"
      || str_eq resource "security"
      || str_eq resource "audit"
      || str_eq resource "blockchain_record"
    then resource
    else "audit"

abbrev pub backend_result : Option Event → WriteResult
backend_result none = backend_failed
backend_result (some ev) = written ev

-- `WriteEvent`; `payload` is `none` where `json.Marshal` fails.
unfoldable pub write_event :
    Host
    → List Rule
    → Option Backend
    → ℕ
    → String
    → String
    → String
    → Option String
    → List Event
    → List Event × WriteResult
unfolding write_event_in_memory category_for
write_event host rules (some fb) now user action resource payload events =
    (events, backend_result (fb (category_for resource) user action payload))
write_event host rules none now user action resource none events = (events, marshal_failed)
write_event host rules none now user action resource (some payload) events =
    let (events', ev, _) =
      write_event_in_memory host rules now user action resource payload events in
    (events', written ev)

-- `WriteEventStrict`
unfoldable pub write_event_strict :
    Host
    → List Rule
    → Option Backend
    → ℕ
    → String
    → String
    → String
    → Option String
    → List Event
    → List Event × WriteResult
unfolding write_event_in_memory category_for
write_event_strict host rules (some fb) now user action resource payload events =
    (events, backend_result (fb (category_for resource) user action payload))
write_event_strict host rules none now user action resource none events = (events, marshal_failed)
write_event_strict host rules none now user action resource (some payload) events =
    let (events', ev, violations) =
      write_event_in_memory host rules now user action resource payload events in
    (events', if is_empty violations then written ev else violation ev violations)
