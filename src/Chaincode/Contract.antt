-- ===== src/Chaincode/Contract.antt =====
-- The transactions of the contract on the world state (main.go, methods of `FinixContract`).
use Prim.Native.String.{◌++◌ as ◌+s◌}
use hybrid_quantum_banking_b.Base.{
  ℕ, ◌+◌, ◌-◌, ◌%◌, ltb, String, str_eq, ◌&&◌, false, not, List, [], ◌∷◌, Option, none, some,
  if◌then◌else◌, length,
}
use hybrid_quantum_banking_b.Base.Int64.{modulus, non_positive}
use hybrid_quantum_banking_b.Base.Maps.{put}
use hybrid_quantum_banking_b.Base.Text.{trim_space}
use hybrid_quantum_banking_b.Blockchain.Events.{RuleResult, Host, six_hours}
use hybrid_quantum_banking_b.Blockchain.Checks.{merkle_root}
use hybrid_quantum_banking_b.Chaincode.Events.{
  Runtime, Event, ChainHead, valid_categories, is_category, put_event, find_event, query_user,
  query_category,
}
use hybrid_quantum_banking_b.Chaincode.Rules.{enforce_rules}

-- The world state: the events, the head of each user (0 and the empty text where there is none),
-- and the text under the key of the configured window (empty where there is none).
pub record World : Type 0 where
  pub store : List Event
  pub heads : String → ChainHead
  pub window_config : String

abbrev pub empty_world : World
empty_world = record { store = []; heads = λ _. record { seq = 0; hash = "" }; window_config = "" }

-- The fields that `eventHash` joins.
unfoldable pub hash_input : Runtime → Event → String
hash_input rt ev =
    ev.prev_hash
    +s ("|"
        +s (ev.payload_hash
            +s ("|"
                +s (ev.user_id
                    +s ("|"
                        +s (ev.action
                            +s ("|"
                                +s (ev.resource
                                    +s ("|"
                                        +s (rt.format_uint ev.seq
                                            +s ("|" +s rt.format_time ev.timestamp)))))))))))

-- `eventHash`
unfoldable pub event_hash : Runtime → Event → String
unfolding hash_input
event_hash rt ev = rt.sha256_hex (hash_input rt ev)

-- `resolveCoolingOffWindow`
abbrev pub window_or_default : Option ℕ → ℕ
window_or_default none = six_hours
window_or_default (some d) = if non_positive d then six_hours else d

unfoldable pub resolve_window : Runtime → World → ℕ
resolve_window rt w =
    if str_eq w.window_config ""
    then six_hours
    else window_or_default (rt.parse_duration w.window_config)

pub data WindowResult : Type 0 where
  window_set invalid_duration : WindowResult

set_window : Runtime → World → Option ℕ → World × WindowResult
set_window rt w none = (w, invalid_duration)
set_window rt w (some d) =
    if non_positive d
    then (w, invalid_duration)
    else (record w { window_config = rt.duration_text d }, window_set)

-- `SetCoolingOffWindow`
unfoldable pub set_cooling_off_window : Runtime → String → World → World × WindowResult
unfolding set_window
set_cooling_off_window rt duration w = set_window rt w (rt.parse_duration (trim_space duration))

pub data RecordError : Type 0 where
  user_required action_required unknown_category invalid_payload invalid_key : RecordError
  rejected : RuleResult → RecordError

pub data RecordResult : Type 0 where
  recorded : Event → RecordResult
  refused : RecordError → RecordResult

-- One call of `RecordEvent`, with what the stub tells of its transaction.
pub record RecordCall : Type 0 where
  pub category : String
  pub user_id : String
  pub action : String
  pub payload : String
  pub now : ℕ
  pub tx_id : String

abbrev pub payload_of : RecordCall → String
payload_of call = if str_eq call.payload "" then "{}" else call.payload

-- The event before its hash and the verdict of the rules are filled in.
unfoldable pub draft : Runtime → RecordCall → ChainHead → Event
draft rt call head =
    let seq = (head.seq + 1) % modulus in
    record {
      id = rt.event_id (trim_space call.user_id) seq;
      user_id = trim_space call.user_id;
      action = trim_space call.action;
      resource = trim_space call.category;
      category = trim_space call.category;
      payload_hash = rt.sha256_hex (payload_of call);
      prev_hash = head.hash;
      hash = "";
      timestamp = call.now;
      seq = seq;
      tx_id = call.tx_id;
      payload = payload_of call;
      smart_contract = record { rule_name = ""; passed = false; violation = ""; enforced_at = 0 };
    }

unfoldable pub sealed : Runtime → RecordCall → ChainHead → Event
sealed rt call head = let ev = draft rt call head in record ev { hash = event_hash rt ev }

-- `putEvent` and `writeHead` of an event that the rules let pass.
unfoldable pub commit : RuleResult → Event → World → World × RecordResult
commit result ev w =
    let done = record ev { smart_contract = result } in
    let world = record w {
      store = put_event done w.store;
      heads = put w.heads ev.user_id (record { seq = ev.seq; hash = ev.hash });
    } in
    (world, recorded done)

unfoldable pub record_with :
    Runtime → RecordCall → World → Option (List Event) → World × RecordResult
record_with rt call w none = (w, refused invalid_key)
record_with rt call w (some history) =
    let ev = sealed rt call (w.heads (trim_space call.user_id)) in
    let result = enforce_rules rt (resolve_window rt w) call.now ev history in
    if not result.passed then (w, refused (rejected result)) else commit result ev w

-- `RecordEvent`
unfoldable pub record_event : Runtime → RecordCall → World → World × RecordResult
record_event rt call w =
    if str_eq (trim_space call.user_id) ""
    then (w, refused user_required)
    else if str_eq (trim_space call.action) ""
    then (w, refused action_required)
    else if not (is_category valid_categories (trim_space call.category))
    then (w, refused unknown_category)
    else if not (rt.valid_json (payload_of call))
    then (w, refused invalid_payload)
    else record_with rt call w (query_user rt (trim_space call.user_id) w.store)

-- `QueryByUser`; `none` stands for any error.
unfoldable pub query_by_user : Runtime → String → World → Option (List Event)
query_by_user rt user w = if str_eq (trim_space user) "" then none else query_user rt user w.store

-- `QueryByCategory`
unfoldable pub query_by_category : Runtime → String → String → World → Option (List Event)
query_by_category rt user category w =
    if str_eq (trim_space user) ""
    then none
    else if not (is_category valid_categories category)
    then none
    else query_category rt user category w.store

-- `GetEvent`
unfoldable pub get_event : Runtime → String → String → ℕ → World → Option Event
get_event rt user category seq w =
    if rt.valid_key user && rt.valid_key category
    then find_event user category seq w.store
    else none

-- `Proof`; the detail says of which event the chain or the hash is wrong.
pub data Detail : Type 0 where
  intact : Detail
  chain_broken hash_mismatch : String → Detail

pub record Proof : Type 0 where
  pub event_count : ℕ
  pub head_hash : String
  pub root : Option String
  pub detail : Detail

-- The loop of `GetProof`: the last good hash, the good hashes and how it ended.
unfoldable pub walk : Runtime → String → List Event → String × List String × Detail
walk rt prev [] = (prev, [], intact)
walk rt prev (ev ∷ events) =
    let rest = walk rt ev.hash events in
    if not (str_eq ev.prev_hash prev)
    then (prev, [], chain_broken ev.id)
    else if not (str_eq (event_hash rt ev) ev.hash)
    then (prev, [], hash_mismatch ev.id)
    else (rest.0, ev.hash ∷ rest.1, rest.2)

abbrev pub host_of : Runtime → Host
host_of rt = record {
  sha256_hex = rt.sha256_hex;
  itoa = rt.format_uint;
  format_time = rt.format_time;
  format_violations = λ _. "";
}

unfoldable pub proof_of : Runtime → Option (List Event) → Option Proof
proof_of rt none = none
proof_of rt (some events) =
    let (prev, hashes, detail) = walk rt "" events in
    some (record {
      event_count = length events;
      head_hash = prev;
      root = merkle_root (host_of rt) hashes;
      detail = detail;
    })

-- `GetProof`; the empty root of no events is `none`.
unfoldable pub get_proof : Runtime → String → World → Option Proof
get_proof rt user w = proof_of rt (query_user rt user w.store)

-- One round of the loop of `coolingOffState`; `none` is the zero time.
unfoldable pub keep_latest : Option ℕ → Event → Option ℕ
keep_latest none ev = if str_eq ev.action "transaction_blocked" then some ev.timestamp else none
keep_latest (some t) ev =
    if str_eq ev.action "transaction_blocked" && ltb t ev.timestamp
    then some ev.timestamp
    else some t

-- The loop of `coolingOffState`: the latest blocked transaction.
unfoldable pub latest_blocked : Option ℕ → List Event → Option ℕ
latest_blocked latest [] = latest
latest_blocked latest (ev ∷ events) = latest_blocked (keep_latest latest ev) events

abbrev pub remaining_after : ℕ → ℕ → Option ℕ → Option ℕ
remaining_after window now none = none
remaining_after window now (some t) = if ltb now (t + window) then some (t + window - now) else none

-- `coolingOffState`: the time that remains, where a window is active.
unfoldable pub cooling_off_state : ℕ → ℕ → List Event → Option ℕ
cooling_off_state window now events = remaining_after window now (latest_blocked none events)

abbrev pub state_after : ℕ → ℕ → Option (List Event) → Option (Option ℕ)
state_after window now none = none
state_after window now (some events) = some (cooling_off_state window now events)

-- `VerifyCoolingOff`, in nanoseconds.
unfoldable pub verify_cooling_off : Runtime → ℕ → String → World → Option (Option ℕ)
verify_cooling_off rt now user w =
    state_after (resolve_window rt w) now (query_category rt user "transaction" w.store)
