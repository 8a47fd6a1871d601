-- ===== src/Blockchain/Events.antt =====
-- Events, their index and the default rules (ledger.go).
use Prim.Native.String.{◌++◌ as ◌+s◌}
use hybrid_quantum_banking_b.Base.{
  ℕ, ◌+◌, String, str_eq, Bool, true, false, not, ◌&&◌, ◌||◌, List, [], ◌∷◌, Option, none, some,
  ltb, if◌then◌else◌, select,
}

-- `SmartContractResult`
pub record RuleResult : Type 0 where
  pub rule_name : String
  pub passed : Bool
  pub violation : String
  pub enforced_at : ℕ

-- `Event`
pub record Event : Type 0 where
  pub id : String
  pub user_id : String
  pub action : String
  pub resource : String
  pub payload_hash : String
  pub prev_hash : String
  pub hash : String
  pub timestamp : ℕ
  pub smart_contract : RuleResult
  pub tx_id : String
  pub seq : ℕ
  pub category : String

-- `sha256Hex`, `strconv.Itoa`, `Time.Format(time.RFC3339Nano)`, and the text of a list of
-- violations (`fmt.Sprintf("smart contract violations: %v", …)`).
pub record Host : Type 0 where
  pub sha256_hex : String → String
  pub itoa : ℕ → String
  pub format_time : ℕ → String
  pub format_violations : List String → String

-- The keys of the index maps: the two parts joined by a zero byte.
abbrev pub index_key : String → String → String
index_key a b = a +s ("\0" +s b)

-- `EventsByUserAndAction`, as `newEventIndex` fills its map: in the order of the events.
unfoldable pub events_by_user_and_action : String → String → List Event → List Event
events_by_user_and_action user action =
    select (λ e. str_eq (index_key e.user_id e.action) (index_key user action))

-- `EventByPayloadHash`: the first event with the key wins; an empty payload hash is not indexed.
unfoldable pub event_by_payload_hash : String → String → List Event → Option Event
event_by_payload_hash user hash [] = none
event_by_payload_hash user hash (e ∷ es) =
    if not (str_eq e.payload_hash "")
      && str_eq (index_key e.user_id e.payload_hash) (index_key user hash)
    then some e
    else event_by_payload_hash user hash es

-- `SmartContractRule.Evaluate`, with the clock and the prior events.
abbrev pub Rule : Type 0
Rule = ℕ → Event → List Event → RuleResult

-- 6 hours in nanoseconds.
abbrev pub six_hours : ℕ
six_hours = 21600000000000

-- The loop of `CoolingOffRule` over the prior blocked transactions.
unfoldable pub within_window : ℕ → List Event → Bool
within_window now [] = false
within_window now (prev ∷ es) = ltb now (prev.timestamp + six_hours) || within_window now es

-- `CoolingOffRule.Evaluate`
unfoldable pub cooling_off_rule : Rule
unfolding within_window events_by_user_and_action
cooling_off_rule now event events =
    let result : RuleResult = record {
      rule_name = "cooling_off_enforcement";
      passed = true;
      violation = "";
      enforced_at = now;
    } in
    if (str_eq event.action "transaction_blocked" || str_eq event.action "transaction_initiated")
      && within_window event.timestamp
          (events_by_user_and_action event.user_id "transaction_blocked" events)
    then record result {
      passed = false;
      violation = "cooling-off period active: previous blocked transaction within 6 hours";
    }
    else result

-- The loop of `ConsentRevocationRule` over the prior revocations.
unfoldable pub any_before : ℕ → List Event → Bool
any_before now [] = false
any_before now (prev ∷ es) = ltb prev.timestamp now || any_before now es

-- `ConsentRevocationRule.Evaluate`
unfoldable pub consent_revocation_rule : Rule
unfolding any_before events_by_user_and_action
consent_revocation_rule now event events =
    let result : RuleResult = record {
      rule_name = "consent_revocation_enforcement";
      passed = true;
      violation = "";
      enforced_at = now;
    } in
    if (str_eq event.resource "account_aggregator" || str_eq event.resource "data_export")
      && any_before event.timestamp
          (events_by_user_and_action event.user_id "consent_revoked" events)
    then record result {
      passed = false;
      violation = "consent was revoked before this data access event";
    }
    else result

abbrev pub is_initiated : Option Event → Bool
is_initiated none = false
is_initiated (some prev) = str_eq prev.action "transaction_initiated"

-- `DoubleSpendRule.Evaluate`
unfoldable pub double_spend_rule : Rule
unfolding event_by_payload_hash
double_spend_rule now event events =
    let result : RuleResult = record {
      rule_name = "double_spend_prevention";
      passed = true;
      violation = "";
      enforced_at = now;
    } in
    if str_eq event.action "transaction_initiated"
      && is_initiated (event_by_payload_hash event.user_id event.payload_hash events)
    then record result {
      passed = false;
      violation = "duplicate transaction detected: same payload hash already exists";
    }
    else result

-- `registerDefaultRules`
unfoldable pub default_rules : List Rule
default_rules = cooling_off_rule ∷ consent_revocation_rule ∷ double_spend_rule ∷ []
