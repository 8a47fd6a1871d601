-- ===== src/Chaincode/Rules.antt =====
-- The smart contract rules of the chaincode (main.go, `enforceRules`).
use Prim.Native.String.{◌++◌ as ◌+s◌}
use hybrid_quantum_banking_b.Base.{
  ℕ, ◌+◌, ◌==◌, ltb, String, str_eq, ◌&&◌, ◌||◌, Bool, true, false, not, List, [], ◌∷◌,
  if◌then◌else◌,
}
use hybrid_quantum_banking_b.Blockchain.Events.{RuleResult}
use hybrid_quantum_banking_b.Chaincode.Events.{Runtime, Event}

abbrev pub pass : String → ℕ → RuleResult
pass name now = record { rule_name = name; passed = true; violation = ""; enforced_at = now }

abbrev pub fail : String → String → ℕ → RuleResult
fail name violation now = record {
  rule_name = name;
  passed = false;
  violation = violation;
  enforced_at = now;
}

-- The loop of `coolingOffRule`.
unfoldable pub blocks : ℕ → Event → List Event → Bool
blocks window ev [] = false
blocks window ev (prev ∷ history) =
    (str_eq prev.user_id ev.user_id
      && str_eq prev.action "transaction_blocked"
      && ltb ev.timestamp (prev.timestamp + window))
    || blocks window ev history

-- `coolingOffRule`
unfoldable pub cooling_off_rule : Runtime → ℕ → ℕ → Event → List Event → RuleResult
cooling_off_rule rt window now ev history =
    if (str_eq ev.action "transaction_initiated" || str_eq ev.action "transaction_override")
      && blocks window ev history
    then fail "cooling_off_enforcement"
        ("cooling-off period active: a blocked transaction occurred within the last "
          +s rt.duration_text window)
        now
    else pass "cooling_off_enforcement" now

-- The loop of `consentRevocationRule`, with the flag that it keeps.
unfoldable pub revoked_after : Bool → Event → List Event → Bool
revoked_after revoked ev [] = revoked
revoked_after revoked ev (prev ∷ history) =
    let earlier = ltb prev.timestamp ev.timestamp in
    let updated =
      if not (str_eq prev.user_id ev.user_id)
      then revoked
      else if str_eq prev.action "consent_revoked"
      then (if earlier then true else revoked)
      else if str_eq prev.action "consent_granted" || str_eq prev.action "consent_updated"
      then (if earlier then false else revoked)
      else revoked in
    revoked_after updated ev history

-- `consentRevocationRule`
unfoldable pub consent_revocation_rule : ℕ → Event → List Event → RuleResult
consent_revocation_rule now ev history =
    if (str_eq ev.resource "account_aggregator"
        || str_eq ev.resource "data_export"
        || str_eq ev.action "account_aggregator_sync"
        || str_eq ev.action "data_exported")
      && revoked_after false ev history
    then fail "consent_revocation_enforcement" "consent was revoked before this data access event"
        now
    else pass "consent_revocation_enforcement" now

-- The loop of `doubleSpendRule`.
unfoldable pub repeats : Event → List Event → Bool
repeats ev [] = false
repeats ev (prev ∷ history) =
    (str_eq prev.user_id ev.user_id
      && str_eq prev.action "transaction_initiated"
      && str_eq prev.payload_hash ev.payload_hash
      && not (prev.timestamp == ev.timestamp))
    || repeats ev history

-- `doubleSpendRule`
unfoldable pub double_spend_rule : ℕ → Event → List Event → RuleResult
double_spend_rule now ev history =
    if str_eq ev.action "transaction_initiated" && repeats ev history
    then fail "double_spend_prevention"
        "duplicate transaction detected: identical payload already recorded" now
    else pass "double_spend_prevention" now

-- `enforceRules`: a result that is not passed comes with the error that ends the transaction.
unfoldable pub enforce_rules : Runtime → ℕ → ℕ → Event → List Event → RuleResult
enforce_rules rt window now ev history =
    let cooling = cooling_off_rule rt window now ev history in
    let consent = consent_revocation_rule now ev history in
    let spend = double_spend_rule now ev history in
    if not cooling.passed
    then cooling
    else if not consent.passed
    then consent
    else if not spend.passed
    then spend
    else pass "all" now
