-- ===== src/Examples/Money.antt =====
-- Runs of the transfers.
use hybrid_quantum_banking_b.Transfers.Cap.{prune_bounded}
use hybrid_quantum_banking_b.Transfers.Idempotency.{prune, max_entries}
use hybrid_quantum_banking_b.Transfers.State.{Cached}
use hybrid_quantum_banking_b.Base.{length, ◌≤◌}
use hybrid_quantum_banking_b.Base.{
  ◌+◌, arith, ◌≡◌, ◌⊎◌, refl, none, some, true, false, List, [], ◌∷◌, inr,
}
use hybrid_quantum_banking_b.Base.Float.{milli}
use hybrid_quantum_banking_b.Base.Maps.{put}
use hybrid_quantum_banking_b.Base.Text.{trim_space}
use hybrid_quantum_banking_b.Accounts.{Account, apply_debit}
use hybrid_quantum_banking_b.Accounts.Debit.{funds, AreWords, apply_debit_covered}
use hybrid_quantum_banking_b.Blockchain.Events.{
  default_rules, double_spend_rule, consent_revocation_rule, cooling_off_rule,
}
use hybrid_quantum_banking_b.Blockchain.Writes.{write_event_strict}
use hybrid_quantum_banking_b.Otp.{verify_otp_token, verify_profile, require_user}
use hybrid_quantum_banking_b.RiskEngine.{low}
use hybrid_quantum_banking_b.Transfers.State.{
  Transaction, TransactionResult, success, warning_ack_required, Service, Env,
}
use hybrid_quantum_banking_b.Transfers.Idempotency.{find_cached}
use hybrid_quantum_banking_b.Transfers.Steps.{
  done, failed, insufficient_funds, assess_request, new_transaction, record_transaction, move_money,
}
use hybrid_quantum_banking_b.Transfers.Initiate.{
  initiate_transaction, initiate_user, initiate_cached, initiate_checked, initiate_assessed, settle,
  conclude, result_of, respond,
}
use hybrid_quantum_banking_b.Transfers.Override.{
  OverrideRequest, overridden, override_failed, not_pending, override_transaction, override_checked,
  override_locked, override_search, override_found, find_transaction, check_otp,
}
use hybrid_quantum_banking_b.Transfers.Validate.{Verdict, validate_found}
use hybrid_quantum_banking_b.Transfers.Freeze.{UnfreezeRequest, unfreeze, biometric_satisfied}
use hybrid_quantum_banking_b.Transfers.Effects.{Debits}
use hybrid_quantum_banking_b.Transfers.Outcomes.{IsFresh, result-Debits, failure_takes_no_money}
use hybrid_quantum_banking_b.Transfers.DoubleDebit.{Call, calls, retry_is_replay}
use hybrid_quantum_banking_b.Transfers.Failures.{refused_debit_stays_success}
use hybrid_quantum_banking_b.Transfers.Final.{OverrideCall, overrides, override_is_final}
use hybrid_quantum_banking_b.Transfers.Risky.{IsRefused, high_risk_is_not_paid}
use hybrid_quantum_banking_b.Transfers.Overrides.{IsReleased, overridden_is_authorised}
use hybrid_quantum_banking_b.Transfers.Verdicts.{step_up_debits_again}
use hybrid_quantum_banking_b.Transfers.Frozen.{
  IsUntouched, frozen_moves_nothing, unfreeze_needs_factors,
}
use hybrid_quantum_banking_b.Examples.Setup.{
  demo_env, demo_state, demo_account, demo_request, demo_inputs, demo_transaction,
}

abbrev paid_result : TransactionResult milli
paid_result = record {
  transaction_id = "txn";
  status = success;
  risk_level = low;
  risk_score = 0;
  cooling_off_until = none;
  step_up_required = false;
  required_tier = "biometric_only";
  require_biometric = true;
  require_otp = false;
  require_manual_review = false;
}

abbrev rich : Service demo_env
rich = demo_state 1000 false []

abbrev poor : Service demo_env
poor = demo_state 100 false []

rich-IsFresh : IsFresh demo_env "alice" "k1" rich
unfolding find_cached
rich-IsFresh = record {
  account = record { created_at = 0; device_bound = true };
  known = refl;
  keyed = refl;
  new = refl;
}

poor-IsFresh : IsFresh demo_env "alice" "k1" poor
unfolding find_cached
poor-IsFresh = record {
  account = record { created_at = 0; device_bound = true };
  known = refl;
  keyed = refl;
  new = refl;
}

paid :
    (initiate_transaction demo_env (demo_inputs 100) "alice" "k1" (demo_request 300) rich).1
    ≡ done paid_result
unfolding initiate_transaction initiate_user initiate_cached initiate_checked initiate_assessed
    settle conclude result_of respond assess_request new_transaction record_transaction move_money
    write_event_strict default_rules double_spend_rule consent_revocation_rule cooling_off_rule
    apply_debit
paid = refl

unpaid :
    (initiate_transaction demo_env (demo_inputs 100) "alice" "k1" (demo_request 300) poor).1
    ≡ failed insufficient_funds
unfolding initiate_transaction initiate_user initiate_cached initiate_checked initiate_assessed
    settle conclude result_of respond assess_request new_transaction record_transaction move_money
    write_event_strict default_rules double_spend_rule consent_revocation_rule cooling_off_rule
    apply_debit
unpaid = refl

result-Debits_example :
    Debits demo_env "alice" 300 true rich
      (initiate_transaction demo_env (demo_inputs 100) "alice" "k1" (demo_request 300) rich).0
result-Debits_example =
    result-Debits demo_env (demo_inputs 100) "alice" "k1" (demo_request 300) rich paid_result
      rich-IsFresh paid

-- Two other payments of Alice, made before her retry.
abbrev others : List (Call demo_env)
others =
    record { inputs = demo_inputs 200; by = "alice"; with_key = "k2"; asks = demo_request 100 }
    ∷ record { inputs = demo_inputs 300; by = "alice"; with_key = "k3"; asks = demo_request 50 }
    ∷ []

retry_is_replay_example :
    let s' =
      calls demo_env others
        (initiate_transaction demo_env (demo_inputs 100) "alice" "k1" (demo_request 300) rich).0 in
    initiate_transaction demo_env (demo_inputs 5000) "alice" "k1" (demo_request 700) s'
    ≡ (s', done paid_result)
retry_is_replay_example =
    retry_is_replay demo_env (demo_inputs 100) (demo_inputs 5000) "alice" "k1" (demo_request 300)
      (demo_request 700) others rich paid_result rich-IsFresh (omega arith)
      (omega arith, (omega arith, tt)) (omega arith) paid

-- The environment whose risk engine scores every request 80.
abbrev wary_env : Env
wary_env = record demo_env { evaluate = λ _. record { level = low; score = 80000 } }

abbrev wary : Service wary_env
wary = record {
  counter = rich.counter;
  users = rich.users;
  accounts = rich.accounts;
  transactions = rich.transactions;
  beneficiaries = rich.beneficiaries;
  freeze_state = rich.freeze_state;
  idempotency = [];
  audit = [];
  chain = [];
  book = [];
  outbox = [];
  graph = tt;
  auth = rich.auth;
  threats = rich.threats;
  notifications = rich.notifications;
  otp = rich.otp;
}

wary-IsFresh : IsFresh wary_env "alice" "k1" wary
unfolding find_cached
wary-IsFresh = record {
  account = record { created_at = 0; device_bound = true };
  known = refl;
  keyed = refl;
  new = refl;
}

high_risk_is_not_paid_example :
    let r = initiate_transaction wary_env (demo_inputs 100) "alice" "k1" (demo_request 300) wary in
    IsRefused wary_env r.1 × (r.0.accounts ≡ wary.accounts)
high_risk_is_not_paid_example =
    high_risk_is_not_paid wary_env (demo_inputs 100) "alice" "k1" (demo_request 300) wary
      wary-IsFresh (inr refl)

failure_takes_no_money_example :
    (initiate_transaction demo_env
      (demo_inputs 100)
      "alice"
      "k1"
      (demo_request 300)
      poor).0.accounts
    ≡ poor.accounts
failure_takes_no_money_example =
    failure_takes_no_money demo_env (demo_inputs 100) "alice" "k1" (demo_request 300) poor
      insufficient_funds unpaid

refused_debit_stays_success_example :
    let s' =
      (initiate_transaction demo_env (demo_inputs 100) "alice" "k1" (demo_request 300) poor).0 in
    (tx : Transaction milli) × (s'.transactions "alice" ≡ tx ∷ [])
    × (tx.status ≡ success)
    × (tx.amount_paise ≡ 300)
    × (s'.accounts ≡ poor.accounts)
refused_debit_stays_success_example =
    refused_debit_stays_success demo_env (demo_inputs 100) "alice" "k1" (demo_request 300) poor
      poor-IsFresh unpaid

abbrev waiting : Service demo_env
waiting = demo_state 1000 false (demo_transaction warning_ack_required ∷ [])

abbrev settled : Service demo_env
settled = demo_state 1000 false (demo_transaction success ∷ [])

abbrev demo_override : OverrideRequest
demo_override = record { transaction_id = "t1"; biometric_ok = true; otp = "123456" }

abbrev released_result : TransactionResult milli
released_result = record {
  transaction_id = "t1";
  status = success;
  risk_level = low;
  risk_score = 0;
  cooling_off_until = none;
  step_up_required = false;
  required_tier = "";
  require_biometric = false;
  require_otp = false;
  require_manual_review = false;
}

overridden_demo :
    (override_transaction demo_env 200 "alice" demo_override waiting).1 ≡ overridden released_result
unfolding override_transaction override_checked override_locked override_search override_found
    find_transaction check_otp verify_otp_token verify_profile require_user apply_debit trim_space
overridden_demo = refl

overridden_is_authorised_example :
    (true ≡ true)
    × ((verify_otp_token 200 true "alice" "123456" waiting.otp).1 ≡ none)
    × IsReleased demo_env "alice" "t1" waiting
        (override_transaction demo_env 200 "alice" demo_override waiting).0
overridden_is_authorised_example =
    overridden_is_authorised demo_env 200 "alice" demo_override waiting released_result
      overridden_demo

found_waiting :
    find_transaction milli "t1" (demo_transaction warning_ack_required ∷ [])
    ≡ some (demo_transaction warning_ack_required)
unfolding find_transaction
found_waiting = refl

-- Two more overrides by Alice: of the same transaction, and of one that does not exist.
abbrev more_overrides : List OverrideCall
more_overrides =
    record { at = 250; by = "alice"; asks = demo_override }
    ∷ record { at = 260; by = "alice"; asks = record demo_override { transaction_id = "t9" } }
    ∷ []

override_is_final_example :
    let s' =
      overrides demo_env more_overrides (override_locked demo_env 200 "alice" "t1" waiting).0 in
    (override_locked demo_env 300 "alice" "t1" s' ≡ (s', override_failed not_pending))
    × ((override_transaction demo_env 300 "alice" demo_override s').0.accounts ≡ s'.accounts)
override_is_final_example =
    override_is_final demo_env 200 300 "alice" demo_override more_overrides waiting
      (demo_transaction warning_ack_required) found_waiting refl

abbrev ask_step_up : Verdict
ask_step_up = record {
  agrees_with_ml = false;
  suggested_level = "high";
  recommended_action = "step_up";
}

found_settled :
    find_transaction milli "t1" (demo_transaction success ∷ []) ≡ some (demo_transaction success)
unfolding find_transaction
found_settled = refl

covered : apply_debit 300 (demo_account 1000 ∷ []) ≡ some (demo_account 700 ∷ [])
unfolding apply_debit
covered = refl

step_up_debits_again_example :
    let s' =
      (validate_found demo_env 150 ask_step_up "alice" (demo_transaction success) settled).0 in
    (override_locked demo_env 200 "alice" "t1" s').0.accounts
    ≡ put settled.accounts "alice" (demo_account 700 ∷ [])
step_up_debits_again_example =
    step_up_debits_again demo_env 150 200 ask_step_up "alice" "t1" (demo_transaction success)
      settled (demo_account 700 ∷ []) found_settled refl refl refl refl covered

abbrev frozen : Service demo_env
frozen = demo_state 1000 true []

frozen_moves_nothing_example :
    IsUntouched demo_env frozen
      (initiate_transaction demo_env (demo_inputs 100) "alice" "k1" (demo_request 300) frozen).0
frozen_moves_nothing_example =
    frozen_moves_nothing demo_env (demo_inputs 100) "alice" "k1" (demo_request 300) frozen refl

abbrev wrong_unfreeze : UnfreezeRequest
wrong_unfreeze = record { otp = "000000"; biometric_ok = true; verification_method = "" }

unfreeze_needs_factors_example :
    ((unfreeze demo_env 200 "alice" wrong_unfreeze frozen).0.freeze_state ≡ frozen.freeze_state)
    ⊎ ((biometric_satisfied demo_env wrong_unfreeze ≡ true)
        × ((verify_otp_token 200 true "alice" (trim_space "000000") frozen.otp).1 ≡ none))
unfreeze_needs_factors_example =
    unfreeze_needs_factors demo_env 200 "alice" wrong_unfreeze frozen refl

apply_debit_covered_example :
    (after : List Account) × (apply_debit 300 (demo_account 1000 ∷ []) ≡ some after)
    × (funds after + 300 ≡ funds (demo_account 1000 ∷ []))
    × AreWords after
apply_debit_covered_example =
    apply_debit_covered 300 (demo_account 1000 ∷ []) (omega arith, tt) (omega arith) (omega arith)
      (omega arith)

abbrev one_cached : List (Cached demo_env)
one_cached = record { key = "alice:k1"; result = paid_result; expiry = 900 } ∷ []

prune_bounded_example : length (prune demo_env 100 one_cached) ≤ max_entries
prune_bounded_example = prune_bounded demo_env 100 one_cached (refl, tt)
