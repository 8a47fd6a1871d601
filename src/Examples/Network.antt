-- ===== src/Examples/Network.antt =====
-- Runs of the chaincode.
use Prim.Native.String.{◌++◌ as ◌+s◌}
use hybrid_quantum_banking_b.Base.{
  ℕ, ◌≡◌, ◌≢◌, inl, inr, refl, String, true, Option, none, some, [], ◌∷◌, arith, select, length,
  not,
}
use hybrid_quantum_banking_b.Base.Text.{trim_space}
use hybrid_quantum_banking_b.Chaincode.Events.{
  Runtime, Event, is_category, valid_categories, put_event, sort_by_seq, of_user, in_category,
  scan_category, scan, query_user,
}
use hybrid_quantum_banking_b.Chaincode.Rules.{
  pass, blocks, cooling_off_rule, consent_revocation_rule, repeats, double_spend_rule,
  enforce_rules,
}
use hybrid_quantum_banking_b.Chaincode.Contract.{
  World, empty_world, RecordCall, RecordError, record_event, record_with, commit, sealed, draft,
  resolve_window, refused, query_by_user, query_by_category, get_proof, Proof, intact, get_event,
  verify_cooling_off,
}
use hybrid_quantum_banking_b.Chaincode.Log.{judged}
use hybrid_quantum_banking_b.Chaincode.Queries.{
  Reachable, fresh, call, queries-Log, get_proof-Intact, get_event-recorded,
}
use hybrid_quantum_banking_b.Chaincode.Enforcement.{
  cooling_off_refuses, double_spend_refuses, consent_refuses,
}
use hybrid_quantum_banking_b.Chaincode.Window.{has_remaining, verify_cooling_off-Agrees}

abbrev demo_runtime : Runtime
demo_runtime = record {
  sha256_hex = λ s. "h" +s s;
  format_uint = λ _. "n";
  event_id = λ user _. user;
  format_time = λ _. "t";
  duration_text = λ _. "6h0m0s";
  parse_duration = λ _. none;
  valid_json = λ _. true;
  valid_key = λ _. true;
}

abbrev demo_record : String → String → ℕ → RecordCall
demo_record category action now = record {
  category = category;
  user_id = "alice";
  action = action;
  payload = "p";
  now = now;
  tx_id = "tx";
}

-- The world after one recorded call, and its event.
abbrev world_after : RecordCall → World
world_after c = (record_event demo_runtime c empty_world).0

abbrev event_of : RecordCall → Event
event_of c = judged demo_runtime c empty_world (pass "all" c.now)

abbrev demo_block : RecordCall
demo_block = demo_record "transaction" "transaction_blocked" 1000

block_reached : Reachable demo_runtime (world_after demo_block) (event_of demo_block ∷ [])
unfolding record_event record_with is_category trim_space query_user scan scan_category sort_by_seq
    enforce_rules cooling_off_rule consent_revocation_rule double_spend_rule commit put_event
    resolve_window sealed draft
block_reached = call demo_block (omega arith) fresh

abbrev demo_start : RecordCall
demo_start = demo_record "transaction" "transaction_initiated" 1000

start_reached : Reachable demo_runtime (world_after demo_start) (event_of demo_start ∷ [])
unfolding record_event record_with is_category trim_space query_user scan scan_category sort_by_seq
    enforce_rules cooling_off_rule consent_revocation_rule double_spend_rule commit put_event
    resolve_window sealed draft blocks repeats
start_reached = call demo_start (omega arith) fresh

abbrev demo_revoke : RecordCall
demo_revoke = demo_record "consent" "consent_revoked" 1000

revoke_reached : Reachable demo_runtime (world_after demo_revoke) (event_of demo_revoke ∷ [])
unfolding record_event record_with is_category trim_space query_user scan scan_category sort_by_seq
    enforce_rules cooling_off_rule consent_revocation_rule double_spend_rule commit put_event
    resolve_window sealed draft
revoke_reached = call demo_revoke (omega arith) fresh

alice_visible : trim_space "alice" ≢ ""
unfolding trim_space
alice_visible h = absurd cc

transaction_known : is_category valid_categories "transaction" ≡ true
unfolding is_category
transaction_known = refl

queries-Log_example :
    (query_by_user demo_runtime "alice" (world_after demo_block)
      ≡ some (select (of_user "alice") (event_of demo_block ∷ [])))
    × (query_by_category demo_runtime "alice" "transaction" (world_after demo_block)
        ≡ some (
            select
              (in_category "transaction")
              (select (of_user "alice") (event_of demo_block ∷ []))))
queries-Log_example =
    queries-Log demo_runtime (world_after demo_block) (event_of demo_block ∷ []) "alice"
      "transaction" block_reached alice_visible refl refl transaction_known

get_proof-Intact_example :
    (p : Proof) × (get_proof demo_runtime "alice" (world_after demo_block) ≡ some p)
    × (p.event_count ≡ length (select (of_user "alice") (event_of demo_block ∷ [])))
    × (p.detail ≡ intact)
    × (p.head_hash ≡ ((world_after demo_block).heads "alice").hash)
get_proof-Intact_example =
    get_proof-Intact demo_runtime (world_after demo_block) (event_of demo_block ∷ []) "alice"
      block_reached refl

get_event-recorded_example :
    get_event demo_runtime
      (event_of demo_block).user_id
      (event_of demo_block).category
      (event_of demo_block).seq
      (world_after demo_block)
    ≡ some (event_of demo_block)
get_event-recorded_example =
    get_event-recorded demo_runtime [] (event_of demo_block) [] block_reached refl refl

cooling_off_refuses_example :
    (e : RecordError) × (record_event demo_runtime
        (demo_record "transaction" "transaction_initiated" 2000)
        (world_after demo_block)
      ≡ (world_after demo_block, refused e))
unfolding record_event record_with is_category trim_space query_user scan scan_category sort_by_seq
    enforce_rules cooling_off_rule consent_revocation_rule double_spend_rule commit put_event
    resolve_window sealed draft
cooling_off_refuses_example =
    cooling_off_refuses demo_runtime (demo_record "transaction" "transaction_initiated" 2000)
      (world_after demo_block) (event_of demo_block) [] [] block_reached refl refl (inl refl)
      (omega arith)

double_spend_refuses_example :
    (e : RecordError) × (record_event demo_runtime
        (demo_record "transaction" "transaction_initiated" 2000)
        (world_after demo_start)
      ≡ (world_after demo_start, refused e))
unfolding record_event record_with is_category trim_space query_user scan scan_category sort_by_seq
    enforce_rules cooling_off_rule consent_revocation_rule double_spend_rule commit put_event
    resolve_window sealed draft
double_spend_refuses_example =
    double_spend_refuses demo_runtime (demo_record "transaction" "transaction_initiated" 2000)
      (world_after demo_start) (event_of demo_start) [] [] start_reached refl refl refl refl
      (λ h. absurd (omega (arith, h)))

consent_refuses_example :
    (e : RecordError) × (record_event demo_runtime
        (demo_record "consent" "data_exported" 2000)
        (world_after demo_revoke)
      ≡ (world_after demo_revoke, refused e))
unfolding record_event record_with is_category trim_space query_user scan scan_category sort_by_seq
    enforce_rules cooling_off_rule consent_revocation_rule double_spend_rule commit put_event
    resolve_window sealed draft
consent_refuses_example =
    consent_refuses demo_runtime (demo_record "consent" "data_exported" 2000)
      (world_after demo_revoke) (event_of demo_revoke) [] [] revoke_reached refl refl tt (inr refl)
      (omega arith)

-- The event that the cooling-off rule is asked about.
abbrev demo_asked : Event
demo_asked = record (event_of demo_start) { timestamp = 2000 }

verify_cooling_off-Agrees_example :
    (remaining : Option ℕ) × (verify_cooling_off demo_runtime 2000 demo_asked.user_id
        (world_after demo_block)
      ≡ some remaining)
    × ((cooling_off_rule demo_runtime
          (resolve_window demo_runtime (world_after demo_block))
          2000
          demo_asked
          (select (of_user demo_asked.user_id) (event_of demo_block ∷ []))).passed
        ≡ not (has_remaining remaining))
unfolding sealed draft trim_space in_category
verify_cooling_off-Agrees_example =
    verify_cooling_off-Agrees demo_runtime (world_after demo_block) (event_of demo_block ∷ [])
      demo_asked block_reached (λ _. refl, tt) refl refl
