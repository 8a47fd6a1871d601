-- ===== src/Examples/Payees.antt =====
-- Runs of the SIM binding and the payments.
use Prim.Native.String.{◌++◌ as ◌+s◌}
use hybrid_quantum_banking_b.Base.{
  ℕ, ◌≡◌, inl, refl, String, str_eq, true, false, Option, none, some, [], ◌∷◌, if◌then◌else◌,
}
use hybrid_quantum_banking_b.Base.Float.{milli}
use hybrid_quantum_banking_b.Payments.{
  Payment, PaymentRequest, PaymentService, ReceiptRequest, Bank, initiated, already_verified,
  verify_payment_receipt, find_payment,
}
use hybrid_quantum_banking_b.Payments.Receipts.{HasPayment, IsCompleted, receipt_verified_once}
use hybrid_quantum_banking_b.SimBinding.{
  SimManager, Challenge, Binding, challenge_not_found, verify_challenge, verify_found, verify_ubt,
  is_bound, revoke_binding, detect_sim_swap,
}
use hybrid_quantum_banking_b.SimBinding.Lifecycle.{IsOpen, verify_challenge_binds}
use hybrid_quantum_banking_b.Examples.Setup.{demo_env, demo_state}

abbrev demo_challenge : Challenge
demo_challenge = record {
  challenge_id = "c1";
  user_id = "alice";
  mobile_number = "99";
  device_id = "d1";
  vnn_code = "VNN-1";
  created_at = 0;
  expires_at = 600;
  verified = false;
}

abbrev demo_binding : Binding
demo_binding = record {
  user_id = "alice";
  mobile_number = "99";
  device_id = "d1";
  sim_hash = "hsim";
  ubt = "ubt_1";
  verified = true;
  verified_at = 0;
  created_at = 0;
  last_checked_at = 0;
  revoked_at = none;
}

abbrev demo_sims : SimManager
demo_sims = record {
  bindings = λ u. if str_eq u "alice" then some demo_binding else none;
  challenges = λ id. if str_eq id "c1" then some demo_challenge else none;
}

abbrev demo_hash : String → String
demo_hash iccid = "h" +s iccid

challenge_passed : (verify_challenge demo_hash 100 "ubt_2" "c1" "VNN-1" "sim" demo_sims).1 ≡ none
unfolding verify_challenge verify_found
challenge_passed = refl

verify_challenge_binds_example :
    let m' = (verify_challenge demo_hash 100 "ubt_2" "c1" "VNN-1" "sim" demo_sims).0 in
    (ch : Challenge) × IsOpen 100 "c1" "VNN-1" ch demo_sims
    × (is_bound ch.user_id m' ≡ true)
    × (verify_ubt ch.user_id "ubt_2" m' ≡ none)
    × (detect_sim_swap ch.user_id (demo_hash "sim") m' ≡ false)
    × ((later : ℕ) (ubt' code' iccid' : String)
        → verify_challenge demo_hash later ubt' "c1" code' iccid' m'
          ≡ (m', some challenge_not_found))
verify_challenge_binds_example =
    verify_challenge_binds demo_hash 100 "ubt_2" "c1" "VNN-1" "sim" demo_sims challenge_passed

binding_revoked : (revoke_binding 100 "alice" demo_sims).1 ≡ none
unfolding revoke_binding
binding_revoked = refl

abbrev demo_payment : Payment milli
demo_payment = record {
  id = "pay1";
  user_id = "alice";
  beneficiary_name = "bob";
  beneficiary_account = "bob@upi";
  amount_paise = 300;
  currency = "INR";
  method = "upi";
  status = initiated;
  risk_level = "low";
  risk_score = 0;
  started_at = 10;
  completed_at = none;
  otp_verified = true;
  user_consent = true;
  receipt = none;
}

abbrev demo_service : PaymentService demo_env
demo_service = record {
  core = demo_state 1000 false [];
  payments = λ u. if str_eq u "alice" then demo_payment ∷ [] else [];
  mule_scores = λ _. none;
}

abbrev demo_bank : Bank
demo_bank = record { verify_upi = λ _. some true; get_balance = λ _. some 1000 }

abbrev demo_json : Payment milli → Option String
demo_json p = some p.id

abbrev demo_order : PaymentRequest
demo_order = record {
  beneficiary_name = "bob";
  beneficiary_account = "bob@upi";
  amount_paise = 300;
  currency = "";
  method = "";
  otp_verified = true;
  user_consent = true;
}

abbrev demo_receipt : ReceiptRequest
demo_receipt = record { receipt_hash = "r1"; verified_by = "bob"; verifier_type = "" }

payment_stored : HasPayment demo_env "alice" "pay1" demo_service demo_payment
unfolding find_payment
payment_stored = record { known = refl; found = refl; unverified = refl }

receipt_verified_once_example :
    let s' =
      (verify_payment_receipt demo_env demo_json 50 "alice" "pay1" demo_receipt demo_service).0 in
    ((p' : Payment milli) × (find_payment demo_env "pay1" (s'.payments "alice") ≡ some p')
      × IsCompleted demo_env 50 demo_receipt demo_payment p')
    × (verify_payment_receipt demo_env demo_json 60 "alice" "pay1" demo_receipt s'
        ≡ (s', inl already_verified))
receipt_verified_once_example =
    receipt_verified_once demo_env demo_json 50 60 "alice" "pay1" demo_receipt demo_receipt
      demo_service demo_payment payment_stored
