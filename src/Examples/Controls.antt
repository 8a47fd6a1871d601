-- ===== src/Examples/Controls.antt =====
-- Runs of the one-time passwords, the adaptive authentication, the risk engine and the threat
-- counters.
use hybrid_quantum_banking_b.Base.{
  ℕ, ◌+◌, ◌<◌, ◌≡◌, ◌≢◌, ◌⊎◌, inl, inr, refl, eq_iff, true, false, none, some, [], ◌∷◌, arith,
}
use hybrid_quantum_banking_b.Base.Float.{milli}
use hybrid_quantum_banking_b.Base.Text.{trim_space}
use hybrid_quantum_banking_b.AdaptiveAuth.{SessionProfile, TransactionProfile, evaluate_auth_tier}
use hybrid_quantum_banking_b.AdaptiveAuth.Tiers.{IsHighRisk, IsAnomalous}
use hybrid_quantum_banking_b.Otp.{
  Profile, verify_otp_token, verify_profile, require_user, count_attempt, too_many_attempts,
}
use hybrid_quantum_banking_b.Otp.Attempts.{IsChecked, accepted_once, third_failure_locks}
use hybrid_quantum_banking_b.RiskEngine.{RiskSignal, normalise_signal, Predictor}
use hybrid_quantum_banking_b.RiskEngine.Normal.{
  FloatOrder, IsRange, IsWithin, AreSane, normalise_signal-IsWithin,
}
use hybrid_quantum_banking_b.Examples.Setup.{demo_auth, demo_otp, demo_params}

abbrev stored : Profile
stored = record { code = "123456"; expiry = some 900 }

accepted : (verify_otp_token 200 true "alice" "123456" demo_otp).1 ≡ none
unfolding verify_otp_token verify_profile require_user trim_space
accepted = refl

accepted_once_example :
    (verify_otp_token 300 true "alice" "123456"
      (verify_otp_token 200 true "alice" "123456" demo_otp).0).1
    ≢ none
accepted_once_example = accepted_once 200 300 true true "alice" "123456" "123456" demo_otp accepted

wrong : (verify_otp_token 200 true "alice" "000000" demo_otp).1 ≢ none
unfolding verify_otp_token verify_profile require_user trim_space count_attempt
wrong h = cc

wrong-IsChecked : IsChecked 200 true "alice" "000000" demo_otp
unfolding require_user trim_space
wrong-IsChecked = record {
  user_known = refl;
  named = ground (arith, eq_iff "000000" "");
  unlocked = refl;
  profile = stored;
  stored = refl;
}

right_text : trim_space "123456" ≢ ""
unfolding trim_space
right_text = ground (arith, eq_iff "123456" "")

third_failure_locks_example :
    let s' = (verify_otp_token 200 true "alice" "000000" demo_otp).0 in
    ((demo_otp.attempts "alice" ≡ 2)
      × ((verify_otp_token 250 true "alice" "123456" s').1 ≡ some too_many_attempts)
      × (s'.attempts "alice" ≡ 0))
    ⊎ ((demo_otp.attempts "alice" < 2)
        × (s'.attempts "alice" ≡ demo_otp.attempts "alice" + 1)
        × (s'.lock_until "alice" ≡ demo_otp.lock_until "alice"))
third_failure_locks_example =
    third_failure_locks 200 250 true "alice" "000000" "123456" demo_otp wrong-IsChecked wrong
      (omega arith) right_text (omega arith)

abbrev calm : SessionProfile milli
calm = record {
  device_trust_score = 900;
  behavioural_drift = 100;
  session_age = 0;
  failed_auth_attempts = 0;
  is_anomalous_session = false;
  is_trusted_device = true;
}

abbrev drifting : SessionProfile milli
drifting = record calm { behavioural_drift = 900 }

abbrev small : TransactionProfile milli
small = record {
  risk_score = 10000;
  risk_level = "low";
  amount_paise = 300;
  is_new_recipient = false;
  amount_vs_average = 1000;
}

small_not_high : ¬ (IsHighRisk milli small)
small_not_high = λ h. elim h [ inl e ↦ ground (arith, eq_iff "low" "high") | inr e ↦ ground arith ]

no_otp : (evaluate_auth_tier milli demo_auth calm small).require_otp ≡ false
unfolding evaluate_auth_tier
no_otp = refl

not-IsAnomalous : ¬ (IsAnomalous milli calm)
not-IsAnomalous = λ h. elim h [ inl e ↦ ground arith | inr e ↦ ground arith ]

milli_order : FloatOrder milli
milli_order = record { irreflexive = λ a. ground arith; not_lt_le = λ a b f g h. ground (arith, h) }

milli-IsRange : (hi : ℕ) → IsRange milli 0 hi
milli-IsRange hi = record {
  lo_finite = refl;
  hi_finite = refl;
  ordered = ground arith;
  lo_le = refl;
  hi_le = ground arith;
  below = ground arith;
}

demo-AreSane : AreSane milli milli_order demo_params
demo-AreSane = record {
  amount_range = milli-IsRange 10000;
  balance_range = milli-IsRange 1000;
  unit_range = milli-IsRange 1000;
}

abbrev demo_signal : RiskSignal milli
demo_signal = record {
  amount_vs_average = 50000;
  is_new_recipient = true;
  hour_of_day = 2;
  failed_pin_attempts = 1;
  velocity_count_1hr = 4;
  balance_impact = 5000;
  recipient_gnn_score = 300;
  behaviour_drift = 2000;
  session_trust_score = 500;
  is_cold_start = true;
  transaction_amount = 3000;
  account_age_days = 10;
  current_balance = 10000;
  payment_channel = "upi";
  currency = "INR";
  account_type = "savings";
}

normalise_signal-IsWithin_example :
    let n = normalise_signal milli demo_params demo_signal in
    IsWithin milli 0 10000 n.amount_vs_average
    × IsWithin milli 0 1000 n.balance_impact
    × IsWithin milli 0 1000 n.recipient_gnn_score
    × IsWithin milli 0 1000 n.behaviour_drift
    × IsWithin milli 0 1000 n.session_trust_score
normalise_signal-IsWithin_example =
    normalise_signal-IsWithin milli milli_order demo_params demo_signal demo-AreSane

milli_lt_le : (a b : ℕ) → milli.lt a b ≡ true → milli.le a b ≡ true
milli_lt_le a b h = ground (arith, h)

abbrev demo_predictor : Predictor milli
demo_predictor = λ _. some (200 ∷ 800 ∷ [])
