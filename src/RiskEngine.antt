-- ===== src/RiskEngine.antt =====
-- The risk score of a transaction, of backend/internal/domain/transaction (safety.go, heuristic.go,
-- risk_engine.go), over abstract float64 values. The texts of the reasons are left out.
pub mod Signal
pub mod Normal
pub mod Levels
unfoldable pub use Signal.*
use hybrid_quantum_banking_b.Base.{
  ℕ, ◌*◌, Bool, true, false, not, ◌&&◌, ◌||◌, Option, none, some, List, [], ◌∷◌, if◌then◌else◌,
}
use hybrid_quantum_banking_b.Base.Int64.{lt64, le64, mul64}
use hybrid_quantum_banking_b.Base.Float.{Floats}

module _ (fl : Floats) where
  open fl use {F, lt, le, not_finite, add, sub, mul, lit, of_int}

  -- `clampFloat`
  unfoldable pub clamp_float : F → F → F → F → F
  clamp_float x lo hi nan_inf =
      if not_finite x then nan_inf else if lt x lo then lo else if lt hi x then hi else x

  -- `minFloat`
  unfoldable pub min_float : F → F → F
  min_float a b = if lt a b then a else b

-- `normaliseSignal`
unfoldable pub normalise_signal :
    (fl : Floats) → AmountTermParams fl → RiskSignal fl → RiskSignal fl
normalise_signal fl amt sig = record sig {
  amount_vs_average = clamp_float fl sig.amount_vs_average (fl.lit 0) amt.clip_max amt.clip_max;
  balance_impact =
      clamp_float fl sig.balance_impact (fl.lit 0) amt.balance_clip_max amt.balance_clip_max;
  recipient_gnn_score =
      clamp_float fl sig.recipient_gnn_score (fl.lit 0) (fl.lit 1000) (fl.lit 1000);
  behaviour_drift = clamp_float fl sig.behaviour_drift (fl.lit 0) (fl.lit 1000) (fl.lit 1000);
  session_trust_score = clamp_float fl sig.session_trust_score (fl.lit 0) (fl.lit 1000) (fl.lit 0);
}

-- The amount, the recipient, the hour, the PIN failures and the velocity: the first five terms of
-- `assess`, in its order.
history_terms : (fl : Floats) → AmountTermParams fl → RiskSignal fl → fl.F → fl.F
unfolding clamp_float min_float
history_terms fl amt sig s0 =
    let s1 =
      if fl.lt (fl.lit 1000) sig.amount_vs_average
      then fl.add s0 (
          clamp_float fl (fl.mul (fl.sub sig.amount_vs_average (fl.lit 1000)) amt.k) (fl.lit 0)
            amt.cap amt.cap)
      else s0 in
    let s2 = if sig.is_new_recipient then fl.add s1 (fl.lit 15000) else s1 in
    let s3 =
      if le64 sig.hour_of_day 4 || le64 23 sig.hour_of_day then fl.add s2 (fl.lit 10000) else s2 in
    let s4 =
      if lt64 0 sig.failed_pin_attempts
      then fl.add s3 (min_float fl (fl.of_int (mul64 sig.failed_pin_attempts 5)) (fl.lit 15000))
      else s3 in
    if le64 3 sig.velocity_count_1hr
    then fl.add s4 (min_float fl (fl.of_int (mul64 sig.velocity_count_1hr 2)) (fl.lit 10000))
    else s4

-- The balance, the recipient's graph score, the drift and the trust: the last four terms.
session_terms : (fl : Floats) → RiskSignal fl → fl.F → fl.F
unfolding min_float
session_terms fl sig s5 =
    let s6 =
      if fl.lt (fl.lit 800) sig.balance_impact
      then fl.add s5 (fl.lit 10000)
      else if fl.lt (fl.lit 500) sig.balance_impact
      then fl.add s5 (fl.lit 5000)
      else s5 in
    let s7 =
      if fl.lt (fl.lit 0) sig.recipient_gnn_score
      then fl.add s6 (min_float fl (fl.mul sig.recipient_gnn_score (fl.lit 20000)) (fl.lit 20000))
      else s6 in
    let s8 =
      if fl.lt (fl.lit 0) sig.behaviour_drift
      then fl.add s7 (min_float fl (fl.mul sig.behaviour_drift (fl.lit 20000)) (fl.lit 20000))
      else s7 in
    if fl.lt sig.session_trust_score (fl.lit 400)
    then fl.add s8 (fl.lit 15000)
    else if fl.lt sig.session_trust_score (fl.lit 700)
    then fl.add s8 (fl.lit 8000)
    else s8

-- The score before it is cut off at 100.
unfoldable pub raw_score : (fl : Floats) → AmountTermParams fl → RiskSignal fl → fl.F
unfolding history_terms session_terms
raw_score fl amt sig0 =
    let sig = normalise_signal fl amt sig0 in
    session_terms fl sig (history_terms fl amt sig (fl.lit 0))

-- The `switch` of `assess` on the score.
unfoldable pub level_of_score : (fl : Floats) → fl.F → RiskLevel
level_of_score fl score =
    if fl.le (fl.lit 70000) score then high else if fl.le (fl.lit 40000) score then medium else low

-- `HeuristicPredictor.assess`
unfoldable pub assess : (fl : Floats) → AmountTermParams fl → RiskSignal fl → Assessment fl
unfolding raw_score level_of_score min_float
assess fl amt sig =
    let score = raw_score fl amt sig in
    record { level = level_of_score fl score; score = min_float fl score (fl.lit 100000) }

-- `assessmentFromProbs` on P(legit) and P(fraud).
unfoldable pub assessment_from_probs : (fl : Floats) → List fl.F → Assessment fl
unfolding min_float
assessment_from_probs fl (_ ∷ p_fraud ∷ _) = record {
  level =
      if fl.le (fl.lit 700) p_fraud
      then high
      else if fl.le (fl.lit 400) p_fraud
      then medium
      else low;
  score = min_float fl (fl.mul p_fraud (fl.lit 100000)) (fl.lit 100000);
}
assessment_from_probs fl _ = record { level = low; score = fl.lit 0 }

-- What the served model answers: its probabilities for a signal, or an error. It stands for the
-- ONNX runtime with the preprocessing of the signal.
abbrev pub Predictor : Floats → Type 0
Predictor fl = RiskSignal fl → Option (List fl.F)

model_answer :
    (fl : Floats) → AmountTermParams fl → RiskSignal fl → Option (List fl.F) → Assessment fl
unfolding assess assessment_from_probs
model_answer fl amt sig (some (a ∷ b ∷ [])) = assessment_from_probs fl (a ∷ b ∷ [])
model_answer fl amt sig _ = assess fl amt sig

-- `RiskEngine.Evaluate`; the predictor is `none` where the model or its artifact is missing.
unfoldable pub evaluate :
    (fl : Floats) → AmountTermParams fl → Option (Predictor fl) → RiskSignal fl → Assessment fl
unfolding model_answer
evaluate fl amt predictor sig0 =
    let sig = normalise_signal fl amt sig0 in
    elim predictor [
      | none ↦ assess fl amt sig
      | some predict ↦
          if sig.is_cold_start then assess fl amt sig else model_answer fl amt sig (predict sig)
    ]
