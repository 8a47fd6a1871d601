-- ===== src/RiskEngine/Levels.antt =====
-- Levels and scores of an assessment, and when the served model decides (heuristic.go,
-- risk_engine.go).
use hybrid_quantum_banking_b.Base.{
  ◌≡◌, ◌↔◌, ◌⊎◌, inl, inr, refl, true, false, Option, none, some, List, [], ◌∷◌, arith,
}
use hybrid_quantum_banking_b.Base.Float.{Floats}
use hybrid_quantum_banking_b.RiskEngine.{
  AmountTermParams, RiskSignal, medium, high, raw_score, normalise_signal, assess,
  assessment_from_probs, evaluate, model_answer, Predictor,
}
use hybrid_quantum_banking_b.RiskEngine.Normal.{FloatOrder, AreSane, normalise_signal_idem}

module _ (fl : Floats) where
  -- The heuristic's level is `high` exactly for a raw score of 70 or more, `medium` exactly for one
  -- of 40 or more and not 70.
  pub assess_level :
      (amt : AmountTermParams fl) (sig : RiskSignal fl)
      → (((assess fl amt sig).level ≡ high) ↔ (fl.le (fl.lit 70000) (raw_score fl amt sig) ≡ true))
        × (((assess fl amt sig).level ≡ medium) ↔ (
            (fl.le (fl.lit 70000) (raw_score fl amt sig) ≡ false)
            × (fl.le (fl.lit 40000) (raw_score fl amt sig) ≡ true)))
  unfolding assess
  assess_level amt sig = grind arith

  assess_bounded :
      (amt : AmountTermParams fl) (sig : RiskSignal fl)
      → ((a b : fl.F) → fl.lt a b ≡ true → fl.le a b ≡ true)
      → fl.le (fl.lit 100000) (fl.lit 100000) ≡ true
      → fl.le (assess fl amt sig).score (fl.lit 100000) ≡ true
  unfolding assess
  assess_bounded amt sig l r = ground (arith, l (raw_score fl amt sig) (fl.lit 100000))

  probs_bounded :
      (a b : fl.F)
      → ((a b : fl.F) → fl.lt a b ≡ true → fl.le a b ≡ true)
      → fl.le (fl.lit 100000) (fl.lit 100000) ≡ true
      → fl.le (assessment_from_probs fl (a ∷ b ∷ [])).score (fl.lit 100000) ≡ true
  unfolding assessment_from_probs
  probs_bounded a b l r = ground (arith, l (fl.mul b (fl.lit 100000)) (fl.lit 100000))

  model_answer_bounded :
      (amt : AmountTermParams fl) (sig : RiskSignal fl) (answer : Option (List fl.F))
      → ((a b : fl.F) → fl.lt a b ≡ true → fl.le a b ≡ true)
      → fl.le (fl.lit 100000) (fl.lit 100000) ≡ true
      → fl.le (model_answer fl amt sig answer).score (fl.lit 100000) ≡ true
  unfolding model_answer
  model_answer_bounded amt sig (some (a ∷ b ∷ [])) l r = probs_bounded a b l r
  model_answer_bounded amt sig _ l r = assess_bounded amt sig l r

  -- A score is at most 100, whether the heuristic or the served model gave it and whatever the
  -- signal is, if the order of float64 is as it should be at 100.
  pub evaluate_bounded :
      (amt : AmountTermParams fl) (predictor : Option (Predictor fl)) (sig : RiskSignal fl)
      → ((a b : fl.F) → fl.lt a b ≡ true → fl.le a b ≡ true)
      → fl.le (fl.lit 100000) (fl.lit 100000) ≡ true
      → fl.le (evaluate fl amt predictor sig).score (fl.lit 100000) ≡ true
  unfolding evaluate
  evaluate_bounded amt none sig l r = assess_bounded amt (normalise_signal fl amt sig) l r
  evaluate_bounded amt (some predict) sig l r =
      let n = normalise_signal fl amt sig in
      ground (arith, assess_bounded amt n l r, model_answer_bounded amt n (predict n) l r)

  cold_start-normalise :
      (amt : AmountTermParams fl) (sig : RiskSignal fl)
      → (normalise_signal fl amt sig).is_cold_start ≡ sig.is_cold_start
  unfolding normalise_signal
  cold_start-normalise amt sig = refl

  module _ (o : FloatOrder fl) where
    raw_score-normalise :
        (amt : AmountTermParams fl) (sig : RiskSignal fl)
        → AreSane fl o amt
        → raw_score fl amt (normalise_signal fl amt sig) ≡ raw_score fl amt sig
    unfolding raw_score
    raw_score-normalise amt sig s = rw (normalise_signal_idem fl o amt sig s)

    assess-normalise :
        (amt : AmountTermParams fl) (sig : RiskSignal fl)
        → AreSane fl o amt
        → assess fl amt (normalise_signal fl amt sig) ≡ assess fl amt sig
    unfolding assess
    assess-normalise amt sig s = rw (raw_score-normalise amt sig s)

    -- Two probabilities, as the served model should return.
    abbrev pub IsPair : Option (List fl.F) → Type 0
    IsPair (some (a ∷ b ∷ [])) = Unit
    IsPair _ = ⊥

    model_answer_other :
        (amt : AmountTermParams fl) (sig : RiskSignal fl) (answer : Option (List fl.F))
        → ¬ (IsPair answer)
        → model_answer fl amt sig answer ≡ assess fl amt sig
    unfolding model_answer
    model_answer_other amt sig (some (a ∷ b ∷ [])) h = absurd (h tt)
    model_answer_other amt sig _ h = refl

    -- Where the served model fails or answers anything but two probabilities, and for a signal that
    -- is marked as a cold start, the assessment is the heuristic's of the same signal.
    pub evaluate_fallback :
        (amt : AmountTermParams fl) (predict : Predictor fl) (sig : RiskSignal fl)
        → AreSane fl o amt
        → (sig.is_cold_start ≡ true) ⊎ (¬ (IsPair (predict (normalise_signal fl amt sig))))
        → evaluate fl amt (some predict) sig ≡ assess fl amt sig
    unfolding evaluate
    evaluate_fallback amt predict sig s (inl cold) =
        ground (arith, cold_start-normalise amt sig, assess-normalise amt sig s)
    evaluate_fallback amt predict sig s (inr other) = ground (
      arith,
      model_answer_other amt (normalise_signal fl amt sig) (predict (normalise_signal fl amt sig))
          other,
      assess-normalise amt sig s,
    )
