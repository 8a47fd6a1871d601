-- ===== src/RiskEngine/Normal.antt =====
-- Normalised signals (safety.go, `clampFloat`, `normaliseSignal`).
use hybrid_quantum_banking_b.Base.{◌≡◌, true, false, arith}
use hybrid_quantum_banking_b.Base.Float.{Floats}
use hybrid_quantum_banking_b.RiskEngine.{
  AmountTermParams, RiskSignal, clamp_float, normalise_signal,
}

-- What IEEE 754 says of the order: nothing is below itself, and of two finite values that are not
-- in one strict order the second is at most the first.
pub record FloatOrder (fl : Floats) : Type 0 where
  pub irreflexive : (a : fl.F) → fl.lt a a ≡ false
  pub not_lt_le :
      (a b : fl.F)
      → fl.not_finite a ≡ false
      → fl.not_finite b ≡ false
      → fl.lt a b ≡ false
      → fl.le b a ≡ true

-- A range with finite ends, the lower not above the upper.
pub record IsRange (fl : Floats) (lo hi : fl.F) : Type 0 where
  pub lo_finite : fl.not_finite lo ≡ false
  pub hi_finite : fl.not_finite hi ≡ false
  pub ordered : fl.lt hi lo ≡ false
  pub lo_le : fl.le lo lo ≡ true
  pub hi_le : fl.le hi hi ≡ true
  pub below : fl.le lo hi ≡ true

abbrev pub IsWithin : (fl : Floats) → fl.F → fl.F → fl.F → Type 0
IsWithin fl lo hi x = (fl.le lo x ≡ true) × (fl.le x hi ≡ true)

module _ (fl : Floats) (o : FloatOrder fl) where
  clamp_float-IsWithin :
      (x lo hi d : fl.F)
      → IsRange fl lo hi
      → IsWithin fl lo hi d
      → IsWithin fl lo hi (clamp_float fl x lo hi d)
  unfolding clamp_float
  clamp_float-IsWithin x lo hi d r w = ground (arith, o.not_lt_le x lo, o.not_lt_le hi x)

  clamp_float_idem :
      (x lo hi d d' : fl.F)
      → IsRange fl lo hi
      → fl.not_finite d ≡ false
      → fl.lt d lo ≡ false
      → fl.lt hi d ≡ false
      → clamp_float fl (clamp_float fl x lo hi d) lo hi d' ≡ clamp_float fl x lo hi d
  unfolding clamp_float
  clamp_float_idem x lo hi d d' r f a b = ground (arith, o.irreflexive lo, o.irreflexive hi)

  -- The parameters name finite ranges that start at 0.
  pub record AreSane (amt : AmountTermParams fl) : Type 0 where
    pub amount_range : IsRange fl (fl.lit 0) amt.clip_max
    pub balance_range : IsRange fl (fl.lit 0) amt.balance_clip_max
    pub unit_range : IsRange fl (fl.lit 0) (fl.lit 1000)

  -- Whatever the caller passes, infinities and NaN included, every ratio of the normalised signal
  -- lies within its range.
  pub normalise_signal-IsWithin :
      (amt : AmountTermParams fl) (sig : RiskSignal fl)
      → AreSane amt
      → let n = normalise_signal fl amt sig in
        IsWithin fl (fl.lit 0) amt.clip_max n.amount_vs_average
        × IsWithin fl (fl.lit 0) amt.balance_clip_max n.balance_impact
        × IsWithin fl (fl.lit 0) (fl.lit 1000) n.recipient_gnn_score
        × IsWithin fl (fl.lit 0) (fl.lit 1000) n.behaviour_drift
        × IsWithin fl (fl.lit 0) (fl.lit 1000) n.session_trust_score
  unfolding normalise_signal
  normalise_signal-IsWithin amt sig s =
      let a = s.amount_range in
      let b = s.balance_range in
      let u = s.unit_range in
      (
        clamp_float-IsWithin _ _ _ _ a (a.below, a.hi_le),
        clamp_float-IsWithin _ _ _ _ b (b.below, b.hi_le),
        clamp_float-IsWithin _ _ _ _ u (u.below, u.hi_le),
        clamp_float-IsWithin _ _ _ _ u (u.below, u.hi_le),
        clamp_float-IsWithin _ _ _ _ u (u.lo_le, u.below),
      )

  -- `Evaluate` normalises a signal and `assess` does so again: the second time changes nothing.
  pub normalise_signal_idem :
      (amt : AmountTermParams fl) (sig : RiskSignal fl)
      → AreSane amt
      → normalise_signal fl amt (normalise_signal fl amt sig) ≡ normalise_signal fl amt sig
  unfolding normalise_signal
  normalise_signal_idem amt sig s =
      let a = s.amount_range in
      let b = s.balance_range in
      let u = s.unit_range in
      let clip = amt.clip_max in
      let top = amt.balance_clip_max in
      let one = fl.lit 1000 in
      let lo = fl.lit 0 in
      cc (
        clamp_float_idem sig.amount_vs_average lo clip clip clip a a.hi_finite a.ordered
            (o.irreflexive clip),
        clamp_float_idem sig.balance_impact lo top top top b b.hi_finite b.ordered
            (o.irreflexive top),
        clamp_float_idem sig.recipient_gnn_score lo one one one u u.hi_finite u.ordered
            (o.irreflexive one),
        clamp_float_idem sig.behaviour_drift lo one one one u u.hi_finite u.ordered
            (o.irreflexive one),
        clamp_float_idem sig.session_trust_score lo one lo lo u u.lo_finite (o.irreflexive lo)
            u.ordered,
      )
