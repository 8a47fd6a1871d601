-- ===== src/Debt/Prepay.antt =====
-- Prepayments, foreclosure and repricing of a loan (backend/internal/domain/debt/optimise.go).
-- Explanation texts are left out.
pub mod Months
pub mod Savings
use hybrid_quantum_banking_b.Base.{
  ℕ, zero, suc, ◌+◌, ◌-◌, ◌==◌, ltb, String, str_eq, Bool, true, false, not, ◌&&◌, ◌||◌, List, [],
  ◌∷◌, Option, none, some, length, if◌then◌else◌,
}
use hybrid_quantum_banking_b.Base.Int64.{sub64, non_positive, is_negative, le64, lt64}
use hybrid_quantum_banking_b.Base.Float.{Floats}
use hybrid_quantum_banking_b.Debt.{
  Powers, Row, total_interest, schedule_converged, monthly_rate, round_paise, interest_of, emi,
  schedule,
}

-- `Loan`
pub record Loan (fl : Floats) : Type 0 where
  pub id : String
  pub principal_paise : ℕ
  pub annual_rate_pct : fl.F
  pub months : ℕ
  pub emi_paise : ℕ
  pub floating : Bool
  pub loan_type : String

-- `map[int]int64`: the prepayment of each month.
abbrev pub Prepayments : Type 0
Prepayments = ℕ → Option ℕ

-- What a prepayment takes off the balance.
unfoldable pub extra_of : Option ℕ → ℕ → ℕ
extra_of none balance = 0
extra_of (some extra) balance =
    if non_positive extra then 0 else if lt64 balance extra then balance else extra

-- The smaller of an instalment's principal and the balance.
unfoldable pub capped : ℕ → ℕ → ℕ
capped balance principal = if le64 balance principal then balance else principal

-- `PrepaymentResult`
pub record PrepaymentResult : Type 0 where
  pub interest_saved_paise : ℕ
  pub tenure_reduced_months : ℕ
  pub baseline_months : ℕ
  pub new_months : ℕ
  pub baseline_interest : ℕ
  pub new_interest : ℕ
  pub converged : Bool

-- `isIndividualRetail`
unfoldable pub is_individual_retail : String → Bool
is_individual_retail loan_type = not (
    str_eq loan_type "business"
    || str_eq loan_type "commercial"
    || str_eq loan_type "sme"
    || str_eq loan_type "msme")

-- `monthCap`
abbrev pub month_cap : ℕ
month_cap = 1200

module _ (fl : Floats) (pw : Powers fl) where
  open fl use {F, lt, le, add, sub, mul, div, lit, of_int}

  -- `Loan.emi`
  unfoldable pub loan_emi : Loan fl → ℕ
  loan_emi loan =
      if not (non_positive loan.emi_paise)
      then loan.emi_paise
      else emi fl pw loan.principal_paise loan.annual_rate_pct loan.months

  -- The loop of `prepaySchedule`, on the months up to the cap.
  unfoldable pub prepay_loop : F → ℕ → Prepayments → ℕ → ℕ → ℕ → List Row
  prepay_loop r instalment prepayments zero k balance = []
  prepay_loop r instalment prepayments (suc left) k balance =
      let extra = extra_of (prepayments k) balance in
      let lowered = sub64 balance extra in
      let interest = interest_of fl pw r lowered in
      let principal = sub64 instalment interest in
      let paid = capped lowered principal in
      let after = sub64 lowered paid in
      let rest = prepay_loop r instalment prepayments left (k + 1) after in
      if non_positive balance
      then []
      else if not (extra == 0) && lowered == 0
      then record { month = k; interest_paise = 0; principal_paise = extra; balance_paise = 0 } ∷ []
      else if non_positive principal
      then []
      else record {
        month = k;
        interest_paise = interest;
        principal_paise = paid;
        balance_paise = after;
      }
        ∷ rest

  -- `prepaySchedule`
  unfoldable pub prepay_schedule : ℕ → F → ℕ → Prepayments → List Row
  prepay_schedule principal annual instalment prepayments =
      if non_positive principal || non_positive instalment
      then []
      else prepay_loop (monthly_rate fl pw annual) instalment prepayments month_cap 1 principal

  -- `map[int]int64{extraMonth: extraPaise}`
  abbrev pub single : ℕ → ℕ → Prepayments
  single month extra k = if k == month then some extra else none

  -- `PrepaymentImpact`
  unfoldable pub prepayment_impact : Loan fl → ℕ → ℕ → PrepaymentResult
  prepayment_impact loan extra extra_month =
      let instalment = loan_emi loan in
      let month = if non_positive extra_month then 1 else extra_month in
      let base = prepay_schedule loan.principal_paise loan.annual_rate_pct instalment (λ _. none) in
      let prepay =
        prepay_schedule loan.principal_paise loan.annual_rate_pct instalment (single month extra) in
      let base_interest = total_interest base in
      let interest = total_interest prepay in
      let saved = sub64 base_interest interest in
      record {
        interest_saved_paise = if is_negative saved then 0 else saved;
        tenure_reduced_months = length base - length prepay;
        baseline_months = length base;
        new_months = length prepay;
        baseline_interest = base_interest;
        new_interest = interest;
        converged = schedule_converged base && schedule_converged prepay;
      }

  -- `ForeclosurePenaltyRate`, with the rate of `config.ForeclosureParams`.
  unfoldable pub foreclosure_penalty_rate : String → Bool → F → F
  foreclosure_penalty_rate loan_type floating lender_rate =
      if floating && is_individual_retail loan_type then lit 0 else lender_rate

  -- `ForeclosureResult`
  pub record ForeclosureResult : Type 0 where
    pub has_penalty : Bool
    pub penalty_rate : F
    pub penalty_amount_paise : ℕ
    pub remaining_interest_paise : ℕ
    pub opportunity_cost_paise : ℕ
    pub net_benefit_paise : ℕ
    pub recommended : Bool

  -- `ForeclosureDecision`, with the penalty rate of the lender and the expected return.
  unfoldable pub foreclosure_decision : Loan fl → ℕ → F → F → ForeclosureResult
  foreclosure_decision loan amount_used lender_rate expected_return =
      let rate = foreclosure_penalty_rate loan.loan_type loan.floating lender_rate in
      let penalty = round_paise fl pw (mul (of_int loan.principal_paise) rate) in
      let remaining =
        total_interest (schedule fl pw loan.principal_paise loan.annual_rate_pct loan.months) in
      let loan_rate = div loan.annual_rate_pct (lit 100000) in
      let years = div (of_int loan.months) (lit 12000) in
      let cost =
        round_paise fl pw (mul (mul (of_int amount_used) (sub expected_return loan_rate)) years) in
      let net = sub64 (sub64 remaining penalty) cost in
      record {
        has_penalty = lt (lit 0) rate;
        penalty_rate = rate;
        penalty_amount_paise = penalty;
        remaining_interest_paise = remaining;
        opportunity_cost_paise = cost;
        net_benefit_paise = net;
        recommended = not (is_negative net);
      }

  -- `RepoRateRecompute`: the rate before rounding for display, and the instalments before and
  -- after.
  unfoldable pub repo_rate_recompute : Loan fl → F → F → F × ℕ × ℕ
  repo_rate_recompute loan delta_bps transmission =
      let moved = add loan.annual_rate_pct (mul (div delta_bps (lit 100000)) transmission) in
      let rate = if lt moved (lit 0) then lit 0 else moved in
      (rate, loan_emi loan, emi fl pw loan.principal_paise rate loan.months)
