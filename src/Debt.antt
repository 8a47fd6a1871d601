-- ===== src/Debt.antt =====
-- Loan amortisation of backend/internal/domain/debt/amortisation.go. Money is an int64 bit pattern,
-- rates are abstract float64 values; powers, logarithms and rounding up are parameters.
pub mod Closing
pub mod Prepay
pub mod Waterfall
use hybrid_quantum_banking_b.Base.{
  ℕ, zero, suc, ◌+◌, ◌||◌, Bool, true, false, List, [], ◌∷◌, ◌==◌, if◌then◌else◌,
}
use hybrid_quantum_banking_b.Base.Int64.{add64, sub64, non_positive, le64}
use hybrid_quantum_banking_b.Base.Float.{Floats}

-- `math.Pow`, `math.Log`, `int(math.Ceil(f))`, negation, and the test for zero.
pub record Powers (fl : Floats) : Type 0 where
  pub pow : fl.F → fl.F → fl.F
  pub log : fl.F → fl.F
  pub ceil : fl.F → ℕ
  pub neg : fl.F → fl.F
  pub is_zero : fl.F → Bool

-- `Row`
pub record Row : Type 0 where
  pub month : ℕ
  pub interest_paise : ℕ
  pub principal_paise : ℕ
  pub balance_paise : ℕ

-- `TotalInterest`
unfoldable pub total_interest : List Row → ℕ
total_interest [] = 0
total_interest (row ∷ rows) = add64 row.interest_paise (total_interest rows)

-- `TotalPrincipal`
unfoldable pub total_principal : List Row → ℕ
total_principal [] = 0
total_principal (row ∷ rows) = add64 row.principal_paise (total_principal rows)

-- `scheduleConverged` of optimise.go
unfoldable pub schedule_converged : List Row → Bool
schedule_converged [] = true
schedule_converged (row ∷ []) = row.balance_paise == 0
schedule_converged (row ∷ next ∷ rows) = schedule_converged (next ∷ rows)

-- What an instalment pays off: all that is left in the last month, or where it would overshoot.
unfoldable pub principal_of : Bool → ℕ → ℕ → ℕ → ℕ
principal_of is_last instalment interest balance =
    let principal = sub64 instalment interest in
    if is_last || le64 balance principal then balance else principal

module _ (fl : Floats) (pw : Powers fl) where
  open fl use {F, lt, le, not_finite, add, sub, mul, div, lit, of_int, round}
  open pw use {pow, log, ceil, neg, is_zero}

  -- `monthlyRate`
  unfoldable pub monthly_rate : F → F
  monthly_rate annual = div (div annual (lit 12000)) (lit 100000)

  -- `roundPaise`
  unfoldable pub round_paise : F → ℕ
  round_paise f = if not_finite f then 0 else round f

  -- The interest of one month on a balance.
  unfoldable pub interest_of : F → ℕ → ℕ
  unfolding round_paise
  interest_of r balance = round_paise (mul (of_int balance) r)

  -- `EMI`
  unfoldable pub emi : ℕ → F → ℕ → ℕ
  unfolding round_paise monthly_rate
  emi principal annual months =
      let r = monthly_rate annual in
      let p = of_int principal in
      let power = pow (add (lit 1000) r) (of_int months) in
      if non_positive months || non_positive principal
      then 0
      else if is_zero r
      then round_paise (div p (of_int months))
      else round_paise (div (mul (mul p r) power) (sub power (lit 1000)))

  -- The loop of `Schedule`, on the months that are left.
  unfoldable pub schedule_loop : F → ℕ → ℕ → ℕ → ℕ → List Row
  schedule_loop r instalment zero k balance = []
  schedule_loop r instalment (suc left) k balance =
      let interest = interest_of r balance in
      let principal = principal_of (left == 0) instalment interest balance in
      let after = sub64 balance principal in
      let rest = schedule_loop r instalment left (k + 1) after in
      if non_positive balance
      then []
      else record {
        month = k;
        interest_paise = interest;
        principal_paise = principal;
        balance_paise = after;
      }
        ∷ rest

  -- `Schedule`; `nil` and an empty schedule are the same list.
  unfoldable pub schedule : ℕ → F → ℕ → List Row
  schedule principal annual months =
      let instalment = emi principal annual months in
      let r = monthly_rate annual in
      if non_positive months || non_positive principal
      then []
      else if non_positive instalment
      then []
      else if (if lt (lit 0) r then le64 instalment (interest_of r principal) else false)
      then []
      else schedule_loop r instalment months 1 principal

  -- `SolveTenure`
  unfoldable pub solve_tenure : ℕ → F → ℕ → ℕ
  unfolding monthly_rate
  solve_tenure principal annual instalment =
      let r = monthly_rate annual in
      let p = of_int principal in
      let e = of_int instalment in
      let n = div (neg (log (sub (lit 1000) (div (mul p r) e)))) (log (add (lit 1000) r)) in
      if non_positive principal || non_positive instalment
      then 0
      else if is_zero r
      then ceil (div p e)
      else if le e (mul p r)
      then 0
      else if not_finite n || le n (lit 0)
      then 0
      else ceil n
