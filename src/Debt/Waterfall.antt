-- ===== src/Debt/Waterfall.antt =====
-- The rollover waterfalls over several loans (backend/internal/domain/debt/optimise.go).
-- Explanation texts are left out; sorting for display is `SortForStrategy`.
pub mod Target
use hybrid_quantum_banking_b.Base.{
  ℕ, zero, suc, ◌+◌, ◌==◌, String, str_eq, Bool, true, false, not, ◌&&◌, ◌||◌, List, [], ◌∷◌,
  Option, none, some, length, if◌then◌else◌, select, map,
}
use hybrid_quantum_banking_b.Base.Int64.{add64, sub64, non_positive, is_negative, lt64, le64}
use hybrid_quantum_banking_b.Base.Float.{Floats}
use hybrid_quantum_banking_b.Debt.{Powers, monthly_rate, interest_of}
use hybrid_quantum_banking_b.Debt.Prepay.{Loan, loan_emi, month_cap}

-- `acct`
pub record Acct (fl : Floats) : Type 0 where
  pub bal : ℕ
  pub r : fl.F
  pub emi : ℕ
  pub rate : fl.F

module _ (fl : Floats) (pw : Powers fl) where
  open fl use {F, lt, lit}

  -- The loop of `simulateWaterfall` over the loans that are still to be paid.
  unfoldable pub accts_of : List (Loan fl) → List (Acct fl)
  accts_of [] = []
  accts_of (loan ∷ loans) =
      let rest = accts_of loans in
      if non_positive loan.principal_paise
      then rest
      else record {
        bal = loan.principal_paise;
        r = monthly_rate fl pw loan.annual_rate_pct;
        emi = loan_emi fl pw loan;
        rate = loan.annual_rate_pct;
      }
        ∷ rest

  -- `anyActive`
  unfoldable pub any_active : List (Acct fl) → Bool
  any_active [] = false
  any_active (a ∷ accts) = not (non_positive a.bal) || any_active accts

  -- Step 1 of a month for one loan: the interest that accrues and the loan after its instalment.
  unfoldable pub pay_emi : Acct fl → ℕ × Acct fl
  pay_emi a =
      let interest = interest_of fl pw a.r a.bal in
      let principal = sub64 a.emi interest in
      let paid = if lt64 a.bal principal then a.bal else principal in
      if non_positive a.bal
      then (0, a)
      else if non_positive principal
      then (interest, a)
      else (interest, record a { bal = sub64 a.bal paid })

  unfoldable pub pay_emis : ℕ → List (Acct fl) → ℕ × List (Acct fl)
  pay_emis total [] = (total, [])
  pay_emis total (a ∷ accts) =
      let (interest, after) = pay_emi a in
      let (sum, rest) = pay_emis (add64 total interest) accts in (sum, after ∷ rest)

  -- Step 2: the extra budget and the instalments of the closed loans.
  unfoldable pub pool_of : ℕ → List (Acct fl) → ℕ
  pool_of pool [] = pool
  pool_of pool (a ∷ accts) = pool_of (if non_positive a.bal then add64 pool a.emi else pool) accts

  -- The loan `a` comes before the best one so far.
  unfoldable pub is_better : Bool → Acct fl → Acct fl → Bool
  is_better snowball a best = if snowball then lt64 a.bal best.bal else lt best.rate a.rate

  -- The loop of `pickTarget` from the index `i` on, with the best index so far.
  unfoldable pub pick_from : Bool → ℕ → Option (ℕ × Acct fl) → List (Acct fl) → Option (ℕ × Acct fl)
  pick_from snowball i best [] = best
  pick_from snowball i none (a ∷ accts) =
      pick_from snowball (suc i) (if non_positive a.bal then none else some (i, a)) accts
  pick_from snowball i (some best) (a ∷ accts) =
      pick_from snowball (suc i)
        (if not (non_positive a.bal) && is_better snowball a best.1 then some (i, a) else some best)
        accts

  -- `pickTarget`, with the loan at the index; `none` for the index -1.
  unfoldable pub pick_target : Bool → List (Acct fl) → Option (ℕ × Acct fl)
  pick_target snowball accts = pick_from snowball 0 none accts

  -- Step 3: the pool goes to one loan.
  unfoldable pub pour : ℕ → ℕ → List (Acct fl) → List (Acct fl)
  pour i pool [] = []
  pour zero pool (a ∷ accts) =
      record a { bal = sub64 a.bal (if lt64 a.bal pool then a.bal else pool) } ∷ accts
  pour (suc i) pool (a ∷ accts) = a ∷ pour i pool accts

  unfoldable pub pour_target : ℕ → Option (ℕ × Acct fl) → List (Acct fl) → List (Acct fl)
  pour_target pool none accts = accts
  pour_target pool (some (i, _)) accts = if non_positive pool then accts else pour i pool accts

  -- One month: the interest so far and the loans.
  unfoldable pub month_of : Bool → ℕ → ℕ → List (Acct fl) → ℕ × List (Acct fl)
  month_of snowball extra total accts =
      let (sum, paid) = pay_emis total accts in
      (sum, pour_target (pool_of extra paid) (pick_target snowball paid) paid)

  -- The loop of `simulateWaterfall`, on the months up to the cap.
  unfoldable pub waterfall_loop : Bool → ℕ → ℕ → ℕ → ℕ → List (Acct fl) → ℕ × ℕ × List (Acct fl)
  waterfall_loop snowball extra zero month total accts = (total, month, accts)
  waterfall_loop snowball extra (suc left) month total accts =
      let (sum, after) = month_of snowball extra total accts in
      let rest = waterfall_loop snowball extra left (month + 1) sum after in
      if any_active accts then rest else (total, month, accts)

  -- `simulateWaterfall`: the interest, the months, and whether all loans are closed.
  unfoldable pub simulate_waterfall : List (Loan fl) → ℕ → Bool → ℕ × ℕ × Bool
  simulate_waterfall loans extra snowball =
      let accts = accts_of loans in
      let (total, month, after) = waterfall_loop snowball extra month_cap 0 0 accts in
      if length accts == 0 then (0, 0, true) else (total, month, not (any_active after))

  -- `OptimiseResult`
  pub record OptimiseResult : Type 0 where
    pub avalanche_interest_paise : ℕ
    pub snowball_interest_paise : ℕ
    pub interest_cost_of_snowball : ℕ
    pub avalanche_months : ℕ
    pub snowball_months : ℕ
    pub recommended_strategy : String
    pub converged : Bool

  -- `OptimiseStrategy`, with the threshold of `config.DebtParams`.
  unfoldable pub optimise_strategy : List (Loan fl) → ℕ → F → F → OptimiseResult
  optimise_strategy loans extra adherence threshold =
      let (av_interest, av_months, av_converged) = simulate_waterfall loans extra false in
      let (sn_interest, sn_months, sn_converged) = simulate_waterfall loans extra true in
      let cost = sub64 sn_interest av_interest in
      record {
        avalanche_interest_paise = av_interest;
        snowball_interest_paise = sn_interest;
        interest_cost_of_snowball = if is_negative cost then 0 else cost;
        avalanche_months = av_months;
        snowball_months = sn_months;
        recommended_strategy =
            if lt (lit 0) adherence && lt adherence threshold then "snowball" else "avalanche";
        converged = av_converged && sn_converged;
      }
