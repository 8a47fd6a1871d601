-- ===== src/Examples/Lending.antt =====
-- Runs of the loan schedules, in thousandths.
use hybrid_quantum_banking_b.Base.{ℕ, zero, suc, ◌*◌, ◌/◌, ◌==◌, true, arith}
use hybrid_quantum_banking_b.Base.Float.{milli}
use hybrid_quantum_banking_b.Debt.{Powers, interest_of, round_paise, monthly_rate, emi, schedule}
use hybrid_quantum_banking_b.Debt.Closing.{Closes, schedule-Closes}
use hybrid_quantum_banking_b.Debt.Prepay.{Loan}

-- `base ^ n` in thousandths.
milli_power : ℕ → ℕ → ℕ
milli_power base zero = 1000
milli_power base (suc n) = base * milli_power base n / 1000

abbrev demo_powers : Powers milli
demo_powers = record {
  pow = λ base n. milli_power base (n / 1000);
  log = λ f. f;
  ceil = λ f. f / 1000;
  neg = λ f. f;
  is_zero = λ f. f == 0;
}

-- 1,000 rupees at 12 per cent a year over three months.
schedule-Closes_example : Closes 100000 3 (schedule milli demo_powers 100000 12000 3)
unfolding emi interest_of round_paise monthly_rate milli_power
schedule-Closes_example =
    schedule-Closes milli demo_powers 100000 12000 3 (omega arith) (omega arith) (omega arith)
      (omega arith) (λ b h. omega (arith, h)) (omega arith) (omega arith)

abbrev demo_loan : Loan milli
demo_loan = record {
  id = "l1";
  principal_paise = 100000;
  annual_rate_pct = 12000;
  months = 3;
  emi_paise = 34500;
  floating = true;
  loan_type = "home";
}

-- The same loan, with an instalment below its monthly interest.
abbrev demo_uncovered : Loan milli
demo_uncovered = record demo_loan { emi_paise = 500 }
