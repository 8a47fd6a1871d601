-- ===== src/Accounts.antt =====
-- The balances of a user's accounts and the debit across them, of
-- backend/internal/domain/platform/service.go. Balances are int64 bit patterns.
pub mod Debit
use hybrid_quantum_banking_b.Base.{
  ℕ, ◌-◌, String, Bool, true, false, List, [], ◌∷◌, Option, none, some, if◌then◌else◌,
}
use hybrid_quantum_banking_b.Base.Int64.{add64, sub64, lt64, le64, non_positive}

-- The fields of `Account` that transfers, payments and goals read or write.
pub record Account : Type 0 where
  pub id : String
  pub account_type : String
  pub upi_id : String
  pub balance_paise : ℕ

-- One round of the loop of `totalBalanceLocked`.
abbrev pub add_positive : ℕ → Account → ℕ
add_positive total a = if lt64 0 a.balance_paise then add64 total a.balance_paise else total

total_from : ℕ → List Account → ℕ
total_from total [] = total
total_from total (a ∷ accounts) = total_from (add_positive total a) accounts

-- `totalBalanceLocked`
unfoldable pub total_balance : List Account → ℕ
unfolding total_from
total_balance = total_from 0

-- The loop of `applyDebitToFirstAccountLocked`, with what remains to be debited.
debit_loop : ℕ → List Account → List Account
debit_loop remaining [] = []
debit_loop remaining (a ∷ accounts) =
    let skip = debit_loop remaining accounts in
    let rest = debit_loop (sub64 remaining a.balance_paise) accounts in
    if non_positive remaining
    then a ∷ accounts
    else if non_positive a.balance_paise
    then a ∷ skip
    else if le64 remaining a.balance_paise
    then record a { balance_paise = sub64 a.balance_paise remaining } ∷ accounts
    else record a { balance_paise = 0 } ∷ rest

-- `applyDebitToFirstAccountLocked`: the accounts after the debit, or `ErrInsufficientFunds`.
unfoldable pub apply_debit : ℕ → List Account → Option (List Account)
unfolding total_balance debit_loop
apply_debit amount accounts =
    if non_positive amount
    then some accounts
    else if lt64 (total_balance accounts) amount
    then none
    else some (debit_loop amount accounts)
