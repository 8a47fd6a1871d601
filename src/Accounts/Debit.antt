-- ===== src/Accounts/Debit.antt =====
-- The money at hand before and after a debit (service.go, `totalBalanceLocked`, `applyDebitToFirstAccountLocked`).
use hybrid_quantum_banking_b.Base.{
  ℕ, ◌+◌, ◌-◌, ◌≤◌, ◌<◌, ◌≡◌, List, [], ◌∷◌, none, some, arith, if◌then◌else◌,
}
use hybrid_quantum_banking_b.Base.Int64.{sign_bit, modulus, is_negative}
use hybrid_quantum_banking_b.Accounts.{Account, total_from, total_balance, debit_loop, apply_debit}

-- What a balance adds to the money at hand: nothing if it is negative.
abbrev pub funds_of : Account → ℕ
funds_of a = if is_negative a.balance_paise then 0 else a.balance_paise

-- The money that the accounts hold, overdrawn ones apart, as a plain sum.
abbrev pub funds : List Account → ℕ
funds [] = 0
funds (a ∷ accounts) = funds_of a + funds accounts

-- Every balance is the bit pattern of an int64.
abbrev pub AreWords : List Account → Type 0
AreWords [] = Unit
AreWords (a ∷ accounts) = (a.balance_paise < modulus) × AreWords accounts

total_from-eq-add :
    (total : ℕ) (accounts : List Account)
    → AreWords accounts
    → total + funds accounts < sign_bit
    → total_from total accounts ≡ total + funds accounts
unfolding total_from
total_from-eq-add total [] w h = omega arith
total_from-eq-add total (a ∷ accounts) w h = ground (
  arith,
  total_from-eq-add total accounts w.1,
  total_from-eq-add (total + a.balance_paise) accounts w.1,
)

-- While the money at hand is below 2 ^ 63 paise, `totalBalanceLocked` computes it exactly.
pub total_balance-eq-funds :
    (accounts : List Account)
    → AreWords accounts
    → funds accounts < sign_bit
    → total_balance accounts ≡ funds accounts
unfolding total_balance
total_balance-eq-funds accounts w h = omega (arith, total_from-eq-add 0 accounts w)

funds-debit_loop :
    (remaining : ℕ) (accounts : List Account)
    → AreWords accounts
    → remaining < sign_bit
    → remaining ≤ funds accounts
    → (funds (debit_loop remaining accounts) + remaining ≡ funds accounts)
      × AreWords (debit_loop remaining accounts)
unfolding debit_loop
funds-debit_loop remaining [] w r h = (omega arith, tt)
funds-debit_loop remaining (a ∷ accounts) w r h = ground (
  arith,
  funds-debit_loop remaining accounts w.1 r,
  funds-debit_loop (remaining - a.balance_paise) accounts w.1,
)

-- A positive amount that the money at hand covers, which is less than 2^63 in all, is debited:
-- exactly the amount leaves the accounts, and every balance is still an int64.
pub apply_debit_covered :
    (amount : ℕ) (accounts : List Account)
    → AreWords accounts
    → funds accounts < sign_bit
    → 0 < amount
    → amount ≤ funds accounts
    → (after : List Account) × (apply_debit amount accounts ≡ some after)
      × (funds after + amount ≡ funds accounts)
      × AreWords after
unfolding apply_debit
apply_debit_covered amount accounts w f p c =
    let d = funds-debit_loop amount accounts w (omega arith) c in
    (debit_loop amount accounts, ground (arith, total_balance-eq-funds accounts w f), d.0, d.1)

-- An amount that exceeds the money at hand is refused.
pub apply_debit_uncovered :
    (amount : ℕ) (accounts : List Account)
    → AreWords accounts
    → funds accounts < amount
    → amount < sign_bit
    → apply_debit amount accounts ≡ none
unfolding apply_debit
apply_debit_uncovered amount accounts w f c =
    ground (arith, total_balance-eq-funds accounts w (omega arith))
