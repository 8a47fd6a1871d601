-- ===== src/AccountingLedger/Balance.antt =====
-- The balances of accounts and of the whole book after posts
-- (ledger_accounting.go, `PostTransaction`, `GetBalance`, `VerifyBalance`).
use hybrid_quantum_banking_b.Base.{
  ℕ, ◌≡◌, refl, ◌≢◌, true, String, eq_iff, eq_refl, List, [], ◌∷◌, ◌++◌, arith,
}
use hybrid_quantum_banking_b.Base.Int64.{add64, sub64}
use hybrid_quantum_banking_b.AccountingLedger.{
  Entry, Draw, debit_side, credit_side, post_transaction, apply_entry, balance_from, get_balance,
  verify_from, verify_balance, add_debit, add_credit,
}
use hybrid_quantum_banking_b.AccountingLedger.Posting.{CanPost, post_accepts}

verify_from-append :
    (d c : ℕ) (es fs : List Entry)
    → verify_from d c (es ++ fs) ≡ verify_from (verify_from d c es).0 (verify_from d c es).1 fs
unfolding verify_from
verify_from-append d c [] fs = refl
verify_from-append d c (e ∷ es) fs = verify_from-append (add_debit d e) (add_credit c e) es fs

-- The books that posts alone can make; refused posts are among the steps.
pub data Reachable : List Entry → Type 0 where
  empty_book : Reachable []
  post :
      {es : List Entry} (d : Draw) (ref da du ca cu : String) (amount : ℕ) (narration : String)
      → Reachable es
      → Reachable (post_transaction d ref da du ca cu amount narration es).0

abbrev AreEqual : ℕ × ℕ → Type 0
AreEqual p = p.0 ≡ p.1

verify_from-post :
    (d : Draw) (ref da du ca cu : String) (amount : ℕ) (narration : String) (es : List Entry)
    → AreEqual (verify_from 0 0 es)
    → AreEqual (verify_from 0 0 (post_transaction d ref da du ca cu amount narration es).0)
unfolding post_transaction verify_from
verify_from-post d ref da du ca cu amount narration es h = ground (
  arith,
  verify_from-append 0 0 es (
      debit_side d ref da du ca amount narration
      ∷ credit_side d ref ca cu da amount narration
      ∷ []),
)

Reachable-AreEqual : {es : List Entry} → Reachable es → AreEqual (verify_from 0 0 es)
unfolding verify_from
Reachable-AreEqual empty_book = refl
Reachable-AreEqual (post {es = es} d ref da du ca cu amount narration r) =
    verify_from-post d ref da du ca cu amount narration es (Reachable-AreEqual r)

-- However many transactions were posted or refused, with wrapping sums too, `VerifyBalance` finds
-- the debits equal to the credits.
pub Reachable-verify_balance : {es : List Entry} → Reachable es → (verify_balance es).2 ≡ true
unfolding verify_balance
Reachable-verify_balance r = ground (arith, Reachable-AreEqual r)

balance_from-append :
    (a : String) (b : ℕ) (es fs : List Entry)
    → balance_from a b (es ++ fs) ≡ balance_from a (balance_from a b es) fs
unfolding balance_from
balance_from-append a b [] fs = refl
balance_from-append a b (e ∷ es) fs = balance_from-append a (apply_entry a b e) es fs

-- An accepted post lowers the balance of the debited account by the amount, raises that of the
-- credited account by the amount, and leaves that of every other account alone, in wrapping
-- arithmetic.
pub get_balance-post :
    (d : Draw) (ref da du ca cu : String) (amount : ℕ) (narration : String) (es : List Entry)
    (other : String)
    → CanPost da ca amount
    → other ≢ da
    → other ≢ ca
    → let es' = (post_transaction d ref da du ca cu amount narration es).0 in
      (get_balance da es' ≡ sub64 (get_balance da es) amount)
      × (get_balance ca es' ≡ add64 (get_balance ca es) amount)
      × (get_balance other es' ≡ get_balance other es)
unfolding get_balance balance_from
get_balance-post d ref da du ca cu amount narration es other h nd nc =
    rw (post_accepts d ref da du ca cu amount narration es h) (
      ground (
        arith,
        balance_from-append da 0 es pair,
        balance_from-append ca 0 es pair,
        balance_from-append other 0 es pair,
        eq_refl da,
        eq_refl ca,
        eq_iff da ca,
        eq_iff ca da,
        eq_iff da other,
        eq_iff ca other,
      ))
  where
    pair : List Entry
    pair =
        debit_side d ref da du ca amount narration
        ∷ credit_side d ref ca cu da amount narration
        ∷ []
