-- ===== src/AccountingLedger/Posting.antt =====
-- When a post is accepted, and what it does to the book (ledger_accounting.go, `PostTransaction`).
use hybrid_quantum_banking_b.Base.{
  ℕ, ◌-◌, ◌≤◌, ◌<◌, ◌≡◌, ◌≢◌, String, eq_iff, List, [], ◌∷◌, ◌++◌, arith, length, All,
}
use hybrid_quantum_banking_b.Base.Int64.{sign_bit}
use hybrid_quantum_banking_b.AccountingLedger.{
  Entry, Draw, Posted, posted, refused, debit_side, credit_side, post_transaction, take_user,
  entries_by_user, backwards,
}

-- The arguments that `PostTransaction` accepts.
pub record CanPost (debit_account credit_account : String) (amount : ℕ) : Type 0 where
  pub positive : 0 < amount
  pub fits : amount < sign_bit
  pub debit_named : debit_account ≢ ""
  pub credit_named : credit_account ≢ ""
  pub distinct : debit_account ≢ credit_account

abbrev pub IsRefused : Posted → Type 0
IsRefused (posted _ _) = ⊥
IsRefused (refused _) = Unit

module _ (d : Draw) (ref da du ca cu : String) (amount : ℕ) (narration : String)
    (es : List Entry) where
  -- Arguments that can be posted add the two sides, in this order.
  pub post_accepts :
      CanPost da ca amount
      → let x = debit_side d ref da du ca amount narration in
        let y = credit_side d ref ca cu da amount narration in
        post_transaction d ref da du ca cu amount narration es ≡ (es ++ x ∷ y ∷ [], posted x y)
  unfolding post_transaction
  post_accepts h = ground (arith, eq_iff da "", eq_iff ca "", eq_iff da ca)

  -- Any other arguments are refused and leave the book as it is.
  pub post_rejects :
      ¬ (CanPost da ca amount)
      → ((post_transaction d ref da du ca cu amount narration es).0 ≡ es)
        × IsRefused (post_transaction d ref da du ca cu amount narration es).1
  unfolding post_transaction
  post_rejects h = ground (arith, eq_iff da "", eq_iff ca "", eq_iff da ca, h)

take_user_bounded :
    (user : String) (limit : ℕ) (es : List Entry) → length (take_user user limit es) ≤ limit
unfolding take_user
take_user_bounded user limit [] = omega arith
take_user_bounded user limit (e ∷ es) =
    ground (arith, take_user_bounded user limit es, take_user_bounded user (limit - 1) es)

take_user-All :
    (user : String) (limit : ℕ) (es : List Entry)
    → All (λ e. e.user_id ≡ user) (take_user user limit es)
unfolding take_user
take_user-All user limit [] = tt
take_user-All user limit (e ∷ es) =
    ground
      (arith, eq_iff e.user_id user, take_user-All user limit es, take_user-All user (limit - 1) es)

-- A user's listing holds at most `limit` entries, and all of them are the user's.
pub entries_by_user_bounded :
    (user : String) (limit : ℕ) (es : List Entry)
    → (length (entries_by_user user limit es) ≤ limit)
      × All (λ e. e.user_id ≡ user) (entries_by_user user limit es)
unfolding entries_by_user
entries_by_user_bounded user limit es =
    (take_user_bounded user limit (backwards es), take_user-All user limit (backwards es))
