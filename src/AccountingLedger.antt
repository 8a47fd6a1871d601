-- ===== src/AccountingLedger.antt =====
-- The double-entry book of backend/internal/domain/platform/ledger_accounting.go. The mutex makes
-- each method one step; the clock and the two random entry ids are arguments. Amounts and
-- balances are int64 bit patterns.
pub mod Posting
pub mod Balance
use hybrid_quantum_banking_b.Base.{
  ℕ, suc, ◌==◌, ◌-◌, String, str_eq, ◌||◌, List, [], ◌∷◌, ◌++◌, Bool, if◌then◌else◌, length, select,
}
use hybrid_quantum_banking_b.Base.Int64.{add64, sub64, non_positive}

-- `LedgerEntryType`
pub data EntryType : Type 0 where
  debit credit : EntryType

-- `AccountingLedgerEntry`; `created_at` counts nanoseconds.
pub record Entry : Type 0 where
  pub id : String
  pub transaction_ref : String
  pub account_id : String
  pub user_id : String
  pub entry_type : EntryType
  pub amount_paise : ℕ
  pub counterparty_ref : String
  pub narration : String
  pub created_at : ℕ

pub data PostError : Type 0 where
  amount_not_positive account_missing same_account : PostError

-- What a post returns beside the new entries of the book.
pub data Posted : Type 0 where
  posted : Entry → Entry → Posted
  refused : PostError → Posted

-- The clock reading and the two draws of `randomHex(12)` of one call.
pub record Draw : Type 0 where
  pub now : ℕ
  pub debit_id : String
  pub credit_id : String

-- The two entries of a post.
abbrev pub debit_side : Draw → String → String → String → String → ℕ → String → Entry
debit_side d ref account user counterparty amount narration = record {
  id = d.debit_id;
  transaction_ref = ref;
  account_id = account;
  user_id = user;
  entry_type = debit;
  amount_paise = amount;
  counterparty_ref = counterparty;
  narration = narration;
  created_at = d.now;
}

abbrev pub credit_side : Draw → String → String → String → String → ℕ → String → Entry
credit_side d ref account user counterparty amount narration = record {
  id = d.credit_id;
  transaction_ref = ref;
  account_id = account;
  user_id = user;
  entry_type = credit;
  amount_paise = amount;
  counterparty_ref = counterparty;
  narration = narration;
  created_at = d.now;
}

-- `PostTransaction`, on the entries of the ledger.
unfoldable pub post_transaction :
    Draw
    → String
    → String
    → String
    → String
    → String
    → ℕ
    → String
    → List Entry
    → List Entry × Posted
post_transaction d ref debit_account debit_user credit_account credit_user amount narration
      entries =
    if non_positive amount
    then (entries, refused amount_not_positive)
    else if str_eq debit_account "" || str_eq credit_account ""
    then (entries, refused account_missing)
    else if str_eq debit_account credit_account
    then (entries, refused same_account)
    else let debit_entry =
        debit_side d ref debit_account debit_user credit_account amount narration in
      let credit_entry =
        credit_side d ref credit_account credit_user debit_account amount narration in
      (entries ++ debit_entry ∷ credit_entry ∷ [], posted debit_entry credit_entry)

-- `PostOutgoingPayment`
unfoldable pub post_outgoing_payment :
    Draw → String → String → String → String → ℕ → String → List Entry → List Entry × Posted
unfolding post_transaction
post_outgoing_payment d ref account user recipient amount narration =
    post_transaction d ref account user recipient "" amount narration

-- `PostContribution`; the narration is given as formatted by the caller.
unfoldable pub post_contribution :
    Draw → String → String → String → ℕ → String → List Entry → List Entry × Posted
unfolding post_transaction
post_contribution d ref account user amount narration =
    post_transaction d ref account user "goals-virtual" user amount narration

-- `PostRevenue`
unfoldable pub post_revenue :
    Draw → String → String → String → String → ℕ → String → List Entry → List Entry × Posted
unfolding post_transaction
post_revenue d ref account user source amount narration =
    post_transaction d ref source "" account user amount narration

-- One round of the loop of `GetBalance`.
abbrev pub apply_entry : String → ℕ → Entry → ℕ
apply_entry account balance e =
    if str_eq e.account_id account
    then elim e.entry_type [
      | credit ↦ add64 balance e.amount_paise
      | debit ↦ sub64 balance e.amount_paise
    ]
    else balance

balance_from : String → ℕ → List Entry → ℕ
balance_from account balance [] = balance
balance_from account balance (e ∷ es) = balance_from account (apply_entry account balance e) es

-- `GetBalance`
unfoldable pub get_balance : String → List Entry → ℕ
unfolding balance_from
get_balance account = balance_from account 0

-- One round of the loop of `VerifyBalance`, on the running debits and credits.
abbrev pub add_debit : ℕ → Entry → ℕ
add_debit debits e = elim e.entry_type [ debit ↦ add64 debits e.amount_paise | credit ↦ debits ]

abbrev pub add_credit : ℕ → Entry → ℕ
add_credit credits e = elim e.entry_type [ debit ↦ credits | credit ↦ add64 credits e.amount_paise ]

verify_from : ℕ → ℕ → List Entry → ℕ × ℕ
verify_from debits credits [] = (debits, credits)
verify_from debits credits (e ∷ es) = verify_from (add_debit debits e) (add_credit credits e) es

-- `VerifyBalance`
unfoldable pub verify_balance : List Entry → ℕ × ℕ × Bool
unfolding verify_from
verify_balance es =
    let (debits, credits) = verify_from 0 0 es in (debits, credits, debits == credits)

-- `GetEntriesByTransaction`
unfoldable pub entries_by_transaction : String → List Entry → List Entry
entries_by_transaction ref = select (λ e. str_eq e.transaction_ref ref)

-- The first `limit` entries of the user in the order given.
take_user : String → ℕ → List Entry → List Entry
take_user user limit [] = []
take_user user limit (e ∷ es) =
    let skip = take_user user limit es in
    let keep = take_user user (limit - 1) es in
    if limit == 0 then [] else if str_eq e.user_id user then e ∷ keep else skip

backwards : List Entry → List Entry
backwards [] = []
backwards (e ∷ es) = backwards es ++ e ∷ []

-- `GetEntriesByUser`: newest first, at most `limit`.
unfoldable pub entries_by_user : String → ℕ → List Entry → List Entry
unfolding take_user backwards
entries_by_user user limit es = take_user user limit (backwards es)

-- `EntryCount`
unfoldable pub entry_count : List Entry → ℕ
entry_count = length
