-- ===== src/Payments.antt =====
-- Payments of backend/internal/domain/platform/service_payment.go. No signing key and no database is
-- attached; the bank adapter is a parameter, as is the JSON of a payment. The payment fields that
-- no code here reads are left out.
pub mod Writes
pub mod Receipts
use Prim.Native.Char.{code}
use Prim.Native.String as String
use hybrid_quantum_banking_b.Base.{
  ℕ, ◌⊎◌, inl, inr, String, str_eq, Bool, true, false, not, ◌||◌, ◌&&◌, ◌==◌, List, [], ◌∷◌, ◌++◌,
  Option, none, some, if◌then◌else◌,
}
use hybrid_quantum_banking_b.Base.Int64.{lt64, non_positive}
use hybrid_quantum_banking_b.Base.Maps.{put}
use hybrid_quantum_banking_b.Base.Text.{trim_space, first_non_empty}
use hybrid_quantum_banking_b.Base.Float.{Floats}
use hybrid_quantum_banking_b.Accounts.{Account}
use hybrid_quantum_banking_b.Blockchain.Events.{default_rules}
use hybrid_quantum_banking_b.Blockchain.Writes.{write_event_strict}
use hybrid_quantum_banking_b.Transfers.State.{Env, Service, User}
use hybrid_quantum_banking_b.Transfers.Recording.{next_id, append_audit, log_event}
use hybrid_quantum_banking_b.Transfers.Steps.{
  TransferError, contract_violation, ledger_failed, write_error,
}

-- The texts that `Payment.Status` takes here.
pub data PaymentStatus : Type 0 where
  initiated blocked completed : PaymentStatus

-- `ReceiptVerification`
pub record Receipt : Type 0 where
  pub verified : Bool
  pub verified_at : ℕ
  pub verified_by : String
  pub verifier_type : String
  pub receipt_hash : String

-- `InitiatePaymentRequest`
pub record PaymentRequest : Type 0 where
  pub beneficiary_name : String
  pub beneficiary_account : String
  pub amount_paise : ℕ
  pub currency : String
  pub method : String
  pub otp_verified : Bool
  pub user_consent : Bool

-- `VerifyReceiptRequest`
pub record ReceiptRequest : Type 0 where
  pub receipt_hash : String
  pub verified_by : String
  pub verifier_type : String

-- `Payment`
pub record Payment (fl : Floats) : Type 0 where
  pub id : String
  pub user_id : String
  pub beneficiary_name : String
  pub beneficiary_account : String
  pub amount_paise : ℕ
  pub currency : String
  pub method : String
  pub status : PaymentStatus
  pub risk_level : String
  pub risk_score : fl.F
  pub started_at : ℕ
  pub completed_at : Option ℕ
  pub otp_verified : Bool
  pub user_consent : Bool
  pub receipt : Option Receipt

pub data PaymentError : Type 0 where
  user_not_found amount_not_positive beneficiary_missing insufficient_balance : PaymentError
  payment_not_found already_verified : PaymentError
  not_written : TransferError → PaymentError

-- `BankAdapter`, the calls used here: `none` for an error, and whether the UPI id is known.
pub record Bank : Type 0 where
  pub verify_upi : String → Option Bool
  pub get_balance : String → Option ℕ

-- `strings.Contains(s, "@")`
unfoldable pub has_at : String → Bool
has_at String.[] = false
has_at (String.◌∷◌ c s) = code c == 64 || has_at s

abbrev pub is_unknown : Option Bool → Bool
is_unknown (some false) = true
is_unknown _ = false

-- The loop over the payer's accounts: the first balance that the bank answers decides.
unfoldable pub lacks_balance : Bank → ℕ → List Account → Bool
lacks_balance bank amount [] = false
lacks_balance bank amount (a ∷ accounts) =
    let rest = lacks_balance bank amount accounts in
    elim (bank.get_balance a.upi_id) [ none ↦ rest | some bal ↦ lt64 bal amount ]

module _ (env : Env) where
  open env use {fl}

  -- The fields of `Service` that payments use.
  pub record PaymentService : Type 0 where
    pub core : Service env
    pub payments : String → List (Payment fl)
    pub mule_scores : String → Option fl.F

  -- `gnnScoreForRecipient`, with the fraud graph that every service has.
  unfoldable pub gnn_score : String → PaymentService → fl.F
  gnn_score recipient s = elim (s.mule_scores recipient) [
    | some score ↦ score
    | none ↦ env.graph_score s.core.graph recipient
  ]

  -- The checks of the bank: whether the payee is unverified, and whether the balance is short.
  unfoldable pub bank_checks : Option Bank → PaymentRequest → List Account → Bool × Bool
  unfolding has_at lacks_balance first_non_empty
  bank_checks none req accounts = (false, false)
  bank_checks (some bank) req accounts =
      let payee = trim_space (first_non_empty req.beneficiary_account req.beneficiary_name) in
      (
        has_at payee && is_unknown (bank.verify_upi payee),
        lacks_balance bank req.amount_paise accounts,
      )

  -- The score, raised for an unverified payee.
  unfoldable pub payment_score : Bool → fl.F → fl.F
  payment_score unverified score =
      if unverified && fl.lt score (fl.lit 550) then fl.lit 550 else score

  -- The level of a score.
  unfoldable pub payment_level : fl.F → String
  payment_level score =
      if fl.lt (fl.lit 800) score
      then "high"
      else if fl.lt (fl.lit 500) score
      then "medium"
      else "low"

  -- The payment that is recorded.
  unfoldable pub new_payment : ℕ → String → String → PaymentRequest → fl.F → Payment fl
  unfolding payment_level first_non_empty
  new_payment now user id req score = record {
    id = id;
    user_id = user;
    beneficiary_name = req.beneficiary_name;
    beneficiary_account = req.beneficiary_account;
    amount_paise = req.amount_paise;
    currency = first_non_empty req.currency "INR";
    method = first_non_empty req.method "upi";
    status = initiated;
    risk_level = payment_level score;
    risk_score = score;
    started_at = now;
    completed_at = none;
    otp_verified = req.otp_verified;
    user_consent = req.user_consent;
    receipt = none;
  }

  -- The list with the last payment blocked.
  unfoldable pub block_last : List (Payment fl) → List (Payment fl)
  block_last [] = []
  block_last (p ∷ []) = record p { status = blocked } ∷ []
  block_last (p ∷ q ∷ ps) = p ∷ block_last (q ∷ ps)

  -- The branch of a failed strict write.
  unfoldable pub refuse_payment : ℕ → String → TransferError → PaymentService → PaymentService
  unfolding block_last append_audit
  refuse_payment now user contract_violation s = record s {
    core = append_audit env now user "payment_initiated" "payment" "blocked" "SmartContract" s.core;
    payments = put s.payments user (block_last (s.payments user));
  }
  refuse_payment now user _ s = s

  -- How the call ends with what the strict write said.
  unfoldable pub end_payment :
      ℕ
      → String
      → Payment fl
      → Option TransferError
      → PaymentService
      → PaymentService × (PaymentError ⊎ Payment fl)
  unfolding refuse_payment
  end_payment now user p (some e) s = (refuse_payment now user e s, inl (not_written e))
  end_payment now user p none s = (s, inr p)

  -- The recording of the payment and its strict write; `json` is `json.Marshal` of the payment.
  unfoldable pub record_payment :
      (Payment fl → Option String)
      → ℕ
      → String
      → Payment fl
      → PaymentService
      → PaymentService × (PaymentError ⊎ Payment fl)
  unfolding append_audit end_payment
  record_payment json now user p s0 =
      let core =
        append_audit env now user "payment_initiated" "payment" "initiated" "User" s0.core in
      let (chain, outcome) =
        write_event_strict env.host default_rules env.fabric now user "payment_initiated" "payment"
          (json p) core.chain in
      end_payment now user p (write_error outcome) (record s0 {
        core = record core { chain = chain };
        payments = put s0.payments user (s0.payments user ++ p ∷ []);
      })

  abbrev pub knows : Option User → Bool
  knows none = false
  knows (some _) = true

  -- `InitiatePayment`
  unfoldable pub initiate_payment :
      (Payment fl → Option String)
      → Option Bank
      → ℕ
      → String
      → PaymentRequest
      → PaymentService
      → PaymentService × (PaymentError ⊎ Payment fl)
  unfolding bank_checks next_id gnn_score payment_score new_payment record_payment
  initiate_payment json bank now user req s =
      let (unverified, short) = bank_checks bank req (s.core.accounts user) in
      if not (knows (s.core.users user))
      then (s, inl user_not_found)
      else if non_positive req.amount_paise
      then (s, inl amount_not_positive)
      else if str_eq (trim_space req.beneficiary_name) ""
          && str_eq (trim_space req.beneficiary_account) ""
      then (s, inl beneficiary_missing)
      else if short
      then (s, inl insufficient_balance)
      else let (core, id) = next_id env "pay" s.core in
        let score = payment_score unverified (gnn_score req.beneficiary_name s) in
        record_payment json now user (new_payment now user id req score) (record s { core = core })

  -- `GetPayment`
  unfoldable pub find_payment : String → List (Payment fl) → Option (Payment fl)
  find_payment id [] = none
  find_payment id (p ∷ ps) = if str_eq p.id id then some p else find_payment id ps

  abbrev pub is_verified : Option Receipt → Bool
  is_verified none = false
  is_verified (some r) = r.verified

  -- The payment with its receipt verified.
  unfoldable pub complete_payment : ℕ → ReceiptRequest → Payment fl → Payment fl
  unfolding first_non_empty
  complete_payment now req p = record p {
    receipt = some (record {
      verified = true;
      verified_at = now;
      verified_by = req.verified_by;
      verifier_type = first_non_empty req.verifier_type "user";
      receipt_hash = req.receipt_hash;
    });
    status = completed;
    completed_at = some now;
  }

  -- A write to the first payment of that id.
  unfoldable pub update_payment :
      (Payment fl → Payment fl) → String → List (Payment fl) → List (Payment fl)
  update_payment f id [] = []
  update_payment f id (p ∷ ps) =
      let rest = update_payment f id ps in if str_eq p.id id then f p ∷ ps else p ∷ rest

  -- The rest of `VerifyPaymentReceipt` on the payment that was found.
  unfoldable pub verify_receipt_found :
      (Payment fl → Option String)
      → ℕ
      → String
      → String
      → ReceiptRequest
      → Option (Payment fl)
      → PaymentService
      → PaymentService × (PaymentError ⊎ Payment fl)
  unfolding complete_payment update_payment append_audit log_event
  verify_receipt_found json now user id req none s = (s, inl payment_not_found)
  verify_receipt_found json now user id req (some p) s =
      if is_verified p.receipt
      then (s, inl already_verified)
      else let p' = complete_payment now req p in
        let core =
          append_audit env now user "payment_receipt_verified" "payment" "completed" "User"
            s.core in
        (
          record s {
            payments =
                put s.payments user
                  (update_payment (complete_payment now req) id (s.payments user));
            core = log_event env now user "payment_receipt_verified" "payment" (json p') core;
          },
          inr p',
        )

  -- `VerifyPaymentReceipt`
  unfoldable pub verify_payment_receipt :
      (Payment fl → Option String)
      → ℕ
      → String
      → String
      → ReceiptRequest
      → PaymentService
      → PaymentService × (PaymentError ⊎ Payment fl)
  unfolding verify_receipt_found find_payment
  verify_payment_receipt json now user id req s =
      if not (knows (s.core.users user))
      then (s, inl user_not_found)
      else verify_receipt_found json now user id req (find_payment id (s.payments user)) s
