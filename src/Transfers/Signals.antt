-- ===== src/Transfers/Signals.antt =====
-- The inputs of the risk engine for a new transaction (service.go, `InitiateTransaction`,
-- `historicalAverageAmount`, `velocityLastHour`, `balanceImpact`, `clamp`).
use hybrid_quantum_banking_b.Base.{
  ℕ, suc, ◌+◌, ◌-◌, ◌/◌, ◌%◌, String, Bool, false, not, List, [], ◌∷◌, Option, none, some, leb,
  if◌then◌else◌, length,
}
use hybrid_quantum_banking_b.Base.Int64.{add64, non_positive}
use hybrid_quantum_banking_b.Base.Float.{Floats}
use hybrid_quantum_banking_b.Accounts.{Account}
use hybrid_quantum_banking_b.RiskEngine.{RiskSignal}
use hybrid_quantum_banking_b.Transfers.State.{
  Env, Inputs, Service, Transaction, InitiateRequest, User,
}

module _ (fl : Floats) where
  open fl use {F, lt, div, lit, of_int}

  -- `clamp`
  unfoldable pub clamp : F → F → F → F
  clamp value min_value max_value =
      if lt value min_value then min_value else if lt max_value value then max_value else value

  -- The sum of the amounts.
  unfoldable pub amount_total : ℕ → List (Transaction fl) → ℕ
  amount_total total [] = total
  amount_total total (tx ∷ history) = amount_total (add64 total tx.amount_paise) history

  -- `historicalAverageAmount`
  unfoldable pub historical_average : List (Transaction fl) → F
  unfolding amount_total
  historical_average [] = lit 0
  historical_average (tx ∷ history) =
      div (of_int (amount_total 0 (tx ∷ history))) (of_int (length (tx ∷ history)))

  -- `velocityLastHour`: the transactions of the last 3600 seconds.
  unfoldable pub velocity_last_hour : ℕ → List (Transaction fl) → ℕ
  velocity_last_hour now [] = 0
  velocity_last_hour now (tx ∷ history) =
      let count = velocity_last_hour now history in
      if leb now (tx.created_at + 3600000000000) then suc count else count

  -- The sum of all balances.
  unfoldable pub balance_sum : ℕ → List Account → ℕ
  balance_sum total [] = total
  balance_sum total (a ∷ accounts) = balance_sum (add64 total a.balance_paise) accounts

  -- `balanceImpact`
  unfoldable pub balance_impact : ℕ → List Account → F
  unfolding balance_sum clamp
  balance_impact amount accounts =
      let total = balance_sum 0 accounts in
      if non_positive total
      then lit 1000
      else clamp (div (of_int amount) (of_int total)) (lit 0) (lit 1000)

abbrev first_balance : List Account → ℕ
first_balance [] = 0
first_balance (a ∷ _) = a.balance_paise

abbrev first_type : List Account → String
first_type [] = ""
first_type (a ∷ _) = a.account_type

-- Whole days since the user was created.
abbrev age_days : ℕ → Option User → ℕ
age_days now none = 0
age_days now (some u) = (now - u.created_at) / 86400000000000

module _ (env : Env) where
  open env use {fl}

  -- `avgAmount`, with its floor.
  unfoldable pub average_amount : String → Service env → fl.F
  unfolding historical_average
  average_amount user s =
      let avg = historical_average fl (s.transactions user) in
      let floor = fl.of_int env.params.floor_avg_paise in if fl.lt avg floor then floor else avg

  -- `seenRecipient`
  unfoldable pub seen_recipient : String → InitiateRequest fl → Service env → Bool
  seen_recipient user req s = s.beneficiaries user (env.to_lower req.recipient)

  -- The signal of `InitiateTransaction`; the hour is that of the clock in UTC.
  unfoldable pub signal_of : Inputs → String → InitiateRequest fl → Service env → RiskSignal fl
  unfolding average_amount seen_recipient velocity_last_hour balance_impact clamp
  signal_of inp user req s = record {
    amount_vs_average = fl.div (fl.of_int req.amount_paise) (average_amount user s);
    is_new_recipient = not (seen_recipient user req s);
    hour_of_day = inp.now / 3600000000000 % 24;
    failed_pin_attempts = req.failed_pin_attempts;
    velocity_count_1hr = velocity_last_hour fl inp.now (s.transactions user);
    balance_impact = balance_impact fl req.amount_paise (s.accounts user);
    recipient_gnn_score = env.graph_score s.graph req.recipient;
    behaviour_drift = clamp fl req.behaviour_drift (fl.lit 0) (fl.lit 1000);
    session_trust_score = clamp fl req.session_trust_score (fl.lit 0) (fl.lit 1000);
    is_cold_start = false;
    transaction_amount = fl.div (fl.of_int req.amount_paise) (fl.lit 100000);
    account_age_days = age_days inp.now (s.users user);
    current_balance = fl.div (fl.of_int (first_balance (s.accounts user))) (fl.lit 100000);
    payment_channel = req.channel;
    currency = "INR";
    account_type = first_type (s.accounts user);
  }
