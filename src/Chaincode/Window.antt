-- ===== src/Chaincode/Window.antt =====
-- The cooling-off window of the chaincode (main.go, `SetCoolingOffWindow`, `VerifyCoolingOff`).
use hybrid_quantum_banking_b.Base.{
  ℕ, ◌≡◌, ◌≢◌, refl, sym, ap, ◌∙◌, String, str_eq, eq_iff, eq_refl, Bool, true, false, not, ◌||◌,
  ◌&&◌, ltb, List, [], ◌∷◌, All, Option, none, some, arith, select, Bool-cases, inl, inr,
}
use hybrid_quantum_banking_b.Base.Int64.{non_positive}
use hybrid_quantum_banking_b.Base.Maps.{str_eq_ne}
use hybrid_quantum_banking_b.Base.Text.{trim_space}
use hybrid_quantum_banking_b.Chaincode.Events.{Runtime, Event, of_user, in_category}
use hybrid_quantum_banking_b.Chaincode.Rules.{blocks, cooling_off_rule}
use hybrid_quantum_banking_b.Chaincode.Contract.{
  World, set_cooling_off_window, window_set, resolve_window, keep_latest, latest_blocked,
  remaining_after, cooling_off_state, verify_cooling_off, state_after,
}
use hybrid_quantum_banking_b.Chaincode.Order.{All-select}
use hybrid_quantum_banking_b.Chaincode.Queries.{Reachable, Reachable-Represents, query_category-log}

-- Where durations are read back as they were written, SetCoolingOffWindow accepts each text of a
-- positive duration, and that duration is the window of all later transactions.
pub set_cooling_off_window-resolve :
    (rt : Runtime) (text : String) (d : ℕ) (w : World)
    → ((n : ℕ) → rt.parse_duration (rt.duration_text n) ≡ some n)
    → ((n : ℕ) → rt.duration_text n ≢ "")
    → rt.parse_duration (trim_space text) ≡ some d
    → non_positive d ≡ false
    → ((set_cooling_off_window rt text w).1 ≡ window_set)
      × (resolve_window rt (set_cooling_off_window rt text w).0 ≡ d)
unfolding set_cooling_off_window resolve_window
set_cooling_off_window-resolve rt text d w back visible h p =
    (rw (h, p) refl, rw (h, p, str_eq_ne (rt.duration_text d) "" (visible d), back d, p) refl)

abbrev pub has_remaining : Option ℕ → Bool
has_remaining none = false
has_remaining (some _) = true

module _ (window : ℕ) (ev : Event) where
  -- A window is active after the latest blocked event iff it is after some blocked event.
  active-blocks :
      (latest : Option ℕ) (es : List Event)
      → All (λ e. e.user_id ≡ ev.user_id) es
      → has_remaining (remaining_after window ev.timestamp (latest_blocked latest es))
        ≡ has_remaining (remaining_after window ev.timestamp latest) || blocks window ev es
  unfolding latest_blocked keep_latest blocks
  active-blocks none [] h = refl
  active-blocks (some t) [] h = ground arith
  active-blocks none (e ∷ es) h = elim (Bool-cases (str_eq e.action "transaction_blocked")) [
    | inl y ↦
        rw (h.0, eq_refl ev.user_id, y, active-blocks (some e.timestamp) es h.1) (ground arith)
    | inr n ↦ rw (h.0, eq_refl ev.user_id, n, active-blocks none es h.1) refl
  ]
  active-blocks (some t) (e ∷ es) h = elim (Bool-cases (str_eq e.action "transaction_blocked")) [
    | inl y ↦ elim (Bool-cases (ltb t e.timestamp)) [
      | inl l ↦
          rw (h.0, eq_refl ev.user_id, y, l, active-blocks (some e.timestamp) es h.1) (ground arith)
      | inr m ↦ rw (h.0, eq_refl ev.user_id, y, m, active-blocks (some t) es h.1) (ground arith)
    ]
    | inr n ↦ rw (h.0, eq_refl ev.user_id, n, active-blocks (some t) es h.1) refl
  ]

-- A blocked event stands in the category of transactions.
abbrev pub InTransactions : Event → Type 0
InTransactions e = e.action ≡ "transaction_blocked" → in_category "transaction" e ≡ true

keep_latest-same :
    (latest : Option ℕ) (e : Event)
    → (e.action ≡ "transaction_blocked" → true ≡ false)
    → keep_latest latest e ≡ latest
unfolding keep_latest
keep_latest-same none e h = ground (arith, eq_iff e.action "transaction_blocked", h)
keep_latest-same (some t) e h = ground (arith, eq_iff e.action "transaction_blocked", h)

latest_blocked-in_category :
    (latest : Option ℕ) (es : List Event)
    → All InTransactions es
    → latest_blocked latest (select (in_category "transaction") es) ≡ latest_blocked latest es
unfolding latest_blocked
latest_blocked-in_category latest [] h = refl
latest_blocked-in_category latest (e ∷ es) h = elim (Bool-cases (in_category "transaction" e)) [
  | inl y ↦ rw y (latest_blocked-in_category (keep_latest latest e) es h.1)
  | inr n ↦
      rw (n, keep_latest-same latest e (λ y. sym (h.0 y) ∙ n))
        (latest_blocked-in_category latest es h.1)
]

of_user-eq : (user : String) (e : Event) → of_user user e ≡ true → e.user_id ≡ user
unfolding of_user
of_user-eq user e h = (eq_iff e.user_id user).0 h

of_user-same :
    (user : String) (es : List Event) → All (λ e. e.user_id ≡ user) (select (of_user user) es)
of_user-same user [] = tt
of_user-same user (e ∷ es) = elim (Bool-cases (of_user user e)) [
  | inl y ↦ rw y (of_user-eq user e y, of_user-same user es)
  | inr n ↦ rw n (of_user-same user es)
]

rule-passed :
    (rt : Runtime) (window : ℕ) (ev : Event) (es : List Event)
    → ev.action ≡ "transaction_initiated"
    → (cooling_off_rule rt window ev.timestamp ev es).passed ≡ not (blocks window ev es)
unfolding cooling_off_rule
rule-passed rt window ev es a = elim (Bool-cases (blocks window ev es)) [
  | inl y ↦ rw (y, a) refl
  | inr n ↦ rw (n, a) refl
]

-- In every world that fewer than 2 ^ 64 - 1 calls of RecordEvent per user make, and in which
-- blocked events stand in the category of transactions, VerifyCoolingOff finds a window active at
-- exactly the times at which the cooling-off rule refuses a new transaction of the user.
pub verify_cooling_off-Agrees :
    (rt : Runtime) (w : World) (log : List Event) (ev : Event)
    → Reachable rt w log
    → All InTransactions log
    → rt.valid_key ev.user_id && rt.valid_key "transaction" ≡ true
    → ev.action ≡ "transaction_initiated"
    → (remaining : Option ℕ) × (verify_cooling_off rt ev.timestamp ev.user_id w ≡ some remaining)
      × ((cooling_off_rule rt
            (resolve_window rt w)
            ev.timestamp
            ev
            (select (of_user ev.user_id) log)).passed
          ≡ not (has_remaining remaining))
unfolding verify_cooling_off cooling_off_state
verify_cooling_off-Agrees rt w log ev r b k a =
    let rep = Reachable-Represents rt r in
    let own = select (of_user ev.user_id) log in
    let window = resolve_window rt w in
    let latest =
      latest_blocked-in_category none own (All-select InTransactions (of_user ev.user_id) log b) in
    let agree = active-blocks window ev none own (of_user-same ev.user_id log) in
    (
      remaining_after window ev.timestamp (latest_blocked none own),
      ap (state_after window ev.timestamp) (query_category-log rt rep ev.user_id "transaction" k)
          ∙ ap (λ l. some (remaining_after window ev.timestamp l)) latest,
      rule-passed rt window ev own a ∙ ap not (sym agree),
    )
