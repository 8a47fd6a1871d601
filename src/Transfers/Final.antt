-- ===== src/Transfers/Final.antt =====
-- Overrides after an override of the same transaction (service.go, `OverrideTransaction`).
use hybrid_quantum_banking_b.Base.{
  ℕ, ◌≡◌, refl, sym, ap, ◌∙◌, String, str_eq, eq_iff, Bool, true, false, not, Option, none, some,
  List, [], ◌∷◌, arith, Bool-cases, inl, inr,
}
use hybrid_quantum_banking_b.Base.Float.{Floats}
use hybrid_quantum_banking_b.Base.Maps.{put, put_self}
use hybrid_quantum_banking_b.Otp.{OtpError}
use hybrid_quantum_banking_b.Transfers.State.{Env, Service, Transaction, success}
use hybrid_quantum_banking_b.Transfers.Override.{
  OverrideRequest, override_failed, not_pending, is_pending, find_transaction, update_transaction,
  set_status, check_otp, override_found, override_checked, override_search, override_locked,
  override_transaction,
}
use hybrid_quantum_banking_b.Transfers.Overrides.{
  find_transaction-update, found-transactions, locked_found, found_settled, check_otp-Keeps,
}

module _ (fl : Floats) where
  -- The search found a transaction that no override can release.
  abbrev pub is_settled : Option (Transaction fl) → Bool
  is_settled none = false
  is_settled (some tx) = not (is_pending tx.status)

  is_settled-update :
      (id other : String) (txs : List (Transaction fl))
      → is_settled (find_transaction fl id txs) ≡ true
      → is_settled (find_transaction fl id (update_transaction fl (set_status success) other txs))
        ≡ true
  unfolding find_transaction update_transaction
  is_settled-update id other [] h = h
  is_settled-update id other (t ∷ txs) h = ground (arith, is_settled-update id other txs, h)

-- One call of `OverrideTransaction`: its time, its user and its request.
pub record OverrideCall : Type 0 where
  pub at : ℕ
  pub by : String
  pub asks : OverrideRequest

module _ (env : Env) where
  open env use {fl}

  -- The state after the calls, in their order.
  abbrev pub overrides : List OverrideCall → Service env → Service env
  overrides [] s = s
  overrides (c ∷ cs) s = overrides cs (override_transaction env c.at c.by c.asks s).0

  -- The user's transaction of that id is one that no override can release.
  abbrev pub IsSettled : String → String → Service env → Type 0
  IsSettled user id s = is_settled fl (find_transaction fl id (s.transactions user)) ≡ true

  IsSettled-from :
      (user id : String) (s t : Service env)
      → t.transactions user ≡ s.transactions user
      → IsSettled user id s
      → IsSettled user id t
  IsSettled-from user id s t e h = ap (λ z. is_settled fl (find_transaction fl id z)) e ∙ h

  IsSettled-put :
      (user id by other : String) (s : Service env)
      → IsSettled user id s
      → is_settled fl (
          find_transaction fl id (
            put s.transactions by
              (update_transaction fl (set_status success) other (s.transactions by))
              user))
        ≡ true
  IsSettled-put user id by other s h = elim (Bool-cases (str_eq user by)) [
    | inr n ↦ rw n h
    | inl y ↦
        let same : user ≡ by = ground (arith, y, eq_iff user by) in
        rw y (
          ap
            (λ u. is_settled fl (
              find_transaction fl id
                (update_transaction fl (set_status success) other (s.transactions u))))
            (sym same)
          ∙ is_settled-update fl id other (s.transactions user) h)
  ]

  found-IsSettled :
      (user id : String) (now : ℕ) (by : String) (tx : Transaction fl) (s : Service env)
      → IsSettled user id s
      → IsSettled user id (override_found env now by tx s).0
  found-IsSettled user id now by tx s h = elim (Bool-cases (is_pending tx.status)) [
    | inr n ↦
        IsSettled-from user id s (override_found env now by tx s).0
          (ap (λ z. z.0.transactions user) (found_settled env now by s tx n)) h
    | inl p ↦
        ap (λ m. is_settled fl (find_transaction fl id (m user)))
          (found-transactions env now by tx s p)
        ∙ IsSettled-put user id by tx.id s h
  ]

  search-IsSettled :
      (user id : String) (now : ℕ) (by : String) (o : Option (Transaction fl)) (s : Service env)
      → IsSettled user id s
      → IsSettled user id (override_search env now by o s).0
  unfolding override_search
  search-IsSettled user id now by none s h = h
  search-IsSettled user id now by (some tx) s h = found-IsSettled user id now by tx s h

  checked-IsSettled :
      (user id : String) (now : ℕ) (by other : String) (e : Option OtpError) (s : Service env)
      → IsSettled user id s
      → IsSettled user id (override_checked env now by other e s).0
  unfolding override_checked override_locked
  checked-IsSettled user id now by other (some err) s h = h
  checked-IsSettled user id now by other none s h =
      search-IsSettled user id now by (find_transaction fl other (s.transactions by)) s h

  override-IsSettled :
      (user id : String) (c : OverrideCall) (s : Service env)
      → IsSettled user id s
      → IsSettled user id (override_transaction env c.at c.by c.asks s).0
  unfolding override_transaction
  override-IsSettled user id c s h =
      let r = check_otp env c.at c.by c.asks.otp s in
      let kept =
        IsSettled-from user id s r.0
          (ap (λ m. m user) (check_otp-Keeps env c.at c.by c.asks.otp s).0) h in
      ground (arith, h, checked-IsSettled user id c.at c.by c.asks.transaction_id r.1 r.0 kept)

  overrides-IsSettled :
      (user id : String) (cs : List OverrideCall) (s : Service env)
      → IsSettled user id s
      → IsSettled user id (overrides cs s)
  overrides-IsSettled user id [] s h = h
  overrides-IsSettled user id (c ∷ cs) s h =
      overrides-IsSettled user id cs (override_transaction env c.at c.by c.asks s).0
        (override-IsSettled user id c s h)

  search_refuses :
      (now : ℕ) (user : String) (o : Option (Transaction fl)) (s : Service env)
      → is_settled fl o ≡ true
      → override_search env now user o s ≡ (s, override_failed not_pending)
  unfolding override_search
  search_refuses now user none s h = absurd (ground (arith, h))
  search_refuses now user (some tx) s h = found_settled env now user s tx (ground (arith, h))

  locked_refuses :
      (now : ℕ) (user id : String) (s : Service env)
      → IsSettled user id s
      → override_locked env now user id s ≡ (s, override_failed not_pending)
  unfolding override_locked
  locked_refuses now user id s h =
      search_refuses now user (find_transaction fl id (s.transactions user)) s h

  checked_pays_nothing :
      (now : ℕ) (user id : String) (e : Option OtpError) (s : Service env)
      → IsSettled user id s
      → (override_checked env now user id e s).0.accounts ≡ s.accounts
  unfolding override_checked
  checked_pays_nothing now user id (some err) s h = refl
  checked_pays_nothing now user id none s h =
      ap (λ z. z.0.accounts) (locked_refuses now user id s h)

  override_pays_nothing :
      (now : ℕ) (user : String) (req : OverrideRequest) (s : Service env)
      → IsSettled user req.transaction_id s
      → (override_transaction env now user req s).0.accounts ≡ s.accounts
  unfolding override_transaction
  override_pays_nothing now user req s h =
      let r = check_otp env now user req.otp s in
      let k = check_otp-Keeps env now user req.otp s in
      let kept = IsSettled-from user req.transaction_id s r.0 (ap (λ m. m user) k.0) h in
      ground (arith, k.1, checked_pays_nothing now user req.transaction_id r.1 r.0 kept)

  locked-IsSettled :
      (now : ℕ) (user id : String) (s : Service env) (tx : Transaction fl)
      → find_transaction fl id (s.transactions user) ≡ some tx
      → is_pending tx.status ≡ true
      → IsSettled user id (override_locked env now user id s).0
  locked-IsSettled now user id s tx f h =
      let list = update_transaction fl (set_status success) tx.id (s.transactions user) in
      let kept : (override_locked env now user id s).0.transactions user ≡ list =
        ap (λ z. z.0.transactions user) (locked_found env now user id s tx f)
        ∙ ap (λ m. m user) (found-transactions env now user tx s h)
        ∙ put_self s.transactions user list in
      let again =
        find_transaction-update fl (set_status success) id (s.transactions user) tx (λ t. refl) f in
      ap (λ z. is_settled fl (find_transaction fl id z)) kept ∙ ap (is_settled fl) again.0

  -- Once a pending transaction was overridden, also where its debit was refused for insufficient
  -- funds, and then any overrides at all were made, by anybody and of any transactions, but nothing
  -- else: a further override of it is refused as not pending, and whatever factors it shows, it
  -- changes no account.
  pub override_is_final :
      (now later : ℕ) (user : String) (again : OverrideRequest) (cs : List OverrideCall)
      (s : Service env) (tx : Transaction fl)
      → find_transaction fl again.transaction_id (s.transactions user) ≡ some tx
      → is_pending tx.status ≡ true
      → let s' = overrides cs (override_locked env now user again.transaction_id s).0 in
        (override_locked env later user again.transaction_id s' ≡ (s', override_failed not_pending))
        × ((override_transaction env later user again s').0.accounts ≡ s'.accounts)
  override_is_final now later user again cs s tx f h =
      let id = again.transaction_id in
      let t = (override_locked env now user id s).0 in
      let settled = overrides-IsSettled user id cs t (locked-IsSettled now user id s tx f h) in
      (
        locked_refuses later user id (overrides cs t) settled,
        override_pays_nothing later user again (overrides cs t) settled,
      )
