-- ===== src/Chaincode/Queries.antt =====
-- What queries find in the world states that transactions make (main.go, `RecordEvent`,
-- `SetCoolingOffWindow`, `QueryByUser`, `QueryByCategory`, `GetEvent`, `GetProof`).
use hybrid_quantum_banking_b.Base.{
  ◌+◌, ◌<◌, ◌≡◌, refl, ap, ◌∙◌, subst, String, eq_refl, ◌&&◌, true, List, [], ◌∷◌, ◌++◌, All, some,
  arith, select, select-append, Bool-cases, Option-cases, inl, inr, length, ◌≢◌,
}
use hybrid_quantum_banking_b.Base.Int64.{modulus, non_positive}
use hybrid_quantum_banking_b.Base.Maps.{str_eq_ne}
use hybrid_quantum_banking_b.Base.Text.{trim_space}
use hybrid_quantum_banking_b.Blockchain.Checks.{merkle_root}
use hybrid_quantum_banking_b.Chaincode.Events.{
  Runtime, Event, valid_categories, is_category, query_user, query_category, of_user, in_category,
  find_event, has_key, sort_by_seq, scan, scan_category,
}
use hybrid_quantum_banking_b.Chaincode.Contract.{
  World, empty_world, set_cooling_off_window, RecordCall, record_event, query_by_user,
  query_by_category, get_event, get_proof, proof_of, Proof, walk, intact, host_of,
}
use hybrid_quantum_banking_b.Chaincode.Order.{
  Ascending, Ascending-select, sort_by_seq-Ascending, scan-sorted, select-All, within, Distinct,
  All-select,
}
use hybrid_quantum_banking_b.Chaincode.Chain.{IsChain-Ascending, walk-IsChain, All-selected}
use hybrid_quantum_banking_b.Chaincode.Log.{Represents, Represents-record_event, written}

-- The worlds that calls make from the empty one, with the events recorded so far; no user has
-- 2 ^ 64 - 1 events.
pub data Reachable (rt : Runtime) : World → List Event → Type 0 where
  fresh : Reachable rt empty_world []
  call :
      {w : World} {log : List Event} (c : RecordCall)
      → (w.heads (trim_space c.user_id)).seq + 1 < modulus
      → Reachable rt w log
      → Reachable rt (record_event rt c w).0 (log ++ written (record_event rt c w).1)
  configure :
      {w : World} {log : List Event} (duration : String)
      → Reachable rt w log
      → Reachable rt (set_cooling_off_window rt duration w).0 log

set_cooling_off_window-log :
    (rt : Runtime) (duration : String) (w : World) {log : List Event}
    → Represents rt w log
    → Represents rt (set_cooling_off_window rt duration w).0 log
unfolding set_cooling_off_window
set_cooling_off_window-log rt duration w rep =
    elim (Option-cases (rt.parse_duration (trim_space duration))) [
      | inl n ↦ rw n rep
      | inr (d, h) ↦ elim (Bool-cases (non_positive d)) [
        | inl y ↦ rw (h, y) rep
        | inr n ↦ rw (h, n) (record { same = rep.same; valid = rep.valid; chains = rep.chains })
      ]
    ]

pub Reachable-Represents :
    (rt : Runtime) {w : World} {log : List Event} → Reachable rt w log → Represents rt w log
Reachable-Represents rt fresh = record { same = refl; valid = tt; chains = λ user. (refl, refl) }
Reachable-Represents rt (call c h r) = Represents-record_event rt (Reachable-Represents rt r) c h
Reachable-Represents rt (configure duration r) =
    set_cooling_off_window-log rt duration _ (Reachable-Represents rt r)

categories-Distinct : Distinct valid_categories
unfolding is_category
categories-Distinct = (refl, (refl, (refl, (refl, (refl, (refl, (refl, (refl, tt))))))))

module _ (rt : Runtime) {w : World} {log : List Event} (rep : Represents rt w log) where
  user-Ascending : (user : String) → Ascending (select (of_user user) log)
  user-Ascending user =
      IsChain-Ascending rt (w.heads user) 0 "" (select (of_user user) log) (rep.chains user)

  one-Ascending :
      (user category : String)
      → Ascending (select (in_category category) (select (of_user user) log))
  one-Ascending user category =
      Ascending-select (in_category category) (select (of_user user) log) (user-Ascending user)

  user-scan :
      (user : String) → sort_by_seq (scan user log valid_categories) ≡ select (of_user user) log
  user-scan user =
      let own = select (of_user user) log in
      scan-sorted user log valid_categories categories-Distinct (user-Ascending user)
      ∙ select-All (within valid_categories) own (
          All-select (λ e. is_category valid_categories e.category ≡ true) (of_user user) log
            rep.valid)

  pub query_user-log :
      (user : String)
      → rt.valid_key user ≡ true
      → query_user rt user w.store ≡ some (select (of_user user) log)
  unfolding query_user
  query_user-log user k = rw (k, rep.same) (ap some (user-scan user))

  pub query_category-log :
      (user category : String)
      → rt.valid_key user && rt.valid_key category ≡ true
      → query_category rt user category w.store
        ≡ some (select (in_category category) (select (of_user user) log))
  unfolding query_category scan_category
  query_category-log user category k =
      let one = select (in_category category) (select (of_user user) log) in
      let sorted = sort_by_seq-Ascending one (one-Ascending user category) in
      rw (k, rep.same) (ap some (ap sort_by_seq sorted ∙ sorted))

-- In every world that fewer than 2 ^ 64 - 1 calls of RecordEvent per user make, QueryByUser and
-- QueryByCategory return exactly the recorded events of the user, and of the category, in the
-- order in which they were recorded.
pub queries-Log :
    (rt : Runtime) (w : World) (log : List Event) (user category : String)
    → Reachable rt w log
    → trim_space user ≢ ""
    → rt.valid_key user ≡ true
    → rt.valid_key category ≡ true
    → is_category valid_categories category ≡ true
    → (query_by_user rt user w ≡ some (select (of_user user) log))
      × (query_by_category rt user category w
          ≡ some (select (in_category category) (select (of_user user) log)))
unfolding query_by_user query_by_category
queries-Log rt w log user category r t k c v =
    let rep = Reachable-Represents rt r in
    (
      rw (str_eq_ne (trim_space user) "" t) (query_user-log rt rep user k),
      rw (str_eq_ne (trim_space user) "" t, v)
          (query_category-log rt rep user category (ground arith)),
    )

-- In every world that fewer than 2 ^ 64 - 1 calls of RecordEvent per user make, GetProof counts
-- the recorded events of the user, finds the chain intact and returns the hash of its head.
pub get_proof-Intact :
    (rt : Runtime) (w : World) (log : List Event) (user : String)
    → Reachable rt w log
    → rt.valid_key user ≡ true
    → (p : Proof) × (get_proof rt user w ≡ some p)
      × (p.event_count ≡ length (select (of_user user) log))
      × (p.detail ≡ intact)
      × (p.head_hash ≡ (w.heads user).hash)
unfolding get_proof
get_proof-Intact rt w log user r k =
    let rep = Reachable-Represents rt r in
    let own = select (of_user user) log in
    let good = walk-IsChain rt (w.heads user) 0 "" own (rep.chains user) in
    let p : Proof = record {
      event_count = length own;
      head_hash = (walk rt "" own).0;
      root = merkle_root (host_of rt) (walk rt "" own).1;
      detail = (walk rt "" own).2;
    } in
    (
      p,
      ap (proof_of rt) (query_user-log rt rep user k) ∙ unfold proof_of in refl,
      refl,
      ap (λ o. o.2) good,
      ap (λ o. o.0) good,
    )

All-middle :
    (P : Event → Type 0) (e : Event) (older bs : List Event) → All P (older ++ e ∷ bs) → P e
All-middle P e [] bs h = h.0
All-middle P e (a ∷ older) bs h = All-middle P e older bs h.1

-- In the user's part of the log, what comes before an event has a smaller number.
before-lt :
    (e : Event) (older bs : List Event)
    → Ascending (older ++ e ∷ bs)
    → All (λ x. x.seq < e.seq) older
before-lt e [] bs h = tt
before-lt e (a ∷ older) bs h =
    (All-middle (λ x. a.seq < x.seq) e older bs h.0, before-lt e older bs h.1)

find_event-middle :
    (e : Event) (xs ys : List Event)
    → All (λ x. of_user e.user_id x ≡ true → x.seq < e.seq) xs
    → find_event e.user_id e.category e.seq (xs ++ e ∷ ys) ≡ some e
unfolding find_event has_key of_user
find_event-middle e [] ys h = rw (eq_refl e.user_id, eq_refl e.category) (ground arith)
find_event-middle e (x ∷ xs) ys h = ground (arith, find_event-middle e xs ys h.1, h.0)

-- An event in the log stands in its user's part of it.
pub own-middle :
    (e : Event) (xs ys : List Event)
    → select (of_user e.user_id) (xs ++ e ∷ ys)
      ≡ select (of_user e.user_id) xs ++ e ∷ select (of_user e.user_id) ys
own-middle e xs ys =
    select-append (of_user e.user_id) xs (e ∷ ys)
    ∙ ap (λ l. select (of_user e.user_id) xs ++ l) (unfold of_user in rw (eq_refl e.user_id) refl)

module _ (rt : Runtime) {w : World} (xs : List Event) (e : Event) (ys : List Event) where
  older-lt :
      Represents rt w (xs ++ e ∷ ys) → All (λ x. of_user e.user_id x ≡ true → x.seq < e.seq) xs
  older-lt rep =
      All-selected (λ x. x.seq < e.seq) (of_user e.user_id) xs
        (before-lt e (select (of_user e.user_id) xs) (select (of_user e.user_id) ys)
          (subst Ascending (own-middle e xs ys) (user-Ascending rt rep e.user_id)))

  -- In every world that fewer than 2 ^ 64 - 1 calls of RecordEvent per user make, GetEvent finds
  -- each recorded event again, by its user, category and number.
  pub get_event-recorded :
      Reachable rt w (xs ++ e ∷ ys)
      → rt.valid_key e.user_id ≡ true
      → rt.valid_key e.category ≡ true
      → get_event rt e.user_id e.category e.seq w ≡ some e
  unfolding get_event
  get_event-recorded r k c =
      let rep = Reachable-Represents rt r in
      rw (k, c, rep.same) (find_event-middle e xs ys (older-lt rep))
