-- ===== src/Chaincode/Chain.antt =====
-- The numbered hash chain of one user's events (main.go, `chainHead`, `eventHash`, `GetProof`).
use hybrid_quantum_banking_b.Base.{
  ℕ, ◌+◌, ◌<◌, ◌≤◌, ◌≡◌, refl, ap, ◌∙◌, String, str_eq, eq_iff, Bool, true, false, Bool-cases, inl,
  inr, List, [], ◌∷◌, ◌++◌, All, map, arith, select, if◌then◌else◌,
}
use hybrid_quantum_banking_b.Chaincode.Events.{
  Runtime, Event, ChainHead, has_key, put_event, of_user,
}
use hybrid_quantum_banking_b.Chaincode.Contract.{event_hash, walk, intact}
use hybrid_quantum_banking_b.Chaincode.Order.{Ascending}

-- The events are numbered from the number after `n`, each names the hash before it and carries
-- its own, and the head is that of the last one.
abbrev pub IsChain : Runtime → ℕ → String → List Event → ChainHead → Type 0
IsChain rt n prev [] head = (head.seq ≡ n) × (head.hash ≡ prev)
IsChain rt n prev (e ∷ es) head =
    (e.seq ≡ n + 1)
    × (e.prev_hash ≡ prev)
    × (e.hash ≡ event_hash rt e)
    × IsChain rt (n + 1) e.hash es head

module _ (rt : Runtime) (head : ChainHead) where
  IsChain-le : (n : ℕ) (prev : String) (es : List Event) → IsChain rt n prev es head → n ≤ head.seq
  IsChain-le n prev [] h = omega (arith, h.0)
  IsChain-le n prev (e ∷ es) h = omega (arith, IsChain-le (n + 1) e.hash es h.3)

  -- No number is above that of the head.
  pub IsChain-bounded :
      (n : ℕ) (prev : String) (es : List Event)
      → IsChain rt n prev es head
      → All (λ e. e.seq ≤ head.seq) es
  IsChain-bounded n prev [] h = tt
  IsChain-bounded n prev (e ∷ es) h =
      (omega (arith, h.0, IsChain-le (n + 1) e.hash es h.3), IsChain-bounded (n + 1) e.hash es h.3)

  IsChain-above :
      (m n : ℕ) (prev : String) (es : List Event)
      → m ≤ n
      → IsChain rt n prev es head
      → All (λ e. m < e.seq) es
  IsChain-above m n prev [] le h = tt
  IsChain-above m n prev (e ∷ es) le h =
      (omega (arith, h.0), IsChain-above m (n + 1) e.hash es (omega arith) h.3)

  pub IsChain-Ascending :
      (n : ℕ) (prev : String) (es : List Event) → IsChain rt n prev es head → Ascending es
  IsChain-Ascending n prev [] h = tt
  IsChain-Ascending n prev (e ∷ es) h = (
    IsChain-above e.seq (n + 1) e.hash es (omega (arith, h.0)) h.3,
    IsChain-Ascending (n + 1) e.hash es h.3,
  )

  pub IsChain-snoc :
      (n : ℕ) (prev : String) (es : List Event) (ev : Event)
      → IsChain rt n prev es head
      → ev.seq ≡ head.seq + 1
      → ev.prev_hash ≡ head.hash
      → ev.hash ≡ event_hash rt ev
      → IsChain rt n prev (es ++ ev ∷ []) (record { seq = ev.seq; hash = ev.hash })
  IsChain-snoc n prev [] ev h s p q =
      (omega (arith, s, h.0), p ∙ h.1, q, (omega (arith, s, h.0), refl))
  IsChain-snoc n prev (e ∷ es) ev h s p q =
      (h.0, h.1, h.2, IsChain-snoc (n + 1) e.hash es ev h.3 s p q)

  -- The loop of `GetProof` finds nothing wrong and ends with the hash of the head.
  pub walk-IsChain :
      (n : ℕ) (prev : String) (es : List Event)
      → IsChain rt n prev es head
      → walk rt prev es ≡ (head.hash, map (λ e. e.hash) es, intact)
  unfolding walk
  walk-IsChain n prev [] h = rw h.1 refl
  walk-IsChain n prev (e ∷ es) h = ground (
    arith,
    eq_iff e.prev_hash prev,
    eq_iff (event_hash rt e) e.hash,
    walk-IsChain (n + 1) e.hash es h.3,
    h.1,
    h.2,
  )

module _ (P : Event → Type 0) (p : Event → Bool) where
  All-split :
      (x : Event) (xs : List Event) (b : Bool)
      → p x ≡ b
      → All P (if b then x ∷ xs else xs)
      → (p x ≡ true → P x) × All P xs
  All-split x xs true q h = (λ _. h.0, h.1)
  All-split x xs false q h = (λ y. absurd cc, h)

  -- What holds of the selected events holds of all that pass the test.
  pub All-selected : (xs : List Event) → All P (select p xs) → All (λ e. p e ≡ true → P e) xs
  All-selected [] h = tt
  All-selected (x ∷ xs) h =
      let both = All-split x (select p xs) (p x) refl h in (both.0, All-selected xs both.1)

has_key-new :
    (user category : String) (n : ℕ) (es : List Event)
    → All (λ e. of_user user e ≡ true → e.seq ≤ n) es
    → All (λ e. has_key user category (n + 1) e ≡ false) es
unfolding of_user has_key
has_key-new user category n [] h = tt
has_key-new user category n (e ∷ es) h = elim (Bool-cases (str_eq e.user_id user)) [
  | inl y ↦ (ground (arith, h.0 y), has_key-new user category n es h.1)
  | inr m ↦ (rw m refl, has_key-new user category n es h.1)
]

-- Numbers up to `n` only: the key with the next number is new.
pub has_key-fresh :
    (user category : String) (n : ℕ) (es : List Event)
    → All (λ e. e.seq ≤ n) (select (of_user user) es)
    → All (λ e. has_key user category (n + 1) e ≡ false) es
has_key-fresh user category n es h =
    has_key-new user category n es (All-selected (λ e. e.seq ≤ n) (of_user user) es h)

pub put_event-fresh :
    (ev : Event) (es : List Event)
    → All (λ e. has_key ev.user_id ev.category ev.seq e ≡ false) es
    → put_event ev es ≡ es ++ ev ∷ []
unfolding put_event
put_event-fresh ev [] h = refl
put_event-fresh ev (e ∷ es) h = rw (h.0) (ap (λ l. e ∷ l) (put_event-fresh ev es h.1))
