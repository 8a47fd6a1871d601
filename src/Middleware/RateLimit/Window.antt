-- ===== src/Middleware/RateLimit/Window.antt =====
-- The requests of one window (rate_limit.go, `RateLimit`).
use hybrid_quantum_banking_b.Base.{
  ℕ, ◌+◌, ◌≤◌, ◌<◌, ◌≡◌, refl, String, str_eq, eq_iff, eq_refl, false, not, List, [], ◌∷◌, All,
  length, ◌-◌, Option, none, some, arith, Bool-cases, inl, inr, if◌then◌else◌,
}
use hybrid_quantum_banking_b.Base.Int64.{add64, lt64, sign_bit}
use hybrid_quantum_banking_b.Middleware.RateLimit.{
  Bucket, Limiter, has_elapsed, live_bucket, sweep, bucket_for, rate_limit,
}

-- A request: the address of its client and its time.
pub record Request : Type 0 where
  pub client : String
  pub now : ℕ

-- How many requests of a client are passed on, of a run of requests in their order.
unfoldable pub passed : ℕ → ℕ → String → List Request → Limiter → ℕ
passed limit window key [] s = 0
passed limit window key (r ∷ rs) s =
    let step = rate_limit limit window r.client r.now s in
    let rest = passed limit window key rs step.0 in
    if str_eq r.client key then (if step.1 then 1 + rest else rest) else rest

-- The request comes before the end of the window that starts at `start`.
abbrev pub InWindow : ℕ → ℕ → Request → Type 0
InWindow window start r = r.now < start + window

not-elapsed : (window now start : ℕ) → now < start + window → has_elapsed window now start ≡ false
not-elapsed window now start h = ground arith

-- The sweep changes no bucket that a request would still count in.
bucket_for-live_bucket :
    (window now : ℕ) (o : Option Bucket)
    → bucket_for window now (live_bucket window now o) ≡ bucket_for window now o
unfolding bucket_for live_bucket
bucket_for-live_bucket window now none = refl
bucket_for-live_bucket window now (some b) =
    elim (Bool-cases (has_elapsed window now b.window_start)) [
      | inl y ↦ rw (y) refl
      | inr n ↦ rw (n, n) refl
    ]

bucket_for-sweep :
    (window now : ℕ) (key : String) (s : Limiter)
    → bucket_for window now ((sweep window now s).buckets key)
      ≡ bucket_for window now (s.buckets key)
unfolding sweep
bucket_for-sweep window now key s = elim (Bool-cases (has_elapsed window now s.last_sweep)) [
  | inl y ↦ rw y (bucket_for-live_bucket window now (s.buckets key))
  | inr n ↦ rw n refl
]

counted :
    (limit count more : ℕ)
    → limit < sign_bit
    → count + 1 < sign_bit
    → more ≤ limit - add64 count 1
    → (if not (lt64 limit (add64 count 1)) then 1 + more else more) ≤ limit - count
counted limit count more l m h = ground arith

counted-first :
    (limit more : ℕ)
    → limit < sign_bit
    → more ≤ limit - add64 0 1
    → (if not (lt64 limit (add64 0 1)) then 1 + more else more) ≤ limit
counted-first limit more l h = let c = counted limit 0 more l (omega arith) h in omega (arith, c)

module _ (limit window : ℕ) (key : String) where
  sweep-live :
      (now : ℕ) (s : Limiter) (b : Bucket)
      → s.buckets key ≡ some b
      → now < b.window_start + window
      → (sweep window now s).buckets key ≡ some b
  unfolding sweep live_bucket
  sweep-live now s b q h = elim (Bool-cases (has_elapsed window now s.last_sweep)) [
    | inl y ↦ rw (y, q, not-elapsed window now b.window_start h) refl
    | inr n ↦ rw (n, q) refl
  ]

  -- A request of the client itself counts up.
  own-bucket :
      (now : ℕ) (s : Limiter) (b : Bucket)
      → bucket_for window now (s.buckets key) ≡ b
      → (rate_limit limit window key now s).0.buckets key
        ≡ some (record b { count = add64 b.count 1 })
  unfolding rate_limit
  own-bucket now s b q = rw (bucket_for-sweep window now key s, q, eq_refl key) refl

  own-verdict :
      (now : ℕ) (s : Limiter) (b : Bucket)
      → bucket_for window now (s.buckets key) ≡ b
      → (rate_limit limit window key now s).1 ≡ not (lt64 limit (add64 b.count 1))
  unfolding rate_limit
  own-verdict now s b q = rw (bucket_for-sweep window now key s, q) refl

  -- A request of another client leaves the bucket.
  other-bucket :
      (client : String) (now : ℕ) (s : Limiter) (b : Bucket)
      → str_eq key client ≡ false
      → s.buckets key ≡ some b
      → now < b.window_start + window
      → (rate_limit limit window client now s).0.buckets key ≡ some b
  unfolding rate_limit
  other-bucket client now s b n q h = rw n (sweep-live now s b q h)

  bucket-live :
      (now : ℕ) (s : Limiter) (b : Bucket)
      → s.buckets key ≡ some b
      → now < b.window_start + window
      → bucket_for window now (s.buckets key) ≡ b
  unfolding bucket_for
  bucket-live now s b q h = rw (q, not-elapsed window now b.window_start h) refl

  passed-bounded :
      (rs : List Request) (s : Limiter) (b : Bucket)
      → s.buckets key ≡ some b
      → All (InWindow window b.window_start) rs
      → b.count + length rs < sign_bit
      → limit < sign_bit
      → passed limit window key rs s ≤ limit - b.count
  unfolding passed
  passed-bounded [] s b q h m l = omega arith
  passed-bounded (r ∷ rs) s b q h m l = elim (Bool-cases (str_eq r.client key)) [
    | inl y ↦
        let same = (eq_iff r.client key).0 y in
        let own = bucket-live r.now s b q h.0 in
        let next : (rate_limit limit window r.client r.now s).0.buckets key
            ≡ some (record b { count = add64 b.count 1 }) =
          rw same (own-bucket r.now s b own) in
        let verdict : (rate_limit limit window r.client r.now s).1
            ≡ not (lt64 limit (add64 b.count 1)) =
          rw same (own-verdict r.now s b own) in
        let rest =
          passed-bounded rs (rate_limit limit window r.client r.now s).0
            (record b { count = add64 b.count 1 }) next h.1 (omega (arith, m)) l in
        rw (y, verdict) (counted limit b.count _ l (omega (arith, m)) rest)
    | inr n ↦
        let other : str_eq key r.client ≡ false =
          ground (arith, eq_iff r.client key, eq_iff key r.client) in
        rw n (
          passed-bounded rs (rate_limit limit window r.client r.now s).0 b
            (other-bucket r.client r.now s b other q h.0) h.1 (omega (arith, m)) l)
  ]

-- Within one window, counted from the request that opens it, RateLimit passes on at most the
-- limit of a client's requests, whatever the other clients send in between.
pub window_bounded :
    (limit window : ℕ) (first : Request) (rs : List Request) (s : Limiter)
    → bucket_for window first.now (s.buckets first.client)
      ≡ record { window_start = first.now; count = 0 }
    → All (InWindow window first.now) rs
    → 0 < limit
    → limit < sign_bit
    → length rs + 1 < sign_bit
    → passed limit window first.client (first ∷ rs) s ≤ limit
unfolding passed
window_bounded limit window first rs s q h z l m =
    let b : Bucket = record { window_start = first.now; count = 0 } in
    let next = own-bucket limit window first.client first.now s b q in
    let rest =
      passed-bounded limit window first.client rs
        (rate_limit limit window first.client first.now s).0 (record b { count = add64 b.count 1 })
        next h (omega (arith, m)) l in
    rw (eq_refl first.client, own-verdict limit window first.client first.now s b q)
      (counted-first limit _ l rest)
