-- ===== src/Middleware/RateLimit.antt =====
-- The limit of requests per client and window (backend/internal/api/middleware/rate_limit.go).
pub mod Window
use hybrid_quantum_banking_b.Base.{
  ℕ, ◌+◌, leb, ltb, String, Bool, true, false, not, List, [], ◌∷◌, Option, none, some,
  if◌then◌else◌,
}
use hybrid_quantum_banking_b.Base.Int64.{non_positive, add64, lt64}
use hybrid_quantum_banking_b.Base.Maps.{put}

-- `bucket`
pub record Bucket : Type 0 where
  pub window_start : ℕ
  pub count : ℕ

pub record Limiter : Type 0 where
  pub buckets : String → Option Bucket
  pub last_sweep : ℕ

-- The settings after the defaults of 60 requests and one minute.
unfoldable pub max_of : ℕ → ℕ
max_of wanted = if non_positive wanted then 60 else wanted

unfoldable pub window_of : ℕ → ℕ
window_of wanted = if non_positive wanted then 60000000000 else wanted

-- `now.Sub(start) >= window`
abbrev pub has_elapsed : ℕ → ℕ → ℕ → Bool
has_elapsed window now start = leb (start + window) now

unfoldable pub live_bucket : ℕ → ℕ → Option Bucket → Option Bucket
live_bucket window now none = none
live_bucket window now (some b) = if has_elapsed window now b.window_start then none else some b

-- The lazy sweep.
unfoldable pub sweep : ℕ → ℕ → Limiter → Limiter
sweep window now s =
    if has_elapsed window now s.last_sweep
    then record { buckets = λ k. live_bucket window now (s.buckets k); last_sweep = now }
    else s

-- The bucket that counts a request.
unfoldable pub bucket_for : ℕ → ℕ → Option Bucket → Bucket
bucket_for window now none = record { window_start = now; count = 0 }
bucket_for window now (some b) =
    if has_elapsed window now b.window_start then record { window_start = now; count = 0 } else b

-- One request of `RateLimit`: the state after it, and whether it is passed on.
unfoldable pub rate_limit : ℕ → ℕ → String → ℕ → Limiter → Limiter × Bool
rate_limit limit window key now s0 =
    let s = sweep window now s0 in
    let b = bucket_for window now (s.buckets key) in
    let counted : Bucket = record b { count = add64 b.count 1 } in
    (record s { buckets = put s.buckets key (some counted) }, not (lt64 limit counted.count))
