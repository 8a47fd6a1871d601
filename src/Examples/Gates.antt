-- ===== src/Examples/Gates.antt =====
-- Runs of the guards in front of the handlers.
use hybrid_quantum_banking_b.Base.{
  ℕ, ◌≤◌, ◌≡◌, refl, String, str_eq, true, false, Option, not, none, some, [], ◌∷◌, arith,
  if◌then◌else◌,
}
use hybrid_quantum_banking_b.Base.Text.{trim_space}
use hybrid_quantum_banking_b.Middleware.Bearer.{
  JwtAnswer, claims, token_invalid, auth, granted, check_token, judge, role_of_claims, Vouched,
  auth-Vouched,
}
use hybrid_quantum_banking_b.Middleware.Roles.{admin, parse_role}
use hybrid_quantum_banking_b.Middleware.RateLimit.{Limiter, bucket_for}
use hybrid_quantum_banking_b.Middleware.RateLimit.Window.{Request, passed, window_bounded}
use hybrid_quantum_banking_b.Middleware.Replay.{
  Guard, KeyedRequest, passed_on, key_conflict, store_key, find_seen, require_idempotency,
}
use hybrid_quantum_banking_b.Middleware.Replay.Binding.{IsKeyed, run, key_stays_bound}

abbrev idle_limiter : Limiter
idle_limiter = record { buckets = λ _. none; last_sweep = 0 }

abbrev demo_request : String → ℕ → Request
demo_request client now = record { client = client; now = now }

window_bounded_example :
    passed 2 1000 "10.0.0.1"
      (demo_request "10.0.0.1" 5
        ∷ demo_request "10.0.0.1" 6
        ∷ demo_request "10.0.0.2" 7
        ∷ demo_request "10.0.0.1" 8
        ∷ [])
      idle_limiter
    ≤ 2
unfolding bucket_for
window_bounded_example =
    window_bounded 2 1000 (demo_request "10.0.0.1" 5)
      (demo_request "10.0.0.1" 6 ∷ demo_request "10.0.0.2" 7 ∷ demo_request "10.0.0.1" 8 ∷ [])
      idle_limiter refl (omega arith, (omega arith, (omega arith, tt))) (omega arith) (omega arith)
      (omega arith)

abbrev empty_guard : Guard
empty_guard = record { seen = []; last_sweep = 0 }

abbrev demo_keyed : String → KeyedRequest
demo_keyed body = record {
  method = "POST";
  path = "/v1/payments";
  requires_key = true;
  idempotency_key = "k1";
  body_hash = body;
  user_id = some "alice";
}

demo-IsKeyed : (body : String) → IsKeyed (demo_keyed body)
unfolding trim_space
demo-IsKeyed body = record { mutating = refl; wants_key = refl; named = refl }

key_stays_bound_example :
    ((require_idempotency 10 (demo_keyed "h1") empty_guard).1 ≡ passed_on)
    × ((require_idempotency 30 (demo_keyed "h2") (
          run
            ((20, demo_keyed "h3") ∷ [])
            (require_idempotency 10 (demo_keyed "h1") empty_guard).0)).1
        ≡ (if not (str_eq "h1" "h2") then key_conflict else passed_on))
unfolding find_seen store_key
key_stays_bound_example =
    key_stays_bound 10 30 (demo_keyed "h1") (demo_keyed "h2") ((20, demo_keyed "h3") ∷ [])
      empty_guard (demo-IsKeyed "h1") (demo-IsKeyed "h2") refl refl (omega arith, tt) (omega arith)

-- A verifier that knows one signed token, and an authenticator that knows none.
abbrev demo_verify : String → String → JwtAnswer
demo_verify token device = if str_eq token "t" then claims "alice" "admin" else token_invalid

abbrev no_session : String → String → Option String
no_session token device = none

alice_granted :
    auth (λ s. s) no_session none (some demo_verify) (some "t") "d1" ≡ granted "alice" (some admin)
unfolding auth check_token judge role_of_claims parse_role trim_space
alice_granted = refl

auth-Vouched_example :
    (str_eq (trim_space "t") "" ≡ false)
    × Vouched (λ s. s) no_session none demo_verify (trim_space "t") (trim_space "d1") "alice"
auth-Vouched_example =
    auth-Vouched (λ s. s) no_session none demo_verify "t" "d1" "alice" (some admin) alice_granted
