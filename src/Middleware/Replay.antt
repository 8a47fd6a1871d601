-- ===== src/Middleware/Replay.antt =====
-- The binding of an idempotency key to a request body
-- (backend/internal/api/middleware/idempotency.go). SHA-256 of the body comes in as its text.
pub mod Binding
use Prim.Native.String.{◌++◌ as ◌+s◌}
use hybrid_quantum_banking_b.Base.{
  ℕ, ◌+◌, ltb, leb, String, str_eq, Bool, true, false, not, ◌&&◌, ◌||◌, List, [], ◌∷◌, Option, none,
  some, length, select, if◌then◌else◌,
}
use hybrid_quantum_banking_b.Base.Text.{trim_space}

-- An `entry` of the map `seen`, with its key.
pub record Seen : Type 0 where
  pub key : String
  pub body_hash : String
  pub expires : ℕ

pub record Guard : Type 0 where
  pub seen : List Seen
  pub last_sweep : ℕ

-- What the guard reads of a request.
pub record KeyedRequest : Type 0 where
  pub method : String
  pub path : String
  pub requires_key : Bool
  pub idempotency_key : String
  pub body_hash : String
  pub user_id : Option String

pub data Passage : Type 0 where
  passed_on key_missing key_conflict : Passage

-- `24 * time.Hour`, `time.Hour` and `maxEntries`.
abbrev pub key_ttl : ℕ
key_ttl = 86400000000000

abbrev pub one_hour : ℕ
one_hour = 3600000000000

abbrev pub max_seen : ℕ
max_seen = 50000

abbrev pub scope_of : Option String → String
scope_of none = "anon"
scope_of (some user) = user

unfoldable pub store_key : KeyedRequest → String
store_key r = scope_of r.user_id +s ("|" +s (r.path +s ("|" +s trim_space r.idempotency_key)))

-- `seen[key]`
unfoldable pub find_seen : String → List Seen → Option Seen
find_seen key [] = none
find_seen key (e ∷ es) = if str_eq e.key key then some e else find_seen key es

-- `seen[key] = …`
unfoldable pub put_seen : Seen → List Seen → List Seen
put_seen x [] = x ∷ []
put_seen x (e ∷ es) = let rest = put_seen x es in if str_eq e.key x.key then x ∷ es else e ∷ rest

-- The sweep of expired entries, at most once an hour unless the map is large.
unfoldable pub sweep_seen : ℕ → Guard → Guard
sweep_seen now g =
    if leb (g.last_sweep + one_hour) now || ltb max_seen (length g.seen)
    then record { seen = select (λ e. not (ltb e.expires now)) g.seen; last_sweep = now }
    else g

unfoldable pub bind_key : ℕ → String → String → Option Seen → Guard → Guard × Passage
bind_key now key hash none g = (
  record g {
    seen = put_seen (record { key = key; body_hash = hash; expires = now + key_ttl }) g.seen;
  },
  passed_on,
)
bind_key now key hash (some prev) g =
    if ltb now prev.expires
    then (if not (str_eq prev.body_hash hash) then (g, key_conflict) else (g, passed_on))
    else (
      record g {
        seen = put_seen (record { key = key; body_hash = hash; expires = now + key_ttl }) g.seen;
      },
      passed_on,
    )

-- One request of `RequireIdempotency`; the method is in upper case.
unfoldable pub require_idempotency : ℕ → KeyedRequest → Guard → Guard × Passage
require_idempotency now r g =
    if not (str_eq r.method "POST") && not (str_eq r.method "PATCH")
    then (g, passed_on)
    else if not r.requires_key
    then (g, passed_on)
    else if str_eq (trim_space r.idempotency_key) ""
    then (g, key_missing)
    else let swept = sweep_seen now g in
      bind_key now (store_key r) r.body_hash (find_seen (store_key r) swept.seen) swept
