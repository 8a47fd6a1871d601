-- ===== src/Transfers/Idempotency.antt =====
-- The cache of results by idempotency key, with its expiry and its cap (service.go,
-- `setIdempotentLocked`, `pruneIdempotencyLocked`).
use hybrid_quantum_banking_b.Base.{
  ℕ, zero, suc, ◌+◌, String, str_eq, not, List, [], ◌∷◌, ◌++◌, Option, none, some, ltb, leb,
  if◌then◌else◌, length, select,
}
use hybrid_quantum_banking_b.Transfers.State.{Env, Cached, TransactionResult}

abbrev pub max_entries : ℕ
max_entries = 10000

-- 24 hours in nanoseconds.
abbrev pub idempotency_ttl : ℕ
idempotency_ttl = 86400000000000

module _ (env : Env) where
  -- The entry of a key.
  unfoldable pub find_cached : String → List (Cached env) → Option (Cached env)
  find_cached key [] = none
  find_cached key (c ∷ cs) = if str_eq c.key key then some c else find_cached key cs

  -- `delete` of a key in both maps.
  unfoldable pub drop_key : String → List (Cached env) → List (Cached env)
  drop_key key = select (λ c. not (str_eq c.key key))

  -- The entry that expires first; of several, the first in the order of the iteration.
  unfoldable pub soonest : Cached env → List (Cached env) → Cached env
  soonest best [] = best
  soonest best (c ∷ cs) = soonest (if ltb c.expiry best.expiry then c else best) cs

  -- The second loop of `pruneIdempotencyLocked`: each round takes an entry away, so that as many
  -- rounds as there are entries are enough. It stops where the soonest key is empty.
  unfoldable pub evict : ℕ → List (Cached env) → List (Cached env)
  evict rounds [] = []
  evict zero (c ∷ cs) = c ∷ cs
  evict (suc rounds) (c ∷ cs) =
      let victim = (soonest c cs).key in
      let rest = evict rounds (drop_key victim (c ∷ cs)) in
      if leb (length (c ∷ cs)) max_entries
      then c ∷ cs
      else if str_eq victim ""
      then c ∷ cs
      else rest

  -- `pruneIdempotencyLocked`
  unfoldable pub prune : ℕ → List (Cached env) → List (Cached env)
  unfolding evict soonest drop_key
  prune now cs = let live = select (λ c. not (ltb c.expiry now)) cs in evict (length live) live

  -- `setIdempotentLocked`
  unfoldable pub set_idempotent :
      ℕ → String → TransactionResult (env.fl) → List (Cached env) → List (Cached env)
  unfolding prune drop_key
  set_idempotent now key res cs =
      prune now
        (drop_key key cs ++ record { key = key; result = res; expiry = now + idempotency_ttl } ∷ [])
