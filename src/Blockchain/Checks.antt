-- ===== src/Blockchain/Checks.antt =====
-- The reads that check the chain (ledger.go, `VerifyIntegrity`, `VerifyCoolingOff`, `MerkleRoot`).
use Prim.Native.String.{◌++◌ as ◌+s◌}
use hybrid_quantum_banking_b.Base.{
  ℕ, zero, suc, ◌+◌, ◌-◌, String, str_eq, not, ◌&&◌, ◌||◌, List, [], ◌∷◌, Option, none, some, ltb,
  if◌then◌else◌, length, select,
}
use hybrid_quantum_banking_b.Blockchain.Events.{Event, Host, six_hours}
use hybrid_quantum_banking_b.Blockchain.Writes.{digest_input}

-- The outcome of `VerifyIntegrity`.
pub data Integrity : Type 0 where
  intact : Integrity
  chain_broken hash_mismatch : String → Integrity

-- The loop of `VerifyIntegrity`, with the hash of the event before.
unfoldable pub verify_from : Host → String → List Event → Integrity
verify_from host expected [] = intact
verify_from host expected (ev ∷ es) =
    if not (str_eq ev.prev_hash expected)
    then chain_broken ev.id
    else if not (str_eq ev.hash (host.sha256_hex (digest_input host ev)))
    then hash_mismatch ev.id
    else verify_from host ev.hash es

-- `VerifyIntegrity`, with no network attached.
unfoldable pub verify_integrity : Host → List Event → Integrity
unfolding verify_from
verify_integrity host = verify_from host ""

-- `VerifyCoolingOff`, with no network attached: the time that remains, if one is active.
unfoldable pub verify_cooling_off : ℕ → String → List Event → Option ℕ
verify_cooling_off now user [] = none
verify_cooling_off now user (ev ∷ es) =
    if str_eq ev.user_id user
      && (str_eq ev.action "transaction_initiated" || str_eq ev.action "transaction_blocked")
      && ev.smart_contract.passed
      && ltb now (ev.timestamp + six_hours)
    then some (ev.timestamp + six_hours - now)
    else verify_cooling_off now user es

-- `EventsByUser`, with no network attached.
unfoldable pub events_by_user : String → List Event → List Event
events_by_user user events =
    if str_eq user "" then events else select (λ e. str_eq e.user_id user) events

-- One level of the Merkle tree: neighbours are hashed together, an odd last one with itself.
unfoldable pub merkle_level : Host → List String → List String
merkle_level host [] = []
merkle_level host (x ∷ []) = host.sha256_hex (x +s x) ∷ []
merkle_level host (x ∷ y ∷ rest) = host.sha256_hex (x +s y) ∷ merkle_level host rest

-- `for len(hashes) > 1`, on fuel; the root is the one hash that is left.
unfoldable pub merkle_loop : Host → ℕ → List String → Option String
merkle_loop host fuel [] = none
merkle_loop host fuel (x ∷ []) = some x
merkle_loop host zero (x ∷ y ∷ rest) = none
merkle_loop host (suc fuel) (x ∷ y ∷ rest) =
    merkle_loop host fuel (merkle_level host (x ∷ y ∷ rest))

-- `MerkleRoot` of the hashes of a user's events; there are at most as many levels as hashes.
unfoldable pub merkle_root : Host → List String → Option String
unfolding merkle_loop merkle_level
merkle_root host hashes = merkle_loop host (length hashes) hashes
