-- ===== src/Blockchain/Merkle.antt =====
-- The Merkle root (ledger.go, `MerkleRoot`).
use Prim.Native.String.{◌++◌ as ◌+s◌}
use hybrid_quantum_banking_b.Base.{
  ℕ, zero, suc, ◌+◌, ◌≤◌, ◌≡◌, refl, sym, ap, ◌∙◌, length-append, String, List, [], ◌∷◌, ◌++◌, some,
  arith, length,
}
use hybrid_quantum_banking_b.Blockchain.Events.{Host}
use hybrid_quantum_banking_b.Blockchain.Checks.{merkle_level, merkle_loop, merkle_root}

length-merkle_level :
    (host : Host) (hs : List String)
    → length (merkle_level host hs) + length (merkle_level host hs) ≤ length hs + 1
unfolding merkle_level
length-merkle_level host [] = omega arith
length-merkle_level host (x ∷ []) = omega arith
length-merkle_level host (x ∷ y ∷ rest) = omega (arith, length-merkle_level host rest)

merkle_loop_total :
    (host : Host) (fuel : ℕ) (x : String) (rest : List String)
    → length rest ≤ fuel
    → (r : String) × (merkle_loop host fuel (x ∷ rest) ≡ some r)
unfolding merkle_loop merkle_level
merkle_loop_total host fuel x [] h = (x, refl)
merkle_loop_total host zero x (y ∷ rest) h = absurd (omega arith)
merkle_loop_total host (suc fuel) x (y ∷ rest) h =
    merkle_loop_total host fuel (host.sha256_hex (x +s y)) (merkle_level host rest)
      (omega (arith, length-merkle_level host rest))

-- The root of at least one hash exists: the fuel, the number of hashes, is enough.
pub merkle_root_total :
    (host : Host) (x : String) (rest : List String)
    → (r : String) × (merkle_root host (x ∷ rest) ≡ some r)
unfolding merkle_root
merkle_root_total host x rest = merkle_loop_total host (length (x ∷ rest)) x rest (omega arith)

-- More fuel gives the same root.
merkle_loop-le :
    (host : Host) (n m : ℕ) (hs : List String) (r : String)
    → n ≤ m
    → merkle_loop host n hs ≡ some r
    → merkle_loop host m hs ≡ some r
unfolding merkle_loop
merkle_loop-le host n m [] r le h = cc
merkle_loop-le host n m (x ∷ []) r le h = h
merkle_loop-le host zero m (x ∷ y ∷ rest) r le h = cc
merkle_loop-le host (suc n) zero (x ∷ y ∷ rest) r le h = absurd (omega arith)
merkle_loop-le host (suc n) (suc m) (x ∷ y ∷ rest) r le h =
    merkle_loop-le host n m (merkle_level host (x ∷ y ∷ rest)) r (omega arith) h

-- Any two amounts of fuel that are enough give one root.
merkle_loop_stable :
    (host : Host) (n m : ℕ) (x : String) (rest : List String)
    → length rest ≤ n
    → n ≤ m
    → merkle_loop host m (x ∷ rest) ≡ merkle_loop host n (x ∷ rest)
merkle_loop_stable host n m x rest h le =
    let (r, e) = merkle_loop_total host n x rest h in
    merkle_loop-le host n m (x ∷ rest) r le e ∙ sym e

-- The hashes of an even number of events, two by two.
abbrev pub in_pairs : List (String × String) → List String
in_pairs [] = []
in_pairs ((a, b) ∷ ps) = a ∷ b ∷ in_pairs ps

merkle_level-duplicate :
    (host : Host) (ps : List (String × String)) (x : String)
    → merkle_level host (in_pairs ps ++ x ∷ x ∷ []) ≡ merkle_level host (in_pairs ps ++ x ∷ [])
unfolding merkle_level
merkle_level-duplicate host [] x = refl
merkle_level-duplicate host ((a, b) ∷ ps) x = rw (merkle_level-duplicate host ps x)

merkle_loop_step :
    (host : Host) (fuel : ℕ) (a b : String) (rest : List String)
    → merkle_loop host (suc fuel) (a ∷ b ∷ rest)
      ≡ merkle_loop host fuel (host.sha256_hex (a +s b) ∷ merkle_level host rest)
unfolding merkle_loop merkle_level
merkle_loop_step host fuel a b rest = refl

-- An odd number of events, three or more, has the same Merkle root as the events with the last
-- one written twice: the root does not commit to the number of events.
pub merkle_root_duplicate :
    (host : Host) (a b : String) (ps : List (String × String)) (x : String)
    → merkle_root host (a ∷ b ∷ in_pairs ps ++ x ∷ x ∷ [])
      ≡ merkle_root host (a ∷ b ∷ in_pairs ps ++ x ∷ [])
unfolding merkle_root
merkle_root_duplicate host a b ps x =
    let twice = in_pairs ps ++ x ∷ x ∷ [] in
    let once = in_pairs ps ++ x ∷ [] in
    let top = host.sha256_hex (a +s b) in
    let level = merkle_level host once in
    let longer = length-append (in_pairs ps) (x ∷ x ∷ []) in
    let shorter = length-append (in_pairs ps) (x ∷ []) in
    merkle_loop_step host (suc (length twice)) a b twice
    ∙ ap (λ l. merkle_loop host (suc (length twice)) (top ∷ l)) (merkle_level-duplicate host ps x)
    ∙ merkle_loop_stable host (suc (length once)) (suc (length twice)) top level
        (omega (arith, length-merkle_level host once)) (omega (arith, longer, shorter))
    ∙ sym (merkle_loop_step host (suc (length once)) a b once)
