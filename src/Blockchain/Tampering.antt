-- ===== src/Blockchain/Tampering.antt =====
-- What the integrity check detects and what it does not (ledger.go, `VerifyIntegrity`).
use Prim.Native.String.{◌++◌ as ◌+s◌, count}
use text.Mathlib.TextLemmas.{append_assoc as text_assoc}
use text.Mathlib.TextLemmas.{append_inj}
use hybrid_quantum_banking_b.Base.{
  ◌≡◌, refl, sym, ◌∙◌, ap, String, List, [], ◌∷◌, ◌++◌, arith, length,
}
use hybrid_quantum_banking_b.Blockchain.Events.{Event, Host, RuleResult}
use hybrid_quantum_banking_b.Blockchain.Writes.{digest_input}
use hybrid_quantum_banking_b.Blockchain.Checks.{intact, verify_from, verify_integrity}
use hybrid_quantum_banking_b.Blockchain.Chain.{IsLinked, intact-IsLinked}

verify_from-replace :
    (host : Host) (expected : String) (before : List Event) (x y : Event) (after : List Event)
    → x.id ≡ y.id
    → x.prev_hash ≡ y.prev_hash
    → x.hash ≡ y.hash
    → digest_input host x ≡ digest_input host y
    → verify_from host expected (before ++ x ∷ after)
      ≡ verify_from host expected (before ++ y ∷ after)
unfolding verify_from
verify_from-replace host expected [] x y after i p h d = rw (d, i, p, h)
verify_from-replace host expected (e ∷ before) x y after i p h d =
    rw (verify_from-replace host e.hash before x y after i p h d)

-- The digest runs the fields together. Moving the end of an event's user id to the front of its
-- action, anywhere in a chain, leaves the outcome of the integrity check as it was.
pub shift_undetected :
    (host : Host) (before after : List Event) (e : Event) (user tail : String)
    → e.user_id ≡ user +s tail
    → verify_integrity host
        (before ++ record e { user_id = user; action = tail +s e.action } ∷ after)
      ≡ verify_integrity host (before ++ e ∷ after)
unfolding verify_integrity
shift_undetected host before after e user tail h =
    verify_from-replace host "" before (record e { user_id = user; action = tail +s e.action }) e
      after refl refl refl (rw h (simp text_assoc))

-- What the rules said of an event is not hashed. Exchanging it, anywhere in a chain, leaves the
-- outcome of the integrity check as it was.
pub rule_result_undetected :
    (host : Host) (before after : List Event) (e : Event) (other : RuleResult)
    → verify_integrity host (before ++ record e { smart_contract = other } ∷ after)
      ≡ verify_integrity host (before ++ e ∷ after)
unfolding verify_integrity
rule_result_undetected host before after e other =
    verify_from-replace host "" before (record e { smart_contract = other }) e after refl refl refl
      refl

-- At no position do the two chains show different digests of one hash.
abbrev pub NoCollision : Host → List Event → List Event → Type 0
NoCollision host [] fs = Unit
NoCollision host (e ∷ es) [] = Unit
NoCollision host (e ∷ es) (f ∷ fs) =
    (host.sha256_hex (digest_input host e) ≡ host.sha256_hex (digest_input host f)
      → digest_input host e ≡ digest_input host f)
    × NoCollision host es fs

-- Position by position, the two chains have the same hashes and the same hashed text.
abbrev pub SameDigests : Host → List Event → List Event → Type 0
SameDigests host [] [] = Unit
SameDigests host (e ∷ es) (f ∷ fs) =
    (e.hash ≡ f.hash) × (digest_input host e ≡ digest_input host f) × SameDigests host es fs
SameDigests host _ _ = ⊥

-- The hash of the last event, or the one given.
abbrev pub head_from : String → List Event → String
head_from expected [] = expected
head_from expected (e ∷ es) = head_from e.hash es

agree :
    (host : Host) (x y : String) (es fs : List Event)
    → ((a b : String) → count (host.sha256_hex a) ≡ count (host.sha256_hex b))
    → count x ≡ count y
    → IsLinked host x es
    → IsLinked host y fs
    → length es ≡ length fs
    → NoCollision host es fs
    → head_from x es ≡ head_from y fs
    → (x ≡ y) × SameDigests host es fs
agree host x y [] [] w c h k l n t = (t, tt)
agree host x y [] (f ∷ fs) w c h k l n t = absurd (omega arith)
agree host x y (e ∷ es) [] w c h k l n t = absurd (omega arith)
agree host x y (e ∷ es) (f ∷ fs) w c h k l n t =
    let counts : count e.hash ≡ count f.hash =
      ap count h.1 ∙ w (digest_input host e) (digest_input host f) ∙ sym (ap count k.1) in
    let (same, rest) = agree host e.hash f.hash es fs w counts h.2 k.2 (omega arith) n.1 t in
    let digests : digest_input host e ≡ digest_input host f = n.0 (sym h.1 ∙ same ∙ k.1) in
    let prevs : e.prev_hash ≡ f.prev_hash =
      (append_inj digests (ap count h.0 ∙ c ∙ sym (ap count k.0))).0 in
    (sym h.0 ∙ prevs ∙ k.0, (same, digests, rest))

-- Two chains of one length that both pass the integrity check and end in the same hash carry the
-- same hashes and the same hashed text at every position, if all hashes have the same number of
-- characters and the two chains show no collision of the hash at any position.
pub head_hash_commits :
    (host : Host) (es fs : List Event)
    → ((a b : String) → count (host.sha256_hex a) ≡ count (host.sha256_hex b))
    → NoCollision host es fs
    → verify_integrity host es ≡ intact
    → verify_integrity host fs ≡ intact
    → length es ≡ length fs
    → head_from "" es ≡ head_from "" fs
    → SameDigests host es fs
unfolding verify_integrity
head_hash_commits host es fs w n h k l t =
    (agree host "" "" es fs w refl (intact-IsLinked host "" es h) (intact-IsLinked host "" fs k) l n
      t).1
