-- ===== src/Outbox/Retention.antt =====
-- Which events the worker sees, and which the purge keeps (infrastructure.go,
-- `Dequeue`, `PendingCount`, `Purge`; service.go, `startOutboxWorker`).
use Prim.Native.Nat.{min}
use hybrid_quantum_banking_b.Base.{ℕ, ◌-◌, ◌≡◌, refl, List, [], ◌∷◌, arith, length}
use hybrid_quantum_banking_b.Outbox.{OutboxEvent, dequeue, purge, pending_count}

-- The worker is handed as many waiting events as there are, up to its limit.
pub length-dequeue :
    (limit : ℕ) (es : List OutboxEvent) → length (dequeue limit es) ≡ min limit (pending_count es)
unfolding dequeue pending_count
length-dequeue limit [] = omega arith
length-dequeue limit (e ∷ es) =
    ground (arith, length-dequeue limit es, length-dequeue (limit - 1) es)

-- The purge removes no event that waits: the worker is handed the same events after it.
pub dequeue-purge :
    (limit retention now : ℕ) (es : List OutboxEvent)
    → dequeue limit (purge retention now es) ≡ dequeue limit es
unfolding dequeue purge
dequeue-purge limit retention now [] = refl
dequeue-purge limit retention now (e ∷ es) =
    ground (arith, dequeue-purge limit retention now es, dequeue-purge (limit - 1) retention now es)

pending_count-purge :
    (retention now : ℕ) (es : List OutboxEvent)
    → pending_count (purge retention now es) ≡ pending_count es
unfolding pending_count purge
pending_count-purge retention now [] = refl
pending_count-purge retention now (e ∷ es) = ground (arith, pending_count-purge retention now es)
