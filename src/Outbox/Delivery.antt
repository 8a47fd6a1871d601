-- ===== src/Outbox/Delivery.antt =====
-- Attempts at delivery, and the dead letters (infrastructure.go, `MarkFailed`).
use hybrid_quantum_banking_b.Base.{
  ℕ, ◌<◌, ◌≡◌, String, str_eq, Bool, true, false, Option, none, some, if◌then◌else◌, Bool-cases,
  inl, inr, List, [], ◌∷◌, arith, All,
}
use hybrid_quantum_banking_b.Outbox.{
  OutboxEvent, dequeue, update_first, set_processed, count_failure, mark_processed, mark_failed,
  purge, deliver, worker_tick,
}

-- An event that still waits for delivery was tried at most twice.
abbrev pub InTime : OutboxEvent → Type 0
InTime e = e.processed ≡ false → e.retries < 3

update_first-All :
    (f : OutboxEvent → OutboxEvent) (id : String) (es : List OutboxEvent)
    → ((e : OutboxEvent) → InTime e → InTime (f e))
    → All InTime es
    → All InTime (update_first f id es)
unfolding update_first
update_first-All f id [] k h = tt
update_first-All f id (e ∷ es) k h = ground (arith, k e h.0, update_first-All f id es k h.1)

set_processed-InTime : (e : OutboxEvent) → InTime e → InTime (set_processed e)
set_processed-InTime e h p = cc

count_failure-InTime : (e : OutboxEvent) → InTime e → InTime (count_failure e)
count_failure-InTime e h p = ground arith

purge-All :
    (retention now : ℕ) (es : List OutboxEvent)
    → All InTime es
    → All InTime (purge retention now es)
unfolding purge
purge-All retention now [] h = tt
purge-All retention now (e ∷ es) h = ground (arith, purge-All retention now es h.1)

mark_processed-All :
    (id : String) (es : List OutboxEvent) → All InTime es → All InTime (mark_processed id es)
unfolding mark_processed
mark_processed-All id es h = update_first-All set_processed id es set_processed-InTime h

mark_failed-All :
    (id : String) (es : List OutboxEvent) → All InTime es → All InTime (mark_failed id es)
unfolding mark_failed
mark_failed-All id es h = update_first-All count_failure id es count_failure-InTime h

deliver-All :
    (publish : OutboxEvent → Bool) (batch es : List OutboxEvent)
    → All InTime es
    → All InTime (deliver publish batch es)
unfolding deliver
deliver-All publish [] es h = h
deliver-All publish (e ∷ batch) es h = elim (Bool-cases (publish e)) [
  | inl sent ↦
      rw sent (deliver-All publish batch (mark_processed e.id es) (mark_processed-All e.id es h))
  | inr lost ↦ rw lost (deliver-All publish batch (mark_failed e.id es) (mark_failed-All e.id es h))
]

-- A tick of the worker keeps it true, whatever the publisher answers, that every event which still
-- waits was tried at most twice.
pub worker_tick-InTime :
    (publish : OutboxEvent → Bool) (now : ℕ) (es : List OutboxEvent)
    → All InTime es
    → All InTime (worker_tick publish now es)
unfolding worker_tick
worker_tick-InTime publish now es h =
    purge-All 21600000000000 now (deliver publish (dequeue 50 es) es)
      (deliver-All publish (dequeue 50 es) es h)

-- The first event of an id, which the two marks change.
abbrev pub find_event : String → List OutboxEvent → Option OutboxEvent
find_event id [] = none
find_event id (e ∷ es) = if str_eq e.id id then some e else find_event id es

find_event-update_first :
    (f : OutboxEvent → OutboxEvent) (id : String) (e : OutboxEvent) (es : List OutboxEvent)
    → ((x : OutboxEvent) → (f x).id ≡ x.id)
    → find_event id es ≡ some e
    → find_event id (update_first f id es) ≡ some (f e)
unfolding update_first
find_event-update_first f id e [] k h = cc
find_event-update_first f id e (x ∷ es) k h =
    ground (arith, k x, find_event-update_first f id e es k)

count_failure-id : (e : OutboxEvent) → (count_failure e).id ≡ e.id
count_failure-id e = ground arith

mark_failed-find :
    (id : String) (e : OutboxEvent) (es : List OutboxEvent)
    → find_event id es ≡ some e
    → find_event id (mark_failed id es) ≡ some (count_failure e)
unfolding mark_failed
mark_failed-find id e es h = find_event-update_first count_failure id e es count_failure-id h

-- An event that was never tried and waits still waits after its first and second failure, and the
-- third failure moves it to the dead letters.
pub mark_failed_dead_letter :
    (id : String) (e : OutboxEvent) (es : List OutboxEvent)
    → find_event id es ≡ some e
    → e.retries ≡ 0
    → e.processed ≡ false
    → let once = mark_failed id es in
      let twice = mark_failed id once in
      let thrice = mark_failed id twice in
      (find_event id once ≡ some (record e { retries = 1 }))
      × (find_event id twice ≡ some (record e { retries = 2 }))
      × (find_event id thrice ≡ some (record e { retries = 3; processed = true }))
mark_failed_dead_letter id e es h r p =
    let one = mark_failed-find id e es h in
    let two = mark_failed-find id (count_failure e) (mark_failed id es) one in
    let three =
      mark_failed-find id (count_failure (count_failure e)) (mark_failed id (mark_failed id es))
        two in
    ground (arith, one, two, three)
