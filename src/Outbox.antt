-- ===== src/Outbox.antt =====
-- The outbox of backend/internal/domain/platform/infrastructure.go and the round of its worker in
-- service.go (`startOutboxWorker`). The mutex makes each method one step; the clock, the random
-- event id and the publisher's answers are arguments.
pub mod Delivery
pub mod Retention
pub mod Worker
use hybrid_quantum_banking_b.Base.{
  ℕ, suc, ◌+◌, ◌-◌, String, str_eq, Bool, true, false, not, ◌&&◌, List, [], ◌∷◌, ◌++◌, ltb, leb,
  ◌==◌, if◌then◌else◌,
}

-- `OutboxEvent`
pub record OutboxEvent : Type 0 where
  pub id : String
  pub topic : String
  pub payload : String
  pub created_at : ℕ
  pub retries : ℕ
  pub processed : Bool

-- `Enqueue`
unfoldable pub enqueue : String → ℕ → String → String → List OutboxEvent → List OutboxEvent
enqueue id now topic payload events =
    events
    ++ record {
      id = id;
      topic = topic;
      payload = payload;
      created_at = now;
      retries = 0;
      processed = false;
    }
      ∷ []

-- `Dequeue`: the loop goes on to the end of the list, and takes nothing once `limit` is reached.
unfoldable pub dequeue : ℕ → List OutboxEvent → List OutboxEvent
dequeue limit [] = []
dequeue limit (e ∷ es) =
    let skip = dequeue limit es in
    let keep = dequeue (limit - 1) es in if not e.processed && ltb 0 limit then e ∷ keep else skip

-- The first event of that id is changed by `f`.
update_first : (OutboxEvent → OutboxEvent) → String → List OutboxEvent → List OutboxEvent
update_first f id [] = []
update_first f id (e ∷ es) =
    let rest = update_first f id es in if str_eq e.id id then f e ∷ es else e ∷ rest

abbrev pub set_processed : OutboxEvent → OutboxEvent
set_processed e = record e { processed = true }

-- One more failure; the third moves the event to the dead letters.
abbrev pub count_failure : OutboxEvent → OutboxEvent
count_failure e =
    let r = record e { retries = e.retries + 1 } in
    if leb 3 r.retries then record r { processed = true } else r

-- `MarkProcessed`
unfoldable pub mark_processed : String → List OutboxEvent → List OutboxEvent
unfolding update_first
mark_processed = update_first set_processed

-- `MarkFailed`
unfoldable pub mark_failed : String → List OutboxEvent → List OutboxEvent
unfolding update_first
mark_failed = update_first count_failure

-- `PendingCount`
unfoldable pub pending_count : List OutboxEvent → ℕ
pending_count [] = 0
pending_count (e ∷ es) = if not e.processed then suc (pending_count es) else pending_count es

-- `Purge`: an event goes if it is processed and was created before `now - retention`.
unfoldable pub purge : ℕ → ℕ → List OutboxEvent → List OutboxEvent
purge retention now [] = []
purge retention now (e ∷ es) =
    let rest = purge retention now es in
    if e.processed && ltb (e.created_at + retention) now then rest else e ∷ rest

-- The inner loop of the worker over the events that it dequeued; `publish` answers whether the
-- downstream took the event.
deliver : (OutboxEvent → Bool) → List OutboxEvent → List OutboxEvent → List OutboxEvent
unfolding mark_processed mark_failed
deliver publish [] events = events
deliver publish (e ∷ es) events =
    deliver publish es (if publish e then mark_processed e.id events else mark_failed e.id events)

-- One tick of `startOutboxWorker`: at most 50 events, then the purge of what is 6 hours old.
unfoldable pub worker_tick : (OutboxEvent → Bool) → ℕ → List OutboxEvent → List OutboxEvent
unfolding deliver purge dequeue
worker_tick publish now events =
    purge 21600000000000 now (deliver publish (dequeue 50 events) events)
