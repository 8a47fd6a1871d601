-- ===== src/Outbox/Worker.antt =====
-- What a tick of the outbox worker does with each event (infrastructure.go, `Dequeue`,
-- `MarkProcessed`, `MarkFailed`, `Purge`; service.go, `startOutboxWorker`).
use hybrid_quantum_banking_b.Base.{
  ℕ, ◌-◌, ◌≡◌, ◌≢◌, refl, ap, String, eq_refl, Bool, true, sym, ◌∙◌, List, [], ◌∷◌, arith, All,
  if◌then◌else◌, ltb, Bool-cases, inl, inr, not, ◌||◌, ◌+◌, select,
}
use hybrid_quantum_banking_b.Base.Maps.{str_eq_ne}
use hybrid_quantum_banking_b.Outbox.{
  OutboxEvent, dequeue, update_first, set_processed, count_failure, mark_processed, mark_failed,
  purge, deliver, worker_tick,
}

-- No event of the list has the id.
abbrev pub Fresh : String → List OutboxEvent → Type 0
Fresh id = All (λ e. e.id ≢ id)

-- No two events share an id.
abbrev pub Distinct : List OutboxEvent → Type 0
Distinct [] = Unit
Distinct (e ∷ es) = Fresh e.id es × Distinct es

Fresh-dequeue :
    (id : String) (limit : ℕ) (es : List OutboxEvent) → Fresh id es → Fresh id (dequeue limit es)
unfolding dequeue
Fresh-dequeue id limit [] h = tt
Fresh-dequeue id limit (e ∷ es) h =
    ground (arith, Fresh-dequeue id limit es h.1, Fresh-dequeue id (limit - 1) es h.1)

-- What becomes of an event that was offered to the publisher: a taken one is done; one more failure
-- is counted for another, which is done with as a dead letter from the third on.
abbrev pub answered : (OutboxEvent → Bool) → OutboxEvent → OutboxEvent
answered publish e =
    if publish e
    then record e { processed = true }
    else if ltb (e.retries + 1) 3
    then record e { retries = e.retries + 1 }
    else record e { retries = e.retries + 1; processed = true }

-- What a purge at `now` leaves: what is not processed, or was made in the last 6 hours.
abbrev pub lasts : ℕ → OutboxEvent → Bool
lasts now e = not e.processed || not (ltb (e.created_at + 21600000000000) now)

-- The queue after a round, event by event: the first `limit` events that wait are answered, and
-- every other event stays as it is.
abbrev pub handled : (OutboxEvent → Bool) → ℕ → List OutboxEvent → List OutboxEvent
handled publish limit [] = []
handled publish limit (e ∷ es) =
    if e.processed
    then e ∷ handled publish limit es
    else if ltb 0 limit
    then answered publish e ∷ handled publish (limit - 1) es
    else e ∷ handled publish limit es

module _ (publish : OutboxEvent → Bool) where
  deliver-skip :
      (x : OutboxEvent) (batch es : List OutboxEvent)
      → Fresh x.id batch
      → deliver publish batch (x ∷ es) ≡ x ∷ deliver publish batch es
  unfolding deliver mark_processed mark_failed update_first
  deliver-skip x [] es h = refl
  deliver-skip x (e ∷ batch) es h =
      let n = str_eq_ne x.id e.id (λ p. h.0 (sym p)) in
      elim (Bool-cases (publish e)) [
        | inl p ↦ rw (p, n) (deliver-skip x batch (mark_processed e.id es) h.1)
        | inr p ↦ rw (p, n) (deliver-skip x batch (mark_failed e.id es) h.1)
      ]

  deliver-take :
      (x : OutboxEvent) (batch es : List OutboxEvent)
      → Fresh x.id batch
      → deliver publish (x ∷ batch) (x ∷ es) ≡ answered publish x ∷ deliver publish batch es
  unfolding deliver mark_processed mark_failed update_first
  deliver-take x batch es h = elim (Bool-cases (publish x)) [
    | inl p ↦ rw (p, eq_refl x.id) (deliver-skip (set_processed x) batch es h)
    | inr p ↦
        let failed = deliver-skip (count_failure x) batch es (ground (arith, h)) in
        ground (arith, p, eq_refl x.id, failed)
  ]

  deliver-handles :
      (limit : ℕ) (es : List OutboxEvent)
      → Distinct es
      → deliver publish (dequeue limit es) es ≡ handled publish limit es
  unfolding dequeue
  deliver-handles limit [] h = unfold deliver in refl
  deliver-handles limit (e ∷ es) h = ground (
    arith,
    deliver-skip e (dequeue limit es) es (Fresh-dequeue e.id limit es h.0),
    deliver-take e (dequeue (limit - 1) es) es (Fresh-dequeue e.id (limit - 1) es h.0),
    deliver-handles limit es h.1,
    deliver-handles (limit - 1) es h.1,
  )

  purge_lem :
      (now : ℕ) (es : List OutboxEvent) → purge 21600000000000 now es ≡ select (lasts now) es
  unfolding purge
  purge_lem now [] = refl
  purge_lem now (e ∷ es) = ground (arith, purge_lem now es)

  -- Whatever the publisher answers, where no two events share an id: a tick of the worker marks each
  -- of the first 50 waiting events processed if the publisher took it, and else counts a failure of
  -- it, of which the third moves it to the dead letters; it changes no other event, and then drops
  -- what is processed and was made more than 6 hours before.
  pub worker_tick_handles :
      (now : ℕ) (es : List OutboxEvent)
      → Distinct es
      → worker_tick publish now es ≡ select (lasts now) (handled publish 50 es)
  unfolding worker_tick
  worker_tick_handles now es h =
      ap (purge 21600000000000 now) (deliver-handles 50 es h)
      ∙ purge_lem now (handled publish 50 es)
