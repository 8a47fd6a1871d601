-- ===== src/Examples/Ledgers.antt =====
-- Runs of the accounting book, the event chain, the outbox and the circuit breaker.
use hybrid_quantum_banking_b.Base.{
  ◌≡◌, refl, eq_iff, Bool, str_eq, select, true, false, none, some, List, [], ◌∷◌, arith,
}
use hybrid_quantum_banking_b.Base.Int64.{add64, sub64}
use hybrid_quantum_banking_b.AccountingLedger.{
  Entry, Draw, post_transaction, get_balance, verify_balance,
}
use hybrid_quantum_banking_b.AccountingLedger.Posting.{CanPost}
use hybrid_quantum_banking_b.AccountingLedger.Balance.{
  Reachable, empty_book, post, Reachable-verify_balance, get_balance-post,
}
use hybrid_quantum_banking_b.Blockchain.Events.{Host, Event, default_rules}
use hybrid_quantum_banking_b.Blockchain.Writes.{write_event_strict, new_event}
use hybrid_quantum_banking_b.Blockchain.Checks.{intact, verify_integrity}
use hybrid_quantum_banking_b.Blockchain.Chain as Chain
use hybrid_quantum_banking_b.Blockchain.Chain.{recorded, Reachable-verify_integrity}
use hybrid_quantum_banking_b.Blockchain.Tampering.{NoCollision, SameDigests, head_hash_commits}
use hybrid_quantum_banking_b.CircuitBreaker.{Breaker, closed, open_}
use hybrid_quantum_banking_b.CircuitBreaker.States.{repeat, failures_open}
use hybrid_quantum_banking_b.Outbox.{OutboxEvent, worker_tick}
use hybrid_quantum_banking_b.Outbox.Worker.{Distinct, handled, lasts, worker_tick_handles}
use hybrid_quantum_banking_b.Examples.Setup.{demo_host}

abbrev draw : Draw
draw = record { now = 5; debit_id = "le1"; credit_id = "le2" }

abbrev one_post : List Entry
one_post = (post_transaction draw "t1" "acc1" "alice" "bob" "bob" 300 "rent" []).0

one_post-Reachable : Reachable one_post
one_post-Reachable = post draw "t1" "acc1" "alice" "bob" "bob" 300 "rent" empty_book

Reachable-verify_balance_example : (verify_balance one_post).2 ≡ true
Reachable-verify_balance_example = Reachable-verify_balance one_post-Reachable

can_post : CanPost "acc1" "bob" 300
can_post = record {
  positive = omega arith;
  fits = omega arith;
  debit_named = ground (arith, eq_iff "acc1" "");
  credit_named = ground (arith, eq_iff "bob" "");
  distinct = ground (arith, eq_iff "acc1" "bob");
}

get_balance-post_example :
    let es' = one_post in
    (get_balance "acc1" es' ≡ sub64 (get_balance "acc1" []) 300)
    × (get_balance "bob" es' ≡ add64 (get_balance "bob" []) 300)
    × (get_balance "acc2" es' ≡ get_balance "acc2" [])
get_balance-post_example =
    get_balance-post draw "t1" "acc1" "alice" "bob" "bob" 300 "rent" [] "acc2" can_post
      (ground (arith, eq_iff "acc2" "acc1")) (ground (arith, eq_iff "acc2" "bob"))

-- A hash of one character for every text.
abbrev flat_host : Host
flat_host = record demo_host { sha256_hex = λ _. "h" }

abbrev one_event : Host → List Event
one_event host =
    (write_event_strict host default_rules none 10 "alice" "transaction_initiated" "transaction"
      (some "p1") []).0

one_event-Reachable : (host : Host) → Chain.Reachable host (one_event host)
one_event-Reachable host =
    Chain.strict_write default_rules 10 "alice" "transaction_initiated" "transaction" "p1"
      Chain.genesis

Reachable-verify_integrity_example : verify_integrity demo_host (one_event demo_host) ≡ intact
Reachable-verify_integrity_example =
    Reachable-verify_integrity demo_host (one_event-Reachable demo_host)

one_event-NoCollision : NoCollision flat_host (one_event flat_host) (one_event flat_host)
unfolding write_event_strict
one_event-NoCollision = ((λ _. refl), tt)

head_hash_commits_example : SameDigests flat_host (one_event flat_host) (one_event flat_host)
head_hash_commits_example =
    head_hash_commits flat_host (one_event flat_host) (one_event flat_host) (λ a b. refl)
      one_event-NoCollision (Reachable-verify_integrity flat_host (one_event-Reachable flat_host))
      (Reachable-verify_integrity flat_host (one_event-Reachable flat_host)) refl refl

abbrev blocked_event : Event
blocked_event =
    record (new_event demo_host 10 "alice" "transaction_blocked" "transaction" "p0" []) { seq = 0 }

abbrev demo_breaker : Breaker
demo_breaker = record {
  state = closed;
  failure_count = 0;
  success_count = 0;
  failure_threshold = 3;
  success_threshold = 2;
  reset_timeout = 30;
  last_failure = 0;
  last_state_change = 0;
  half_open_count = 0;
}

failures_open_example :
    ((repeat true (λ n. n) 2 demo_breaker).state ≡ closed)
    × ((repeat true (λ n. n) 3 demo_breaker).state ≡ open_)
failures_open_example = failures_open (λ n. n) 2 demo_breaker refl refl refl (omega arith)

abbrev waiting_event : OutboxEvent
waiting_event = record {
  id = "ob1";
  topic = "risk.decision";
  payload = "p";
  created_at = 0;
  retries = 0;
  processed = false;
}

abbrev refused_event : OutboxEvent
refused_event = record waiting_event { id = "ob2"; retries = 2 }

-- The publisher takes the first event only.
abbrev takes_first : OutboxEvent → Bool
takes_first e = str_eq e.id "ob1"

batch-Distinct : Distinct (waiting_event ∷ refused_event ∷ [])
batch-Distinct = ((λ e. absurd (ground (arith, e, eq_iff "ob2" "ob1")), tt), (tt, tt))

worker_tick_handles_example :
    worker_tick takes_first 100 (waiting_event ∷ refused_event ∷ [])
    ≡ select (lasts 100) (handled takes_first 50 (waiting_event ∷ refused_event ∷ []))
worker_tick_handles_example =
    worker_tick_handles takes_first 100 (waiting_event ∷ refused_event ∷ []) batch-Distinct
