-- ===== src/Transfers/Recording.antt =====
-- Ids, the audit trail, ledger events and notifications of a call (service.go, `nextID`,
-- `appendAuditLocked`, `PushNotification`).
use hybrid_quantum_banking_b.Base.{ℕ, zero, suc, String, List, [], ◌∷◌, ◌++◌, Option}
use hybrid_quantum_banking_b.Base.Int64.{add64}
use hybrid_quantum_banking_b.Base.Maps.{put}
use hybrid_quantum_banking_b.Blockchain.Events.{default_rules}
use hybrid_quantum_banking_b.Blockchain.Writes.{write_event}
use hybrid_quantum_banking_b.Transfers.State.{Env, Service, AuditEvent, Notification, Transaction}

-- The first 100 items.
unfoldable pub take_items {ℓ} : {A : Type ℓ} → ℕ → List A → List A
take_items zero xs = []
take_items (suc n) [] = []
take_items (suc n) (x ∷ xs) = x ∷ take_items n xs

module _ (env : Env) where
  -- `nextID`: the counter is a uint64.
  unfoldable pub next_id : String → Service env → Service env × String
  next_id prefix s = let n = add64 s.counter 1 in (record s { counter = n }, env.format_id prefix n)

  -- `s.ledger.WriteEvent`, whose outcome the callers drop.
  unfoldable pub log_event :
      ℕ → String → String → String → Option String → Service env → Service env
  log_event now user action resource payload s = record s {
    chain =
        (write_event env.host default_rules env.fabric now user action resource payload s.chain).0;
  }

  -- `appendAuditLocked`
  unfoldable pub append_audit :
      ℕ → String → String → String → String → String → Service env → Service env
  unfolding next_id log_event
  append_audit now user event_type resource outcome triggered_by s0 =
      let (s, id) = next_id "audit" s0 in
      let item : AuditEvent = record {
        id = id;
        timestamp = now;
        user_id = user;
        event_type = event_type;
        triggered_by = triggered_by;
        outcome = outcome;
      } in
      log_event now user event_type resource (env.audit_json item)
        (record s { audit = s.audit ++ item ∷ [] })

  -- `PushNotification`
  unfoldable pub push_notification : ℕ → String → String → String → Service env → Service env
  unfolding next_id take_items
  push_notification now user category title s0 =
      let (s, id) = next_id "notif" s0 in
      let item : Notification = record {
        id = id;
        category = category;
        title = title;
        created_at = now;
      } in
      record s {
        notifications = put s.notifications user (take_items 100 (item ∷ s.notifications user));
      }

  -- `s.transactions[userID] = append(…)`
  unfoldable pub append_transaction : String → Transaction (env.fl) → Service env → Service env
  append_transaction user txn s = record s {
    transactions = put s.transactions user (s.transactions user ++ txn ∷ []);
  }
