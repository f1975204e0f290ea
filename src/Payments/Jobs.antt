-- ===== src/Payments/Jobs.antt =====
-- server/src/jobs/payments.js: replay, reconciliation and the expiry of intents.
use terravoy_backend.Prelude.{
  ℕ, ◌+◌, ◌*◌, Bool, true, false, not, ◌&&◌, Option, none, some, List, [], ◌∷◌, if◌then◌else◌, find,
  ltb, leb, take, reverse, select,
}
use terravoy_backend.Store.Rows.{
  Order, Intent, Payment, Attempt, TxnStatus, failed, requires_confirmation, processing,
  requires_action, Event, payment_succeeded, reconcile_payment, event_processed, event_failed,
  WebhookRow, other_role,
}
use terravoy_backend.Store.Table.{by_key}
use terravoy_backend.Store.Db.{Db, M, pure, gets, modify_db, ◌>>=◌, ◌>>◌}
use terravoy_backend.Orders.View.{order_id, set_order, is_paid}
use terravoy_backend.Payments.Event.{set_intent, set_event, sql_eq}
use terravoy_backend.Payments.Process.{process_event}
use terravoy_backend.Payments.Webhook.{
  Stored, is_new, is_duplicate, store_event, same_event, mark_processed, attempt,
  retry_failed_events,
}
use terravoy_backend.Payments.Confirm.{is_succeeded}

abbrev pub default_limit : ℕ
default_limit = 100

-- `replayFailedWebhooks` with its defaults.
unfoldable pub replay_failed_webhooks : M (ℕ × ℕ)
replay_failed_webhooks = retry_failed_events 3 default_limit

-- The order of a row, for a join.
abbrev order_unpaid : Option Order → Bool
order_unpaid none = false
order_unpaid (some o) = not (is_paid o.payment_status)

abbrev pub needs_reconciling : Db → Payment → Bool
needs_reconciling db p =
    is_succeeded p.status && order_unpaid (by_key order_id p.order_id db.orders)

-- `LEFT JOIN payment_intents pi ON pi.id = p.intent_id`: its `provider_intent_id`.
abbrev provider_intent_of : Db → Payment → Option ℕ
provider_intent_of db p = elim (find (λ (i : Intent). sql_eq (some i.id) p.intent_id) db.intents) [
  | none ↦ none
  | some i ↦ i.provider_intent_id
]

abbrev pub create_reconcile_event : Payment × Option ℕ → Event
create_reconcile_event (p, provider_intent) = record {
  event_id = reconcile_payment p.id;
  type = payment_succeeded;
  provider = p.provider;
  payload = record {
    provider_intent_id = provider_intent;
    provider_txn_id = p.provider_txn_id;
    provider_refund_id = none;
    amount = some p.amount;
    currency = some p.currency;
    error_code = none;
    error_message = none;
  };
}

-- The rows of the query, oldest first, each with its joined column.
abbrev with_intents : Db → List Payment → List (Payment × Option ℕ)
with_intents db [] = []
with_intents db (p ∷ ps) = (p, provider_intent_of db p) ∷ with_intents db ps

abbrev pub to_reconcile : (limit : ℕ) → Db → List (Payment × Option ℕ)
to_reconcile limit db =
    with_intents db (take limit (reverse (select (needs_reconciling db) db.payments)))

-- What `storeWebhookEvent` finds under the event's id: the row to process, or a processed one.
abbrev row_to_process : Option WebhookRow → Option ℕ
row_to_process none = none
row_to_process (some r) = elim r.status [ event_processed ↦ none | _ ↦ some r.id ]

abbrev row_of : Event → Stored → Db → Option ℕ
row_of e (is_new row) db = some row
row_of e is_duplicate db = row_to_process (find (same_event e.provider e.event_id) db.events)

-- `SET payment_id = $2 WHERE id = $1 AND payment_id IS NULL`
abbrev keep_or : Option ℕ → ℕ → Option ℕ
keep_or none p = some p
keep_or (some q) p = some q

abbrev name_payment : ℕ → ℕ → M (Unit {0})
name_payment row payment = set_event row λ r. record r { payment_id = keep_or r.payment_id payment }

abbrev pub after_reconcile : Bool → (row payment : ℕ) → ℕ × ℕ → M (ℕ × ℕ)
after_reconcile false row payment (done, refused) =
    mark_processed row event_processed >> name_payment row payment >> pure (done + 1, refused)
after_reconcile true row payment (done, refused) =
    mark_processed row event_failed >> pure (done, refused + 1)

abbrev pub reconcile_row : Event → (payment : ℕ) → Option ℕ → ℕ × ℕ → M (ℕ × ℕ)
reconcile_row e payment none counts = pure counts
reconcile_row e payment (some row) counts = do
  threw ← attempt (process_event e row)
  after_reconcile threw row payment counts

unfoldable pub reconcile_payment_row : Payment × Option ℕ → ℕ × ℕ → M (ℕ × ℕ)
unfolding store_event
reconcile_payment_row p counts = do
  let e = create_reconcile_event p
  stored ← store_event e.provider e
  row ← gets (row_of e stored)
  reconcile_row e (p.0).id row counts

unfoldable pub reconcile_rows : List (Payment × Option ℕ) → ℕ × ℕ → M (ℕ × ℕ)
reconcile_rows [] counts = pure counts
reconcile_rows (p ∷ ps) counts = reconcile_payment_row p counts >>= reconcile_rows ps

unfoldable pub reconcile_succeeded_payments : (limit : ℕ) → M (ℕ × ℕ)
unfolding reconcile_rows reconcile_payment_row
reconcile_succeeded_payments limit = do rows ← gets (to_reconcile limit); reconcile_rows rows (0, 0)

abbrev pub may_expire : TxnStatus → Bool
may_expire requires_confirmation = true
may_expire processing = true
may_expire requires_action = true
may_expire _ = false

-- `updated_at < now() - cutoff` on an order that is not paid; the difference is never negative on
-- a clock that starts before the first row.
abbrev pub is_expired : (cutoff_minutes : ℕ) → Db → Intent → Bool
is_expired cutoff db i =
    may_expire i.status
    && ltb (i.updated_at + cutoff * 60000) db.now
    && order_unpaid (by_key order_id i.order_id db.orders)

-- `ORDER BY pi.updated_at ASC`
insert_by_update : Intent → List Intent → List Intent
insert_by_update i [] = i ∷ []
insert_by_update i (j ∷ js) =
    let rest = insert_by_update i js in
    if leb i.updated_at j.updated_at then i ∷ j ∷ js else j ∷ rest

sort_by_update : List Intent → List Intent
unfolding insert_by_update
sort_by_update [] = []
sort_by_update (i ∷ is) = insert_by_update i (sort_by_update is)

abbrev pub record_attempt : Attempt → M (Unit {0})
record_attempt a = modify_db (λ db. record db { attempts = a ∷ db.attempts })

abbrev pub fail_attempt : (order : ℕ) → M (Unit {0})
fail_attempt order = set_order order λ now o. record o {
  last_payment_attempt_status = some failed;
  last_payment_attempt_at = some now;
}

-- `INTENT_EXPIRED` and `Intent expired` are the numbers 4 and 5.
unfoldable pub expire_intent : Intent → M (Unit {0})
expire_intent intent = do
  set_intent intent.id λ now i. record i { status = failed; last_error = some 4; updated_at = now }
  record_attempt (record {
    order_id = intent.order_id;
    intent_id = intent.id;
    provider = intent.provider;
    status = failed;
    amount = intent.amount;
    currency = intent.currency;
    idempotency_key = none;
    error_code = some 4;
    error_message = some 5;
    actor_id = none;
    actor_role = some other_role;
  })
  fail_attempt intent.order_id

unfoldable pub expire_intents : List Intent → ℕ → M ℕ
expire_intents [] cleaned = pure cleaned
expire_intents (i ∷ is) cleaned = expire_intent i >> expire_intents is (cleaned + 1)

unfoldable pub cleanup_expired_intents : (cutoff_minutes limit : ℕ) → M ℕ
unfolding expire_intents expire_intent sort_by_update
cleanup_expired_intents cutoff limit = do
  rows ← gets (λ db. take limit (sort_by_update (select (is_expired cutoff db) db.intents)))
  expire_intents rows 0
