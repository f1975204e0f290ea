-- ===== src/Payments/Event.antt =====
-- `_handlePaymentSucceeded`, `_handlePaymentFailed` and `_handlePaymentRequiresAction` of
-- server/src/services/payments/eventProcessor.js.
use terravoy_backend.Prelude.{
  ℕ, ◌+◌, Bool, true, false, ◌&&◌, ◌||◌, ◌==◌, Option, none, some, ◌∷◌, if◌then◌else◌, find,
  is_some, first_some,
}
use terravoy_backend.Store.Rows.{
  Order, Intent, Payment, Provider, TxnStatus, requires_action, processing, succeeded, failed, paid,
  system_party, payment_webhook_confirmed, Event, WebhookRow, provider_eq,
}
use terravoy_backend.Store.Table.{by_key, update}
use terravoy_backend.Store.Db.{
  Db, M, exception, value, pure, throw, gets, modify_db, transaction, ◌>>=◌, ◌>>◌,
}
use terravoy_backend.Orders.View.{
  order_id, set_order, insert_log, is_pending_payment, status_once_paid,
}

abbrev pub intent_id : Intent → ℕ
intent_id i = i.id

abbrev pub event_row_id : WebhookRow → ℕ
event_row_id e = e.id

-- SQL's `a = b` on columns that may be null.
abbrev pub sql_eq : Option ℕ → Option ℕ → Bool
sql_eq (some a) (some b) = a == b
sql_eq _ _ = false

abbrev pub is_processing : TxnStatus → Bool
is_processing processing = true
is_processing _ = false

-- `throw new Error(…)` unless the query found something.
abbrev pub or_throw : {A : Type 0} → Option A → M A
or_throw none = throw exception
or_throw (some a) = pure a

abbrev pair_with : Intent → Option Order → Option (Intent × Order)
pair_with i none = none
pair_with i (some o) = some (i, o)

-- `payment_intents pi JOIN orders o ON o.id = pi.order_id WHERE …`, the newest row. `order_id` of an
-- intent is a foreign key, so the join drops no row.
abbrev pub joined : (Intent → Bool) → Db → Option (Intent × Order)
joined p db = elim (find p db.intents) [
  | none ↦ none
  | some i ↦ pair_with i (by_key order_id i.order_id db.orders)
]

abbrev pub names_intent : Event → Intent → Bool
names_intent e i = sql_eq i.provider_intent_id e.payload.provider_intent_id

abbrev pub in_process : Event → Intent → Bool
in_process e i = provider_eq i.provider e.provider && is_processing i.status

-- The intent that the provider names, or else its newest one that is still processing. The query for
-- the first has no order: of several intents with that name PostgreSQL takes any, the model the
-- newest.
unfoldable pub intent_to_settle : Event → Db → Option (Intent × Order)
intent_to_settle e db = first_some (joined (names_intent e) db) (joined (in_process e) db)

-- The one query of the other two handlers: whichever of the two is newer.
unfoldable pub intent_named_or_in_process : Event → Db → Option (Intent × Order)
intent_named_or_in_process e = joined (λ i. names_intent e i || in_process e i)

abbrev pub set_intent : ℕ → (ℕ → Intent → Intent) → M (Unit {0})
set_intent id f =
    modify_db (λ db. record db { intents = update intent_id id (f db.now) db.intents })

abbrev pub set_event : ℕ → (WebhookRow → WebhookRow) → M (Unit {0})
set_event id f = modify_db (λ db. record db { events = update event_row_id id f db.events })

abbrev pub same_txn : Provider → Option ℕ → Payment → Bool
same_txn provider txn p = provider_eq p.provider provider && sql_eq p.provider_txn_id txn

-- The row, unless `(provider, provider_txn_id)` is there already: `ON CONFLICT … DO NOTHING`.
insert_unless : Bool → Payment → M (Option ℕ)
insert_unless true p db = (db, value none)
insert_unless false p db = (
  record db { payments = p ∷ db.payments; next_payment = db.next_payment + 1 },
  value (some p.id),
)

-- `amount` and `currency` are NOT NULL. The result is `payments[0]?.id`.
unfoldable pub insert_payment : (order_id intent_id : ℕ) → Event → M (Option ℕ)
unfolding insert_unless
insert_payment order_id intent_id e = do
  amount ← or_throw e.payload.amount
  currency ← or_throw e.payload.currency
  id ← gets (λ db. db.next_payment)
  taken ← gets (λ db. is_some (find (same_txn e.provider e.payload.provider_txn_id) db.payments))
  insert_unless taken (record {
    id = id;
    order_id = order_id;
    intent_id = some intent_id;
    provider = e.provider;
    provider_txn_id = e.payload.provider_txn_id;
    status = succeeded;
    amount = amount;
    currency = currency;
  })

-- The statements between BEGIN and COMMIT, for the intent and the order that were found.
unfoldable pub settle : Event → ℕ → Intent × Order → M (Unit {0})
unfolding insert_payment
settle e webhook_event (intent, order) = do
  set_intent intent.id
      λ now i. record i { status = succeeded; confirmed_at = some now; updated_at = now }
  payment ← insert_payment order.id intent.id e
  set_order order.id λ now o. record o {
    payment_status = paid;
    status = status_once_paid order.status;
    paid_at = some now;
    payment_intent_id = some intent.id;
    payment_provider = some e.provider;
    last_payment_attempt_status = some succeeded;
    last_payment_attempt_at = some now;
  }
  if is_pending_payment order.status
      then insert_log (record {
        order_id = order.id;
        from_status = some order.status;
        to_status = status_once_paid order.status;
        actor_id = none;
        actor_role = system_party;
        reason = some payment_webhook_confirmed;
      })
      else pure tt
  set_event webhook_event
      λ r. record r { order_id = some order.id; intent_id = some intent.id; payment_id = payment }

unfoldable pub handle_payment_succeeded : Event → ℕ → M (Unit {0})
unfolding settle
handle_payment_succeeded e webhook_event =
    transaction do hit ← λ db. or_throw (intent_to_settle e db) db; settle e webhook_event hit

unfoldable pub handle_payment_failed : Event → ℕ → M (Unit {0})
handle_payment_failed e webhook_event = transaction do
  hit ← λ db. or_throw (intent_named_or_in_process e db) db
  let intent = hit.0
  set_intent intent.id λ now i. record i {
    status = failed;
    last_error = first_some e.payload.error_message e.payload.error_code;
    updated_at = now;
  }
  set_order intent.order_id λ now o. record o {
    last_payment_attempt_status = some failed;
    last_payment_attempt_at = some now;
  }
  modify_db λ db. record db {
    attempts =
        record {
          order_id = intent.order_id;
          intent_id = intent.id;
          provider = e.provider;
          status = failed;
          amount = intent.amount;
          currency = intent.currency;
          idempotency_key = none;
          error_code = e.payload.error_code;
          error_message = e.payload.error_message;
          actor_id = none;
          actor_role = none;
        }
        ∷ db.attempts;
  }
  set_event webhook_event
      λ r. record r { order_id = some intent.order_id; intent_id = some intent.id }

-- No transaction, and no exception where no intent is found; the two statements are taken to succeed.
abbrev ask_for_action : Option Intent → M (Unit {0})
ask_for_action none = pure tt
ask_for_action (some i) = do
  set_intent i.id λ now r. record r { status = requires_action; updated_at = now }
  set_order i.order_id λ now o. record o { last_payment_attempt_status = some requires_action }

unfoldable pub handle_payment_requires_action : Event → M (Unit {0})
handle_payment_requires_action e = do
  hit ← gets (λ db. find (λ i. names_intent e i || in_process e i) db.intents)
  ask_for_action hit
