-- ===== src/Payments/Atomic.antt =====
-- Exceptions in eventProcessor.js, and what webhookHandler.js makes of them.
use terravoy_backend.Prelude.{
  ℕ, ◌≡◌, ◌+◌, refl, false, ◌||◌, ◌⊎◌, inl, inr, List, [], ◌∷◌, arith, find, none, some,
  Option-cases, ==_refl,
}
use terravoy_backend.Store.Rows.{
  Event, EventType, Intent, Order, Provider, WebhookRow, event_failed, payment_succeeded,
  payment_failed, payment_requires_action, refund_succeeded, refund_failed, unknown_type,
}
use terravoy_backend.Store.Table.{by_key, update}
use terravoy_backend.Store.Db.{Db, Error, Outcome, exception, value, returned, thrown}
use terravoy_backend.Payments.Event.{
  event_row_id, handle_payment_succeeded, handle_payment_failed, handle_payment_requires_action,
  in_process, intent_to_settle, names_intent,
}
use terravoy_backend.Payments.Refund.{
  handle_refund_succeeded, handle_refund_failed, refund_to_settle,
}
use terravoy_backend.Payments.Process.{process_event, handler_of}
use terravoy_backend.Payments.Webhook.{
  was_thrown, process_stored, mark_processed, received_row, is_new, refused, receive_event,
  store_event, same_event,
}

module _ (e : Event) (w : ℕ) (db : Db) (err : Error) where
  succeeded_atomic :
      (handle_payment_succeeded e w db).1 ≡ thrown err → (handle_payment_succeeded e w db).0 ≡ db
  unfolding handle_payment_succeeded
  succeeded_atomic h = ground arith

  failed_atomic :
      (handle_payment_failed e w db).1 ≡ thrown err → (handle_payment_failed e w db).0 ≡ db
  unfolding handle_payment_failed
  failed_atomic h = ground arith

  action_atomic :
      (handle_payment_requires_action e db).1 ≡ thrown err
      → (handle_payment_requires_action e db).0 ≡ db
  unfolding handle_payment_requires_action
  action_atomic h =
      elim (Option-cases (find (λ i. names_intent e i || in_process e i) db.intents)) [
        | inl n ↦ ground arith
        | inr (i, n) ↦ ground arith
      ]

  refund_succeeded_atomic :
      (handle_refund_succeeded e w db).1 ≡ thrown err → (handle_refund_succeeded e w db).0 ≡ db
  unfolding handle_refund_succeeded
  refund_succeeded_atomic h = ground arith

  refund_failed_atomic :
      (handle_refund_failed e db).1 ≡ thrown err → (handle_refund_failed e db).0 ≡ db
  unfolding handle_refund_failed
  refund_failed_atomic h = elim (Option-cases (refund_to_settle e db)) [
    | inl n ↦ ground arith
    | inr (r, n) ↦ ground arith
  ]

handler_atomic :
    (t : EventType) (e : Event) (w : ℕ) (db : Db) (err : Error)
    → (handler_of t e w db).1 ≡ thrown err
    → (handler_of t e w db).0 ≡ db
handler_atomic payment_succeeded e w db err h = succeeded_atomic e w db err h
handler_atomic payment_failed e w db err h = failed_atomic e w db err h
handler_atomic payment_requires_action e w db err h = action_atomic e w db err h
handler_atomic refund_succeeded e w db err h = refund_succeeded_atomic e w db err h
handler_atomic refund_failed e w db err h = refund_failed_atomic e w db err h
handler_atomic unknown_type e w db err h = cc

pub process_event_atomic :
    (e : Event) (w : ℕ) (db : Db) (err : Error)
    → (process_event e w db).1 ≡ thrown err
    → (process_event e w db).0 ≡ db
unfolding process_event
process_event_atomic e w db err h = handler_atomic e.type e w db err h

module _ (e : Event) (w : ℕ) (db : Db) (i : Intent) (o : Order)
    (hit : intent_to_settle e db ≡ some (i, o)) where
  incomplete_throws :
      (e.payload.amount ≡ none) ⊎ (e.payload.currency ≡ none)
      → (handle_payment_succeeded e w db).1 ≡ thrown exception
  unfolding handle_payment_succeeded
  incomplete_throws (inl a) = ground arith
  incomplete_throws (inr c) = elim (Option-cases e.payload.amount) [
    | inl a ↦ ground arith
    | inr (n, a) ↦ ground arith
  ]

  -- A `payment.succeeded` event that finds an intent and its order, but has no amount or no
  -- currency, throws, and the whole database is as it was before.
  pub incomplete_restored :
      e.type ≡ payment_succeeded
      → (e.payload.amount ≡ none) ⊎ (e.payload.currency ≡ none)
      → process_event e w db ≡ (db, thrown exception)
  unfolding process_event
  incomplete_restored t missing =
      let throws = incomplete_throws missing in
      rw t (ground (arith, throws, succeeded_atomic e w db exception throws))

pub Outcome-cases :
    {A : Type 0} (r : Outcome A) → ((err : Error) × (r ≡ thrown err)) ⊎ (was_thrown r ≡ false)
Outcome-cases (value a) = inr refl
Outcome-cases (returned a) = inr refl
Outcome-cases (thrown e) = inl (e, refl)

-- The row of a delivery that was refused.
abbrev pub refused_row : ℕ → Provider → Event → WebhookRow
refused_row id p e = record {
  id = id;
  provider = p;
  event_id = e.event_id;
  event_type = e.type;
  payload = e.payload;
  status = event_failed;
  retry_count = 0;
  order_id = none;
  intent_id = none;
  payment_id = none;
  refund_id = none;
}

-- An update under an id that no row has.
update_absent :
    (id : ℕ) (f : WebhookRow → WebhookRow) (rows : List WebhookRow)
    → by_key event_row_id id rows ≡ none
    → update event_row_id id f rows ≡ rows
update_absent id f [] h = refl
update_absent id f (r ∷ rows) h = ground (arith, update_absent id f rows)

-- The database after a refused delivery.
abbrev pub with_refused : Provider → Event → Db → Db
with_refused p e db = record db {
  events = refused_row db.next_event p e ∷ db.events;
  next_event = db.next_event + 1;
}

abbrev stored : Provider → Event → Db → Db
stored p e db = record db {
  events = received_row db.next_event p e ∷ db.events;
  next_event = db.next_event + 1;
}

marked_failed :
    (p : Provider) (e : Event) (db : Db)
    → by_key event_row_id db.next_event db.events ≡ none
    → (mark_processed db.next_event event_failed (stored p e db)).0 ≡ with_refused p e db
marked_failed p e db fresh = ground (
  arith,
  ==_refl db.next_event,
  update_absent db.next_event (λ (r : WebhookRow). record r { status = event_failed }) db.events
      fresh,
)

process_refused :
    (p : Provider) (e : Event) (db : Db)
    → by_key event_row_id db.next_event db.events ≡ none
    → (process_stored e (is_new db.next_event) (stored p e db)).1 ≡ value refused
    → (process_stored e (is_new db.next_event) (stored p e db)).0 ≡ with_refused p e db
process_refused p e db fresh h =
    elim (Outcome-cases (process_event e db.next_event (stored p e db)).1) [
      | inl (err, t) ↦ ground (
        arith,
        process_event_atomic e db.next_event (stored p e db) err t,
        marked_failed p e db fresh,
      )
      | inr n ↦ ground arith
    ]

-- A webhook event whose delivery is refused, where the next id of a webhook event is not taken,
-- leaves one new row behind, a failed one with the event and without any references; everything
-- else in the database (but the counter of these ids) is as before.
pub refused_webhook :
    (p : Provider) (e : Event) (db : Db)
    → by_key event_row_id db.next_event db.events ≡ none
    → (receive_event p e db).1 ≡ value refused
    → (receive_event p e db).0 ≡ with_refused p e db
unfolding receive_event store_event
refused_webhook p e db fresh h = elim (Option-cases (find (same_event p e.event_id) db.events)) [
  | inl n ↦ ground (arith, process_refused p e db fresh)
  | inr (r, n) ↦ ground arith
]
