-- ===== src/Payments/Intents.antt =====
-- `handleCreateIntent` and `processSyncEvent` of server/src/routes/payments.js.
use terravoy_backend.Prelude.{
  ℕ, ◌+◌, Bool, true, false, not, ◌&&◌, ◌||◌, ◌==◌, Option, none, some, ◌∷◌, if◌then◌else◌, find,
  is_some,
}
use terravoy_backend.Store.Rows.{
  Intent, TxnStatus, created, requires_confirmation, Provider, Event, Order, event_processed,
  event_failed,
}
use terravoy_backend.Store.Db.{
  Db, M, Outcome, value, Reply, ok, error, intent_data, invalid_input, invalid_status_transition,
  price_mismatch, forbidden, pure, gets, reply_if, or_reply, ◌>>=◌, ◌>>◌,
}
use terravoy_backend.Auth.Authorize.{Actor, no_resource, payments_create, authorize}
use terravoy_backend.Auth.Profile.{ensure_profile}
use terravoy_backend.Orders.View.{find_order, set_order, is_unpaid, is_closed}
use terravoy_backend.Payments.Event.{or_throw, sql_eq}
use terravoy_backend.Payments.Process.{process_event}
use terravoy_backend.Payments.Gateway.{
  Gateway, Settings, IntentCreated, from_answer, get_active_provider,
}
use terravoy_backend.Payments.Webhook.{
  Stored, is_new, is_duplicate, store_event, mark_processed, attempt,
}

abbrev pub finish_sync : Bool → ℕ → M (Unit {0})
finish_sync false row = mark_processed row event_processed
finish_sync true row = mark_processed row event_failed

abbrev pub process_new : Event → Stored → M (Unit {0})
process_new e is_duplicate = pure tt
process_new e (is_new row) = do threw ← attempt (process_event e row); finish_sync threw row

-- An event that the server makes itself; an exception in it is only recorded.
unfoldable pub process_sync_event : Event → M (Unit {0})
unfolding store_event
process_sync_event e = do stored ← store_event e.provider e; process_new e stored

-- `status in ('requires_confirmation', 'created')`
abbrev pub is_active : TxnStatus → Bool
is_active requires_confirmation = true
is_active created = true
is_active _ = false

abbrev pub active_for : ℕ → Intent → Bool
active_for order_id i = i.order_id == order_id && is_active i.status

abbrev pub active_intent : ℕ → Db → Option Intent
active_intent order_id db = find (active_for order_id) db.intents

-- `!value`: a missing amount and 0. Amounts come as cents, or as `none` where `normalizeAmount`
-- finds no finite number.
abbrev pub truthy : Option ℕ → Option ℕ
truthy none = none
truthy (some n) = if n == 0 then none else some n

pub record IntentBody : Type 0 where
  pub order_id : Option ℕ
  pub amount : Option ℕ
  pub currency : ℕ
  pub idempotency_key : Option ℕ

abbrev pub intent_reply : Intent → ℕ → Reply
intent_reply i status =
    ok (intent_data i.id i.provider_intent_id i.status i.amount i.currency i.client_secret) status

-- The two unique indexes on `payment_intents`: one active intent for an order, and one intent for
-- an order and a key.
abbrev pub violates : Intent → Db → Bool
violates row db =
    is_active row.status && is_some (active_intent row.order_id db)
    || is_some (
        find
          (λ (i : Intent).
            i.order_id == row.order_id && sql_eq i.idempotency_key row.idempotency_key)
          db.intents)

-- The row, or on code 23505 the active intent of the order; without one `intent.id` throws.
insert_or_existing : Bool → Intent → Db → Db × Outcome Intent
insert_or_existing true row db = or_throw (active_intent row.order_id db) db
insert_or_existing false row db =
    (record db { intents = row ∷ db.intents; next_intent = db.next_intent + 1 }, value row)

abbrev pub new_intent :
    (id : ℕ) → Order → Provider → (amount now : ℕ) → IntentBody → IntentCreated → Intent
new_intent id order provider amount now body made = record {
  id = id;
  order_id = order.id;
  provider = provider;
  provider_intent_id = made.provider_intent_id;
  amount = amount;
  currency = body.currency;
  status = made.status;
  idempotency_key = body.idempotency_key;
  client_secret = made.client_secret;
  last_error = none;
  confirmed_at = none;
  updated_at = now;
}

-- The insert with its fallback.
unfoldable pub insert_intent :
    Order → Provider → (amount : ℕ) → IntentBody → IntentCreated → M Intent
unfolding insert_or_existing
insert_intent order provider amount body made db =
    let row = new_intent db.next_intent order provider amount db.now body made in
    insert_or_existing (violates row db) row db

-- No active intent: the provider is asked, and the order gets the intent that is then there.
unfoldable pub open_intent :
    Gateway → Settings → Order → (amount : ℕ) → IntentBody → Option Intent → M Reply
open_intent g settings order amount body (some i) = pure (intent_reply i 200)
open_intent g settings order amount body none = do
  let provider = get_active_provider settings.provider
  made ← from_answer (g.create_intent provider amount body.currency body.idempotency_key)
  intent ← insert_intent order provider amount body made
  set_order order.id λ now o. record o { payment_intent_id = some intent.id }
  pure (intent_reply intent 201)

-- The guards on the order; `total_amount` is NOT NULL, so its normalized value is there.
unfoldable pub handle_create_intent : Gateway → Settings → Actor → IntentBody → M Reply
unfolding open_intent
handle_create_intent g settings actor body = do
  id ← or_reply (truthy body.order_id) (error invalid_input 400)
  amount ← or_reply (truthy body.amount) (error invalid_input 400)
  me ← ensure_profile actor.user_id
  order ← find_order id
  authorize actor.role me payments_create
      (record no_resource { traveler_id = some order.traveler_id })
  reply_if (not (order.traveler_id == me)) (error forbidden 403)
  reply_if (not (is_unpaid order.payment_status)) (error invalid_status_transition 400)
  reply_if (is_closed order.status) (error invalid_status_transition 400)
  reply_if (not (order.total_amount == amount)) (error price_mismatch 409)
  existing ← gets (active_intent id)
  open_intent g settings order amount body existing
