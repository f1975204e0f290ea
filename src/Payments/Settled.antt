-- ===== src/Payments/Settled.antt =====
-- What a payment that succeeds does, seen from the orders.
use terravoy_backend.Prelude.{ℕ, ◌≡◌, refl, ap, some, ◌==◌, if◌then◌else◌, arith, ==_iff}
use terravoy_backend.Store.Rows.{
  Event, Intent, Order, OrderStatus, pending_payment, pending_host_confirm, paid, succeeded,
}
use terravoy_backend.Store.Table.{by_key, update, by_key-update}
use terravoy_backend.Store.Db.{Db, value}
use terravoy_backend.Orders.View.{order_id, status_once_paid}
use terravoy_backend.Payments.Event.{handle_payment_succeeded, intent_to_settle, intent_id}
use terravoy_backend.Payments.Handled.{found_under_own_id, settled_found}

-- The status of an order after its payment.
abbrev pub settled_status : OrderStatus → OrderStatus
settled_status pending_payment = pending_host_confirm
settled_status s = s

-- The order that a payment settles.
abbrev pub settled_order : Event → Intent → (now : ℕ) → Order → Order
settled_order e i now o = record o {
  payment_status = paid;
  status = settled_status o.status;
  paid_at = some now;
  payment_intent_id = some i.id;
  payment_provider = some e.provider;
  last_payment_attempt_status = some succeeded;
  last_payment_attempt_at = some now;
}

-- The update that the code makes, with the status of the order that the query joined.
abbrev settled_from : Event → Intent → (now : ℕ) → Order → Order → Order
settled_from e i now seen o = record o {
  payment_status = paid;
  status = status_once_paid seen.status;
  paid_at = some now;
  payment_intent_id = some i.id;
  payment_provider = some e.provider;
  last_payment_attempt_status = some succeeded;
  last_payment_attempt_at = some now;
}

status_agrees : (s : OrderStatus) → status_once_paid s ≡ settled_status s
status_agrees s = ground arith

settled_agrees :
    (e : Event) (i : Intent) (now : ℕ) (o : Order)
    → settled_from e i now o o ≡ settled_order e i now o
settled_agrees e i now o =
    ap (λ s. record (settled_order e i now o) { status = s }) (status_agrees o.status)

module _ (e : Event) (w : ℕ) (db : Db) (i : Intent) (o : Order) (amount currency : ℕ)
    (hit : intent_to_settle e db ≡ some (i, o)) (a : e.payload.amount ≡ some amount)
    (c : e.payload.currency ≡ some currency) where
  settled_value : (handle_payment_succeeded e w db).1 ≡ value tt
  unfolding handle_payment_succeeded
  settled_value = ground arith

  settled_intents :
      ((handle_payment_succeeded e w db).0).intents
      ≡ update intent_id i.id
          (λ (r : Intent). record r {
            status = succeeded;
            confirmed_at = some db.now;
            updated_at = db.now;
          })
          db.intents
  unfolding handle_payment_succeeded
  settled_intents = ground arith

  settled_orders :
      ((handle_payment_succeeded e w db).0).orders
      ≡ update order_id o.id (settled_from e i db.now o) db.orders
  unfolding handle_payment_succeeded
  settled_orders = ground arith

  found_settled :
      (j : ℕ)
      → by_key order_id j ((handle_payment_succeeded e w db).0).orders
        ≡ (if o.id == j then some (settled_order e i db.now o) else by_key order_id j db.orders)
  found_settled j =
      let found = found_under_own_id i.order_id o db.orders (settled_found e db i o hit) in
      rw settled_orders (
        ground (
          arith,
          ==_iff o.id j,
          settled_agrees e i db.now o,
          by_key-update order_id o.id j (settled_from e i db.now o) db.orders (λ r. refl),
        ))

  -- A `payment.succeeded` event that finds an intent and its order, and has an amount and a
  -- currency, is processed without an exception: the intent becomes succeeded now; the order under
  -- the id of that order becomes paid now by that intent and provider, and moves to
  -- `pending_host_confirm` if it was `pending_payment` and otherwise keeps its status; what is
  -- found under any other order id is as before.
  pub succeeded_settles :
      (j : ℕ)
      → ((handle_payment_succeeded e w db).1 ≡ value tt)
        × (((handle_payment_succeeded e w db).0).intents
            ≡ update intent_id i.id
                (λ (r : Intent). record r {
                  status = succeeded;
                  confirmed_at = some db.now;
                  updated_at = db.now;
                })
                db.intents)
        × (by_key order_id j ((handle_payment_succeeded e w db).0).orders ≡ (
            if o.id == j then some (settled_order e i db.now o) else by_key order_id j db.orders))
  succeeded_settles j = (settled_value, settled_intents, found_settled j)
