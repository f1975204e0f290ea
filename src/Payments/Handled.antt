-- ===== src/Payments/Handled.antt =====
-- What the event processor does to the orders and their log, as steps of `Orders/Step.antt`.
use mathlib.Core.Path.{subst}
use terravoy_backend.Prelude.{
  sym, ℕ, ◌≡◌, ◌⊎◌, inl, inr, refl, Bool, true, false, none, some, List, arith, Option-cases,
  Bool-cases, ◌||◌, find-holds, ==_iff, ◌==◌, find,
}
use terravoy_backend.Store.Rows.{
  Order, Intent, Event, EventType, paid, succeeded, failed, requires_action, system_party,
  payment_webhook_confirmed, refunded, Refund, payment_succeeded, payment_failed,
  payment_requires_action, refund_succeeded, refund_failed, unknown_type,
}
use terravoy_backend.Store.Table.{by_key}
use terravoy_backend.Store.Db.{Db}
use terravoy_backend.Orders.View.{order_id, is_pending_payment, status_once_paid}
use terravoy_backend.Orders.Step.{
  Untouched, Moved, Touched, OrderStep, untouched, moved, touched, IsPaidUp,
}
use terravoy_backend.Orders.Handled.{edge_pay}
use terravoy_backend.Payments.Event.{
  joined, intent_to_settle, intent_named_or_in_process, handle_payment_succeeded,
  handle_payment_failed, handle_payment_requires_action, names_intent, in_process,
}
use terravoy_backend.Payments.Refund.{
  refund_to_settle, handle_refund_succeeded, handle_refund_failed, amount_or, taken_elsewhere,
}
use terravoy_backend.Payments.Process.{process_event, handler_of}

pub found_under_own_id :
    (k : ℕ) (o : Order) (orders : List Order)
    → by_key order_id k orders ≡ some o
    → by_key order_id o.id orders ≡ some o
found_under_own_id k o orders h =
    let same : o.id ≡ k = (==_iff o.id k).0 (find-holds (λ r. order_id r == k) orders o h) in
    subst (λ x. by_key order_id x orders ≡ some o) (sym same) h

joined_found :
    (p : Intent → Bool) (db : Db) (i : Intent) (o : Order)
    → joined p db ≡ some (i, o)
    → by_key order_id i.order_id db.orders ≡ some o
joined_found p db i o h = ground arith

pub settled_found :
    (e : Event) (db : Db) (i : Intent) (o : Order)
    → intent_to_settle e db ≡ some (i, o)
    → by_key order_id i.order_id db.orders ≡ some o
unfolding intent_to_settle
settled_found e db i o h =
    ground (arith, joined_found (names_intent e) db i o, joined_found (in_process e) db i o)

-- A payment of an order in another status than `pending_payment` leaves the status.
settled_again :
    (o o' : Order) (i : Intent) (e : Event) (db : Db)
    → by_key order_id o.id db.orders ≡ some o
    → by_key order_id o.id db.orders ≡ some o'
    → is_pending_payment o.status ≡ false
    → (status_once_paid o.status ≡ o'.status)
      × (IsPaidUp o'
          → IsPaidUp (record o' {
            payment_status = paid;
            status = status_once_paid o.status;
            paid_at = some db.now;
            payment_intent_id = some i.id;
            payment_provider = some e.provider;
            last_payment_attempt_status = some succeeded;
            last_payment_attempt_at = some db.now;
          }))
settled_again o o' i e db h f q = (ground arith, λ v. ground arith)

module _ (e : Event) (w : ℕ) (db : Db) where
  succeeded_missing :
      intent_to_settle e db ≡ none → Untouched db (handle_payment_succeeded e w db).0
  unfolding handle_payment_succeeded
  succeeded_missing h = ground arith

  succeeded_effect :
      (i : Intent) (o : Order)
      → intent_to_settle e db ≡ some (i, o)
      → Untouched db (handle_payment_succeeded e w db).0
        ⊎ ((is_pending_payment o.status ≡ true)
            × Moved o.id
                (λ r. record r {
                  payment_status = paid;
                  status = status_once_paid o.status;
                  paid_at = some db.now;
                  payment_intent_id = some i.id;
                  payment_provider = some e.provider;
                  last_payment_attempt_status = some succeeded;
                  last_payment_attempt_at = some db.now;
                })
                (record {
                  order_id = o.id;
                  from_status = some o.status;
                  to_status = status_once_paid o.status;
                  actor_id = none;
                  actor_role = system_party;
                  reason = some payment_webhook_confirmed;
                })
                db
                (handle_payment_succeeded e w db).0)
        ⊎ ((is_pending_payment o.status ≡ false)
            × Touched o.id
                (λ r. record r {
                  payment_status = paid;
                  status = status_once_paid o.status;
                  paid_at = some db.now;
                  payment_intent_id = some i.id;
                  payment_provider = some e.provider;
                  last_payment_attempt_status = some succeeded;
                  last_payment_attempt_at = some db.now;
                })
                db
                (handle_payment_succeeded e w db).0)
  unfolding handle_payment_succeeded
  succeeded_effect i o h = ground arith

  failed_effect :
      Untouched db (handle_payment_failed e w db).0
      ⊎ ((i : Intent) × (o : Order) × (intent_named_or_in_process e db ≡ some (i, o))
          × Touched i.order_id
              (λ r. record r {
                last_payment_attempt_status = some failed;
                last_payment_attempt_at = some db.now;
              })
              db
              (handle_payment_failed e w db).0)
  unfolding handle_payment_failed
  failed_effect = elim (Option-cases (intent_named_or_in_process e db)) [
    | inl h ↦ inl (ground arith)
    | inr ((i, o), h) ↦ inr (i, o, h, ground arith)
  ]

  action_effect :
      Untouched db (handle_payment_requires_action e db).0
      ⊎ ((i : Intent) × Touched i.order_id
            (λ r. record r { last_payment_attempt_status = some requires_action })
            db
            (handle_payment_requires_action e db).0)
  unfolding handle_payment_requires_action
  action_effect = elim (Option-cases (find (λ i. names_intent e i || in_process e i) db.intents)) [
    | inl h ↦ inl (ground arith)
    | inr (i, h) ↦ inr (i, ground arith)
  ]

  refund_succeeded_effect :
      Untouched db (handle_refund_succeeded e w db).0
      ⊎ ((r : Refund) × Touched r.order_id
            (λ o. record o {
              payment_status = refunded;
              refund_status = some succeeded;
              refund_amount = some (amount_or e.payload.amount r.amount);
              refund_at = some db.now;
            })
            db
            (handle_refund_succeeded e w db).0)
  unfolding handle_refund_succeeded
  refund_succeeded_effect = elim (Option-cases (refund_to_settle e db)) [
    | inl h ↦ inl (ground arith)
    | inr (r, h) ↦
        elim (Bool-cases (taken_elsewhere r.id e.payload.provider_refund_id db.refunds)) [
          | inl t ↦ inl (ground arith)
          | inr t ↦ inr (r, ground arith)
        ]
  ]

  refund_failed_effect :
      Untouched db (handle_refund_failed e db).0
      ⊎ ((r : Refund) × Touched r.order_id
            (λ o. record o { refund_status = some failed })
            db
            (handle_refund_failed e db).0)
  unfolding handle_refund_failed
  refund_failed_effect = elim (Option-cases (refund_to_settle e db)) [
    | inl h ↦ inl (ground arith)
    | inr (r, h) ↦ inr (r, ground arith)
  ]

  succeeded_step : OrderStep db (handle_payment_succeeded e w db).0
  succeeded_step = elim (Option-cases (intent_to_settle e db)) [
    | inl h ↦ untouched (succeeded_missing h)
    | inr ((i, o), h) ↦
        let found = found_under_own_id i.order_id o db.orders (settled_found e db i o h) in
        elim (succeeded_effect i o h) [
          | inl u ↦ untouched u
          | inr (inl (q, m)) ↦
              moved o.id o _ _ found refl refl refl (edge_pay o.status q) (λ r. omega arith)
                (λ v. ground arith) m
          | inr (inr (q, t)) ↦
              touched o.id _ (λ r. omega arith) (λ o' f. settled_again o o' i e db found f q) t
        ]
  ]

  failed_step : OrderStep db (handle_payment_failed e w db).0
  failed_step = elim failed_effect [
    | inl u ↦ untouched u
    | inr (i, o, h, t) ↦
        touched i.order_id _ (λ r. omega arith) (λ o' f. (refl, λ v. ground arith)) t
  ]

  action_step : OrderStep db (handle_payment_requires_action e db).0
  action_step = elim action_effect [
    | inl u ↦ untouched u
    | inr (i, t) ↦ touched i.order_id _ (λ r. omega arith) (λ o' f. (refl, λ v. ground arith)) t
  ]

  refund_succeeded_step : OrderStep db (handle_refund_succeeded e w db).0
  refund_succeeded_step = elim refund_succeeded_effect [
    | inl u ↦ untouched u
    | inr (r, t) ↦ touched r.order_id _ (λ o. omega arith) (λ o' f. (refl, λ v. ground arith)) t
  ]

  refund_failed_step : OrderStep db (handle_refund_failed e db).0
  refund_failed_step = elim refund_failed_effect [
    | inl u ↦ untouched u
    | inr (r, t) ↦ touched r.order_id _ (λ o. omega arith) (λ o' f. (refl, λ v. ground arith)) t
  ]

handler_step : (t : EventType) (e : Event) (w : ℕ) (db : Db) → OrderStep db (handler_of t e w db).0
handler_step payment_succeeded e w db = succeeded_step e w db
handler_step payment_failed e w db = failed_step e w db
handler_step payment_requires_action e w db = action_step e w db
handler_step refund_succeeded e w db = refund_succeeded_step e w db
handler_step refund_failed e w db = refund_failed_step e w db
handler_step unknown_type e w db = untouched (ground arith)

-- Processing any event is one step of the abstract machine.
pub process_event_step : (e : Event) (w : ℕ) (db : Db) → OrderStep db (process_event e w db).0
unfolding process_event
process_event_step e w db = handler_step e.type e w db
