-- ===== src/Orders/Create.antt =====
-- `handleCreate` and `handleMarkPaid` of routes/orders.js.
use terravoy_backend.Prelude.{
  ℕ, ◌+◌, Bool, not, ◌&&◌, ◌==◌, Option, none, some, ◌∷◌, if◌then◌else◌, find,
}
use terravoy_backend.Store.Rows.{
  Order, StatusLog, OrderDetails, pending_payment, unpaid, paid, traveler_party, payment_confirmed,
  UserId,
}
use terravoy_backend.Store.Db.{
  M, Reply, ok, error, order_row, invalid_input, invalid_status_transition, forbidden, pure, gets,
  or_reply, reply_if, modify_db, ◌>>=◌, ◌>>◌,
}
use terravoy_backend.Auth.Authorize.{Actor, no_resource, orders_create, orders_mark_paid, authorize}
use terravoy_backend.Auth.Profile.{ensure_profile}
use terravoy_backend.Orders.View.{
  find_order, set_order, insert_log, reply_order, is_unpaid, is_closed, is_pending_payment,
  status_once_paid,
}

-- The fields of the body that must be truthy: a missing one, 0 or "" is `none`.
pub record CreateBody : Type 0 where
  pub experience_id : Option ℕ
  pub host_id : Option UserId
  pub start_time : Option ℕ
  pub end_time : Option ℕ
  pub people_count : Option ℕ
  pub total_amount : Option ℕ
  pub details : OrderDetails

-- The body once the required fields are there.
pub record NewOrder : Type 0 where
  pub experience_id : ℕ
  pub host_id : UserId
  pub start_time : ℕ
  pub total_amount : ℕ
  pub details : OrderDetails

-- `!experienceId || !hostId || …`
unfoldable pub required : CreateBody → Option NewOrder
required b = elim b.experience_id [
  | none ↦ none
  | some e ↦ elim b.host_id [
    | none ↦ none
    | some h ↦ elim b.start_time [
      | none ↦ none
      | some t ↦ elim b.total_amount [
        | none ↦ none
        | some a ↦ elim b.end_time [
          | none ↦ none
          | some d ↦ elim b.people_count [
            | none ↦ none
            | some p ↦ some (record {
              experience_id = e;
              host_id = h;
              start_time = t;
              total_amount = a;
              details = record (b.details) { end_time = d; people_count = p };
            })
          ]
        ]
      ]
    ]
  ]
]

-- The order that the traveler already has for this host, experience and start.
abbrev pub same_booking : (traveler host experience start : ℕ) → Order → Bool
same_booking traveler host experience start o =
    o.traveler_id == traveler
    && o.host_id == host
    && (o.experience_id == experience && o.start_time == start)

-- The row that is inserted; `order_no` is made of the time and a random number.
abbrev pub new_order : (id order_no traveler host now : ℕ) → NewOrder → Order
new_order id order_no traveler host now n = record {
  id = id;
  order_no = order_no;
  traveler_id = traveler;
  host_id = host;
  experience_id = n.experience_id;
  start_time = n.start_time;
  total_amount = n.total_amount;
  details = n.details;
  status = pending_payment;
  payment_status = unpaid;
  created_at = now;
  paid_at = none;
  confirmed_at = none;
  started_at = none;
  completed_at = none;
  cancelled_at = none;
  cancelled_by = none;
  cancelled_reason = none;
  payment_intent_id = none;
  payment_provider = none;
  last_payment_attempt_status = none;
  last_payment_attempt_at = none;
  refund_status = none;
  refund_amount = none;
  refund_at = none;
}

-- The first line of the log of an order.
abbrev pub first_log : (id traveler : ℕ) → StatusLog
first_log id traveler = record {
  order_id = id;
  from_status = none;
  to_status = pending_payment;
  actor_id = some traveler;
  actor_role = traveler_party;
  reason = none;
}

-- The insert, its log and the reply, for an order that is new.
insert_order : (order_no traveler host : ℕ) → NewOrder → M Reply
insert_order order_no traveler host n = do
  id ← gets (λ db. db.next_order)
  modify_db λ db. record db {
    orders = new_order id order_no traveler host db.now n ∷ db.orders;
    next_order = db.next_order + 1;
  }
  insert_log (first_log id traveler)
  reply_order id 201

-- `if (existingRows[0]) return ok(reply, existingRows[0]);`
existing_or_new : Option Order → M Reply → M Reply
existing_or_new none create = create
existing_or_new (some o) create = pure (ok (order_row o) 200)

-- `order_no` stands for the random part and the time in it.
unfoldable pub handle_create : Actor → CreateBody → (order_no : ℕ) → M Reply
unfolding required insert_order existing_or_new
handle_create actor body order_no = do
  n ← or_reply (required body) (error invalid_input 400)
  me ← ensure_profile actor.user_id
  host ← ensure_profile n.host_id
  authorize actor.role me orders_create no_resource
  found ← gets (λ db. find (same_booking me host n.experience_id n.start_time) db.orders)
  existing_or_new found (insert_order order_no me host n)

unfoldable pub handle_mark_paid : Actor → ℕ → M Reply
handle_mark_paid actor id = do
  me ← ensure_profile actor.user_id
  authorize actor.role me orders_mark_paid (record no_resource { traveler_id = some me })
  order ← find_order id
  reply_if (not (is_unpaid order.payment_status)) (error invalid_status_transition 400)
  reply_if (not (order.traveler_id == me)) (error forbidden 403)
  reply_if (is_closed order.status) (error invalid_status_transition 400)
  set_order id λ now o. record o {
    payment_status = paid;
    status = status_once_paid order.status;
    paid_at = some now;
  }
  if is_pending_payment order.status
      then insert_log (record {
        order_id = id;
        from_status = some order.status;
        to_status = status_once_paid order.status;
        actor_id = some me;
        actor_role = traveler_party;
        reason = some payment_confirmed;
      })
      else pure tt
  reply_order id 200
