-- ===== src/Orders/View.antt =====
-- `fetchOrder`, the review columns that it attaches, and the steps that the handlers share.
use terravoy_backend.Prelude.{
  ℕ, ◌+◌, Bool, true, false, ◌&&◌, ◌==◌, leb, Option, none, some, List, ◌∷◌, if◌then◌else◌, find,
  is_some, first_some,
}
use terravoy_backend.Store.Rows.{
  OrderStatus, PaymentStatus, Order, StatusLog, Refund, Review, pending_payment,
  pending_host_confirm, confirmed, in_service, completed, cancelled_refunded, cancelled_by_traveler,
  unpaid, paid, refunded,
}
use terravoy_backend.Store.Table.{by_key, update}
use terravoy_backend.Store.Db.{
  Db, M, OrderView, Reply, ok, error, order_row, order_view, not_found, exception, throw, pure,
  or_reply, modify_db,
}

abbrev pub order_id : Order → ℕ
order_id o = o.id

-- REVIEW_REVEAL_DAYS, in milliseconds. `setDate` is taken in UTC.
abbrev pub review_reveal_ms : ℕ
review_reveal_ms = 1209600000

unfoldable pub compute_review_reveal_at : Order → Option ℕ
compute_review_reveal_at order = elim order.completed_at [
  | none ↦ none
  | some t ↦ some (t + review_reveal_ms)
]

abbrev reached : Option ℕ → ℕ → Bool
reached none now = false
reached (some t) now = leb t now

unfoldable pub compute_review_visibility : Order → Bool → Bool → ℕ → Bool
unfolding compute_review_reveal_at
compute_review_visibility order traveler_reviewed host_reviewed now =
    if traveler_reviewed && host_reviewed
    then true
    else reached (compute_review_reveal_at order) now

-- `exists(select 1 from reviews where order_id = … and from_user_id = …)`
abbrev pub has_reviewed : ℕ → ℕ → List Review → Bool
has_reviewed order_id user_id reviews =
    is_some (find (λ (r : Review). r.order_id == order_id && r.from_user_id == user_id) reviews)

abbrev pub latest_refund : ℕ → List Refund → Option Refund
latest_refund order_id = find (λ r. r.order_id == order_id)

-- The joined columns of one order, then `attachReviewStatus`. `fetchOrder` joins the latest refund,
-- the lists join none.
unfoldable pub attach_review_status : Db → Option Refund → Order → OrderView
unfolding compute_review_visibility
attach_review_status db refund o =
    let traveler_reviewed = has_reviewed o.id o.traveler_id db.reviews in
    let host_reviewed = has_reviewed o.id o.host_id db.reviews in
    record {
      order = o;
      refund_id = elim refund [ none ↦ none | some r ↦ some r.id ];
      refund_status =
          first_some (elim refund [ none ↦ none | some r ↦ some r.status ]) o.refund_status;
      refund_at = first_some (elim refund [ none ↦ none | some r ↦ r.processed_at ]) o.refund_at;
      traveler_reviewed = traveler_reviewed;
      host_reviewed = host_reviewed;
      review_reveal_at = compute_review_reveal_at o;
      review_visible = compute_review_visibility o traveler_reviewed host_reviewed db.now;
    }

unfoldable pub fetch_order : ℕ → Db → Option OrderView
unfolding attach_review_status
fetch_order id db = elim (by_key order_id id db.orders) [
  | none ↦ none
  | some o ↦ some (attach_review_status db (latest_refund o.id db.refunds) o)
]

-- `const order = await fetchOrder(…); if (!order) return error(reply, 'NOT_FOUND', …, 404);`
-- The handlers go on with the order's own columns.
unfoldable pub find_order : ℕ → M Order
find_order id = λ db. or_reply (by_key order_id id db.orders) (error not_found 404) db

-- `update orders set … where id = $1`, given the clock.
abbrev pub set_order : ℕ → (ℕ → Order → Order) → M (Unit {0})
set_order id f = modify_db (λ db. record db { orders = update order_id id (f db.now) db.orders })

abbrev pub insert_log : StatusLog → M (Unit {0})
insert_log l = modify_db (λ db. record db { order_logs = l ∷ db.order_logs })

-- `enriched ?? rows[0]`; `rows[0]` is missing only if the update met no row, and then `.id` throws.
abbrev pub view_or_row : Option OrderView → Option Order → ℕ → M Reply
view_or_row v none status = throw exception
view_or_row none (some o) status = pure (ok (order_row o) status)
view_or_row (some v) (some o) status = pure (ok (order_view v) status)

-- The last two lines of the handlers: `fetchOrder(pool, rows[0].id)` and `ok(reply, …)`.
unfoldable pub reply_order : ℕ → ℕ → M Reply
unfolding fetch_order
reply_order id status =
    λ db. view_or_row (fetch_order id db) (by_key order_id id db.orders) status db

abbrev pub is_unpaid : PaymentStatus → Bool
is_unpaid unpaid = true
is_unpaid _ = false

abbrev pub is_paid : PaymentStatus → Bool
is_paid paid = true
is_paid _ = false

abbrev pub is_pending_payment : OrderStatus → Bool
is_pending_payment pending_payment = true
is_pending_payment _ = false

abbrev pub is_pending : OrderStatus → Bool
is_pending pending_host_confirm = true
is_pending _ = false

abbrev pub is_confirmed : OrderStatus → Bool
is_confirmed confirmed = true
is_confirmed _ = false

abbrev pub is_in_service : OrderStatus → Bool
is_in_service in_service = true
is_in_service _ = false

abbrev pub is_completed : OrderStatus → Bool
is_completed completed = true
is_completed _ = false

-- The statuses in which an order cannot be paid.
abbrev pub is_closed : OrderStatus → Bool
is_closed cancelled_refunded = true
is_closed cancelled_by_traveler = true
is_closed completed = true
is_closed _ = false

-- `order.status === PENDING_PAYMENT ? PENDING : order.status`
abbrev pub status_once_paid : OrderStatus → OrderStatus
status_once_paid pending_payment = pending_host_confirm
status_once_paid s = s

-- `payment_status === 'PAID' ? 'REFUNDED' : payment_status`
abbrev pub payment_once_cancelled : PaymentStatus → PaymentStatus
payment_once_cancelled paid = refunded
payment_once_cancelled s = s
