-- ===== src/Orders/Handled.antt =====
-- The requests to routes/orders.js, as steps of `Orders/Step.antt`.
use terravoy_backend.Prelude.{
  ℕ, ◌≡◌, ◌⊎◌, inl, inr, refl, true, false, Option, none, some, arith, Option-cases,
}
use terravoy_backend.Store.Rows.{
  Order, OrderStatus, LogReason, UserId, uuid, paid, pending_payment, pending_host_confirm,
  confirmed, in_service, completed, cancelled_refunded, cancelled_by_traveler, disputed,
}
use terravoy_backend.Store.Table.{by_key}
use terravoy_backend.Store.Db.{Db}
use terravoy_backend.Auth.Authorize.{Actor, authorize}
use terravoy_backend.Auth.Profile.{ensure_profile}
use terravoy_backend.Orders.View.{
  order_id, fetch_order, find_order, reply_order, is_pending, is_confirmed, is_in_service,
  is_completed, is_pending_payment, status_once_paid,
}
use terravoy_backend.Orders.Create.{
  CreateBody, handle_create, handle_mark_paid, required, NewOrder, new_order, first_log,
}
use terravoy_backend.Orders.Accept.{handle_accept, handle_reject, handle_cancel}
use terravoy_backend.Orders.Service.{handle_start, handle_end}
use terravoy_backend.Orders.Reviews.{handle_review, handle_experience_review_summary}
use terravoy_backend.Orders.Browse.{
  StatusFilter, handle_my_orders, handle_host_orders, handle_detail,
}
use terravoy_backend.Orders.Step.{
  Untouched, Created, IsPaidUp, Edge, from_pending_payment, from_pending_host, from_confirmed,
  from_refunded, from_cancelled, from_disputed, OrderStep, untouched, moved, touched, created,
}
use terravoy_backend.Orders.Effect.{
  accept_missing, accept_effect, reject_missing, reject_effect, cancel_missing, cancel_effect,
}
use terravoy_backend.Orders.ServiceEffect.{
  start_missing, start_effect, end_missing, end_effect, mark_paid_missing, mark_paid_effect,
}
use terravoy_backend.Orders.Serve.{
  OrdersRequest, create, mark_paid, accept, reject, cancel, start, end, review, reviews_summary,
  my_orders, host_orders, detail, unknown_route, dispatch, serve,
}

edge_accept : (s : OrderStatus) → is_pending s ≡ true → Edge s confirmed
edge_accept pending_host_confirm h = Edge.accept
edge_accept _ h = cc

pub edge_reject : (s : OrderStatus) → is_pending s ≡ true → Edge s cancelled_refunded
edge_reject pending_host_confirm h = Edge.reject
edge_reject _ h = cc

edge_start : (s : OrderStatus) → is_confirmed s ≡ true → Edge s in_service
edge_start confirmed h = Edge.start
edge_start _ h = cc

edge_end : (s : OrderStatus) → is_in_service s ≡ true → Edge s completed
edge_end in_service h = Edge.finish
edge_end _ h = cc

pub edge_pay : (s : OrderStatus) → is_pending_payment s ≡ true → Edge s (status_once_paid s)
edge_pay pending_payment h = Edge.pay
edge_pay _ h = cc

pub edge_cancel :
    (s : OrderStatus)
    → is_completed s ≡ false
    → is_in_service s ≡ false
    → Edge s cancelled_by_traveler
edge_cancel pending_payment h k = Edge.cancel from_pending_payment
edge_cancel pending_host_confirm h k = Edge.cancel from_pending_host
edge_cancel confirmed h k = Edge.cancel from_confirmed
edge_cancel cancelled_refunded h k = Edge.cancel from_refunded
edge_cancel cancelled_by_traveler h k = Edge.cancel from_cancelled
edge_cancel disputed h k = Edge.cancel from_disputed
edge_cancel in_service h k = cc
edge_cancel completed h k = cc

-- An order that was paid in another status than `pending_payment` keeps its status.
pub paid_again :
    (o o' : Order) (id : ℕ) (db : Db)
    → by_key order_id id db.orders ≡ some o
    → by_key order_id id db.orders ≡ some o'
    → is_pending_payment o.status ≡ false
    → (status_once_paid o.status ≡ o'.status)
      × (IsPaidUp o'
          → IsPaidUp (record o' {
            payment_status = paid;
            status = status_once_paid o.status;
            paid_at = some db.now;
          }))
paid_again o o' id db h e q = (ground arith, λ v. ground arith)

-- The profile of a user, where it has one.
abbrev id_of : UserId → ℕ
id_of (uuid u) = u
id_of _ = 0

module _ (a : Actor) (body : CreateBody) (order_no : ℕ) (db : Db) where
  create_refused : required body ≡ none → Untouched db (handle_create a body order_no db).0
  unfolding handle_create
  create_refused h = ground arith

  create_effect :
      (n : NewOrder)
      → required body ≡ some n
      → Untouched db (handle_create a body order_no db).0
        ⊎ Created
            (new_order db.next_order order_no (id_of a.user_id) (id_of n.host_id) db.now n)
            (first_log db.next_order (id_of a.user_id))
            db
            (handle_create a body order_no db).0
  unfolding handle_create ensure_profile authorize reply_order
  create_effect n h = ground arith

  create_step : OrderStep db (handle_create a body order_no db).0
  create_step = elim (Option-cases (required body)) [
    | inl h ↦ untouched (create_refused h)
    | inr (n, h) ↦ elim (create_effect n h) [
      | inl u ↦ untouched u
      | inr c ↦ created _ _ refl refl refl refl refl c
    ]
  ]

module _ (a : Actor) (id : ℕ) (db : Db) where
  accept_step : OrderStep db (handle_accept a id db).0
  accept_step = elim (Option-cases (by_key order_id id db.orders)) [
    | inl h ↦ untouched (accept_missing a id db h)
    | inr (o, h) ↦ elim (accept_effect a id db o h) [
      | inl u ↦ untouched u
      | inr (p, q, m) ↦
          moved id o _ _ h refl refl refl (edge_accept o.status q) (λ r. omega arith)
            (λ v. ground arith) m
    ]
  ]

  start_step : OrderStep db (handle_start a id db).0
  start_step = elim (Option-cases (by_key order_id id db.orders)) [
    | inl h ↦ untouched (start_missing a id db h)
    | inr (o, h) ↦ elim (start_effect a id db o h) [
      | inl u ↦ untouched u
      | inr (q, m) ↦
          moved id o _ _ h refl refl refl (edge_start o.status q) (λ r. omega arith)
            (λ v. ground arith) m
    ]
  ]

  end_step : OrderStep db (handle_end a id db).0
  end_step = elim (Option-cases (by_key order_id id db.orders)) [
    | inl h ↦ untouched (end_missing a id db h)
    | inr (o, h) ↦ elim (end_effect a id db o h) [
      | inl u ↦ untouched u
      | inr (q, m) ↦
          moved id o _ _ h refl refl refl (edge_end o.status q) (λ r. omega arith)
            (λ v. ground arith) m
    ]
  ]

  mark_paid_step : OrderStep db (handle_mark_paid a id db).0
  mark_paid_step = elim (Option-cases (by_key order_id id db.orders)) [
    | inl h ↦ untouched (mark_paid_missing a id db h)
    | inr (o, h) ↦ elim (mark_paid_effect a id db o h) [
      | inl u ↦ untouched u
      | inr (inl (q, m)) ↦
          moved id o _ _ h refl refl refl (edge_pay o.status q) (λ r. omega arith)
            (λ v. ground arith) m
      | inr (inr (q, t)) ↦ touched id _ (λ r. omega arith) (λ o' e. paid_again o o' id db h e q) t
    ]
  ]

  module _ (w : Option LogReason) where
    reject_step : OrderStep db (handle_reject a id w db).0
    reject_step = elim (Option-cases (by_key order_id id db.orders)) [
      | inl h ↦ untouched (reject_missing a id db w h)
      | inr (o, h) ↦ elim (reject_effect a id db w o h) [
        | inl u ↦ untouched u
        | inr (q, m) ↦
            moved id o _ _ h refl refl refl (edge_reject o.status q) (λ r. omega arith)
              (λ v. ground arith) m
      ]
    ]

    cancel_step : OrderStep db (handle_cancel a id w db).0
    cancel_step = elim (Option-cases (by_key order_id id db.orders)) [
      | inl h ↦ untouched (cancel_missing a id db w h)
      | inr (o, h) ↦ elim (cancel_effect a id db w o h) [
        | inl u ↦ untouched u
        | inr (p, q, m) ↦
            moved id o _ _ h refl refl refl (edge_cancel o.status p q) (λ r. omega arith)
              (λ v. ground arith) m
      ]
    ]

-- The handlers that only read orders, or write reviews.
module _ (a : Actor) (db : Db) where
  review_step :
      (id : ℕ) (rating comment : Option ℕ) → Untouched db (handle_review a id rating comment db).0
  unfolding handle_review ensure_profile find_order authorize
  review_step id rating comment = ground arith

  summary_step : (e : Option ℕ) → Untouched db (handle_experience_review_summary e db).0
  unfolding handle_experience_review_summary
  summary_step e = ground arith

  my_orders_step : (f : StatusFilter) → Untouched db (handle_my_orders a f db).0
  unfolding handle_my_orders ensure_profile
  my_orders_step f = ground arith

  host_orders_step : (f : StatusFilter) → Untouched db (handle_host_orders a f db).0
  unfolding handle_host_orders ensure_profile
  host_orders_step f = ground arith

  detail_step : (id : ℕ) → Untouched db (handle_detail a id db).0
  unfolding handle_detail ensure_profile fetch_order authorize
  detail_step id = ground arith

dispatch_step : (a : Actor) (req : OrdersRequest) (db : Db) → OrderStep db (dispatch a req db).0
unfolding dispatch
dispatch_step a (create body order_no) db = create_step a body order_no db
dispatch_step a (mark_paid id) db = mark_paid_step a id db
dispatch_step a (accept id) db = accept_step a id db
dispatch_step a (reject id w) db = reject_step a id db w
dispatch_step a (cancel id w) db = cancel_step a id db w
dispatch_step a (start id) db = start_step a id db
dispatch_step a (end id) db = end_step a id db
dispatch_step a (review id rating comment) db = untouched (review_step a db id rating comment)
dispatch_step a (reviews_summary e) db = untouched (summary_step a db e)
dispatch_step a (my_orders f) db = untouched (my_orders_step a db f)
dispatch_step a (host_orders f) db = untouched (host_orders_step a db f)
dispatch_step a (detail id) db = untouched (detail_step a db id)
dispatch_step a unknown_route db = untouched (ground arith)

-- Whatever the request and whoever sends it, the orders route makes one step of the abstract
-- machine: it leaves orders and log alone, inserts one order that waits for its payment, moves one
-- order along an edge of the diagram and logs just that, or changes columns of one order and keeps
-- its status.
pub serve_step :
    (who : Option Actor) (req : OrdersRequest) (db : Db) → OrderStep db (serve who req db).0
unfolding serve
serve_step none req db = untouched (ground arith)
serve_step (some a) req db = dispatch_step a req db
