-- ===== src/Orders/Step.antt =====
-- The abstract view of one order: the statuses that it may go through, and how one statement of
-- the server may change the tables `orders` and `order_status_logs`.
use terravoy_backend.Prelude.{ℕ, ◌+◌, ◌≡◌, ◌≢◌, Bool, true, false, none, some, ◌∷◌, is_some}
use terravoy_backend.Store.Rows.{
  OrderStatus, Order, StatusLog, pending_payment, pending_host_confirm, confirmed, in_service,
  completed, cancelled_refunded, cancelled_by_traveler, disputed, unpaid, paid,
}
use terravoy_backend.Store.Table.{by_key, update}
use terravoy_backend.Store.Db.{Db}
use terravoy_backend.Orders.View.{order_id}

-- An order that can still be cancelled by its traveler: any that is not in service or completed.
pub data IsCancellable : OrderStatus → Type 0 where
  from_pending_payment : IsCancellable pending_payment
  from_pending_host : IsCancellable pending_host_confirm
  from_confirmed : IsCancellable confirmed
  from_refunded : IsCancellable cancelled_refunded
  from_cancelled : IsCancellable cancelled_by_traveler
  from_disputed : IsCancellable disputed

-- The diagram of the statuses.
pub data Edge : OrderStatus → OrderStatus → Type 0 where
  pay : Edge pending_payment pending_host_confirm
  accept : Edge pending_host_confirm confirmed
  reject : Edge pending_host_confirm cancelled_refunded
  start : Edge confirmed in_service
  finish : Edge in_service completed
  cancel : {s : OrderStatus} → IsCancellable s → Edge s cancelled_by_traveler

-- The columns that no statement changes after the insert.
pub record Frame (o o' : Order) : Type 0 where
  pub id : o'.id ≡ o.id
  pub traveler_id : o'.traveler_id ≡ o.traveler_id
  pub host_id : o'.host_id ≡ o.host_id
  pub experience_id : o'.experience_id ≡ o.experience_id
  pub start_time : o'.start_time ≡ o.start_time
  pub total_amount : o'.total_amount ≡ o.total_amount
  pub created_at : o'.created_at ≡ o.created_at

abbrev pub is_served : OrderStatus → Bool
is_served confirmed = true
is_served in_service = true
is_served completed = true
is_served _ = false

-- What holds of the payment columns of every order.
pub record IsPaidUp (o : Order) : Type 0 where
  -- an order that a host has confirmed is not unpaid
  pub served_paid : is_served o.status ≡ true → o.payment_status ≢ unpaid
  -- a paid order has the time of its payment
  pub paid_dated : o.payment_status ≡ paid → is_some o.paid_at ≡ true

-- Orders, their log and the next id are as before.
pub record Untouched (db db' : Db) : Type 0 where
  pub orders : db'.orders ≡ db.orders
  pub order_logs : db'.order_logs ≡ db.order_logs
  pub next_order : db'.next_order ≡ db.next_order

-- Order `id` was changed by `f`, and `l` was logged.
pub record Moved (id : ℕ) (f : Order → Order) (l : StatusLog) (db db' : Db) : Type 0 where
  pub orders : db'.orders ≡ update order_id id f db.orders
  pub order_logs : db'.order_logs ≡ l ∷ db.order_logs
  pub next_order : db'.next_order ≡ db.next_order

-- Order `id` was changed by `f`, and nothing was logged.
pub record Touched (id : ℕ) (f : Order → Order) (db db' : Db) : Type 0 where
  pub orders : db'.orders ≡ update order_id id f db.orders
  pub order_logs : db'.order_logs ≡ db.order_logs
  pub next_order : db'.next_order ≡ db.next_order

-- `o` was inserted under the next id, with its first log line.
pub record Created (o : Order) (l : StatusLog) (db db' : Db) : Type 0 where
  pub orders : db'.orders ≡ o ∷ db.orders
  pub order_logs : db'.order_logs ≡ l ∷ db.order_logs
  pub next_order : db'.next_order ≡ db.next_order + 1
  pub id : o.id ≡ db.next_order

-- One step of the server, as the two tables see it.
pub data OrderStep (db db' : Db) : Type 0 where
  untouched : Untouched db db' → OrderStep db db'
  moved :
      (id : ℕ) (o : Order) (f : Order → Order) (l : StatusLog)
      → by_key order_id id db.orders ≡ some o
      → l.order_id ≡ id
      → l.from_status ≡ some o.status
      → (f o).status ≡ l.to_status
      → Edge o.status l.to_status
      → ((r : Order) → Frame r (f r))
      → (IsPaidUp o → IsPaidUp (f o))
      → Moved id f l db db'
      → OrderStep db db'
  touched :
      (id : ℕ) (f : Order → Order)
      → ((r : Order) → Frame r (f r))
      → ((o : Order)
          → by_key order_id id db.orders ≡ some o
          → ((f o).status ≡ o.status) × (IsPaidUp o → IsPaidUp (f o)))
      → Touched id f db db'
      → OrderStep db db'
  created :
      (o : Order) (l : StatusLog)
      → l.order_id ≡ o.id
      → l.from_status ≡ none
      → l.to_status ≡ o.status
      → o.status ≡ pending_payment
      → o.payment_status ≡ unpaid
      → Created o l db db'
      → OrderStep db db'

-- Several steps, as a loop or a longer handler makes them.
pub data OrderSteps (db : Db) : Db → Type 0 where
  done : OrderSteps db db
  more : {db₁ db₂ : Db} → OrderSteps db db₁ → OrderStep db₁ db₂ → OrderSteps db db₂

pub one_step : {db db' : Db} → OrderStep db db' → OrderSteps db db'
one_step s = more done s

pub steps_trans : {a b c : Db} → OrderSteps a b → OrderSteps b c → OrderSteps a c
steps_trans r done = r
steps_trans r (more s t) = more (steps_trans r s) t
