-- ===== src/Orders/Timeout.antt =====
-- `autoCloseUnconfirmed` of server/src/jobs/index.js, which runs every ten minutes.
use terravoy_backend.Prelude.{ℕ, ◌+◌, Bool, ◌&&◌, none, some, List, [], ◌∷◌, ltb, select}
use terravoy_backend.Store.Rows.{
  Order, OrderStatus, LogReason, cancelled_by_traveler, cancelled_refunded, refunded, system_party,
  payment_timeout, auto_timeout,
}
use terravoy_backend.Store.Db.{Db, M, pure, gets, ◌>>=◌, ◌>>◌}
use terravoy_backend.Orders.View.{set_order, insert_log, is_pending_payment, is_pending}

abbrev pub thirty_minutes : ℕ
thirty_minutes = 1800000

abbrev pub twelve_hours : ℕ
twelve_hours = 43200000

-- `created_at < now() - age`, without the subtraction.
abbrev pub older_than : ℕ → Db → Order → Bool
older_than age db o = ltb (o.created_at + age) db.now

abbrev pub is_stale_unpaid : Db → Order → Bool
is_stale_unpaid db o = is_pending_payment o.status && older_than thirty_minutes db o

abbrev pub is_stale_pending : Db → Order → Bool
is_stale_pending db o = is_pending o.status && older_than twelve_hours db o

-- The log line of the job: nobody acted.
abbrev system_log : Order → OrderStatus → LogReason → M (Unit {0})
system_log order to reason = insert_log (record {
  order_id = order.id;
  from_status = some order.status;
  to_status = to;
  actor_id = none;
  actor_role = system_party;
  reason = some reason;
})

unfoldable pub close_unpaid : Order → M (Unit {0})
close_unpaid order = do
  set_order order.id λ now o. record o {
    status = cancelled_by_traveler;
    cancelled_at = some now;
    cancelled_by = some system_party;
    cancelled_reason = some payment_timeout;
  }
  system_log order cancelled_by_traveler payment_timeout

unfoldable pub close_pending : Order → M (Unit {0})
close_pending order = do
  set_order order.id λ now o. record o {
    status = cancelled_refunded;
    payment_status = refunded;
    cancelled_at = some now;
    cancelled_by = some system_party;
    cancelled_reason = some auto_timeout;
  }
  system_log order cancelled_refunded auto_timeout

-- `for (const order of rows)`
unfoldable pub close_each : (Order → M (Unit {0})) → List Order → M (Unit {0})
close_each close [] = pure tt
close_each close (o ∷ os) = close o >> close_each close os

unfoldable pub auto_close_unconfirmed : M (Unit {0})
auto_close_unconfirmed = do
  unpaid ← gets (λ db. select (is_stale_unpaid db) db.orders)
  close_each close_unpaid unpaid
  stale ← gets (λ db. select (is_stale_pending db) db.orders)
  close_each close_pending stale
