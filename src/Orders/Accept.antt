-- ===== src/Orders/Accept.antt =====
-- `handleAccept`, `handleReject` and `handleCancel` of routes/orders.js.
use terravoy_backend.Prelude.{ℕ, not, ◌||◌, Option, none, some}
use terravoy_backend.Store.Rows.{
  LogReason, confirmed, cancelled_refunded, cancelled_by_traveler, host_party, traveler_party,
}
use terravoy_backend.Store.Db.{
  M, Reply, error, payment_required, invalid_status_transition, reply_if, ◌>>=◌, ◌>>◌,
}
use terravoy_backend.Auth.Authorize.{
  Actor, no_resource, orders_accept, orders_reject, orders_cancel, authorize,
}
use terravoy_backend.Auth.Profile.{ensure_profile}
use terravoy_backend.Auth.Host.{require_approved_host}
use terravoy_backend.Orders.View.{
  find_order, set_order, insert_log, reply_order, is_paid, is_pending, is_completed, is_in_service,
  payment_once_cancelled,
}

unfoldable pub handle_accept : Actor → ℕ → M Reply
handle_accept actor id = do
  me ← ensure_profile actor.user_id
  order ← find_order id
  authorize actor.role me orders_accept (record no_resource { host_id = some order.host_id })
  require_approved_host actor.user_id
  reply_if (not (is_paid order.payment_status)) (error payment_required 400)
  reply_if (not (is_pending order.status)) (error invalid_status_transition 400)
  set_order id λ now o. record o { status = confirmed; confirmed_at = some now }
  insert_log (record {
    order_id = id;
    from_status = some order.status;
    to_status = confirmed;
    actor_id = some me;
    actor_role = host_party;
    reason = none;
  })
  reply_order id 200

-- The third argument is `req.body.reason`.
unfoldable pub handle_reject : Actor → ℕ → Option LogReason → M Reply
handle_reject actor id reason = do
  me ← ensure_profile actor.user_id
  order ← find_order id
  authorize actor.role me orders_reject (record no_resource { host_id = some order.host_id })
  require_approved_host actor.user_id
  reply_if (not (is_pending order.status)) (error invalid_status_transition 400)
  set_order id λ now o. record o {
    status = cancelled_refunded;
    payment_status = payment_once_cancelled order.payment_status;
    cancelled_at = some now;
    cancelled_by = some host_party;
    cancelled_reason = reason;
  }
  insert_log (record {
    order_id = id;
    from_status = some order.status;
    to_status = cancelled_refunded;
    actor_id = some me;
    actor_role = host_party;
    reason = reason;
  })
  reply_order id 200

unfoldable pub handle_cancel : Actor → ℕ → Option LogReason → M Reply
handle_cancel actor id reason = do
  me ← ensure_profile actor.user_id
  order ← find_order id
  authorize actor.role me orders_cancel
      (record no_resource { traveler_id = some order.traveler_id })
  reply_if (is_completed order.status || is_in_service order.status)
      (error invalid_status_transition 400)
  set_order id λ now o. record o {
    status = cancelled_by_traveler;
    payment_status = payment_once_cancelled order.payment_status;
    cancelled_at = some now;
    cancelled_by = some traveler_party;
    cancelled_reason = reason;
  }
  insert_log (record {
    order_id = id;
    from_status = some order.status;
    to_status = cancelled_by_traveler;
    actor_id = some me;
    actor_role = traveler_party;
    reason = reason;
  })
  reply_order id 200
