-- ===== src/Orders/Service.antt =====
-- `handleStart` and `handleEnd` of routes/orders.js.
use terravoy_backend.Prelude.{ℕ, not, ◌==◌, none, some, ◌∷◌, if◌then◌else◌}
use terravoy_backend.Store.Rows.{
  Order, Party, ServiceLog, in_service, completed, started, ended, host_party, traveler_party,
}
use terravoy_backend.Store.Db.{
  M, Reply, error, invalid_status_transition, pure, reply_if, modify_db, ◌>>=◌, ◌>>◌,
}
use terravoy_backend.Auth.Authorize.{
  Actor, Resource, no_resource, orders_start, orders_end, is_host, authorize,
}
use terravoy_backend.Auth.Profile.{ensure_profile}
use terravoy_backend.Auth.Host.{require_approved_host}
use terravoy_backend.Orders.View.{
  find_order, set_order, insert_log, reply_order, is_confirmed, is_in_service,
}

abbrev pub both_sides : Order → Resource
both_sides o = record no_resource { host_id = some o.host_id; traveler_id = some o.traveler_id }

abbrev pub side_of : Order → ℕ → Party
side_of o me = if o.host_id == me then host_party else traveler_party

abbrev pub insert_service_log : ServiceLog → M (Unit {0})
insert_service_log l = modify_db (λ db. record db { service_logs = l ∷ db.service_logs })

unfoldable pub handle_start : Actor → ℕ → M Reply
handle_start actor id = do
  me ← ensure_profile actor.user_id
  order ← find_order id
  authorize actor.role me orders_start (both_sides order)
  if is_host actor.role then require_approved_host actor.user_id else pure tt
  reply_if (not (is_confirmed order.status)) (error invalid_status_transition 400)
  set_order id λ now o. record o { status = in_service; started_at = some now }
  insert_log (record {
    order_id = id;
    from_status = some order.status;
    to_status = in_service;
    actor_id = some me;
    actor_role = side_of order me;
    reason = none;
  })
  insert_service_log
      (record { order_id = id; event_type = started; actor_id = me; actor_role = side_of order me })
  reply_order id 200

unfoldable pub handle_end : Actor → ℕ → M Reply
handle_end actor id = do
  me ← ensure_profile actor.user_id
  order ← find_order id
  authorize actor.role me orders_end (both_sides order)
  if is_host actor.role then require_approved_host actor.user_id else pure tt
  reply_if (not (is_in_service order.status)) (error invalid_status_transition 400)
  set_order id λ now o. record o { status = completed; completed_at = some now }
  insert_log (record {
    order_id = id;
    from_status = some order.status;
    to_status = completed;
    actor_id = some me;
    actor_role = side_of order me;
    reason = none;
  })
  insert_service_log
      (record { order_id = id; event_type = ended; actor_id = me; actor_role = side_of order me })
  reply_order id 200
