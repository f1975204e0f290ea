-- ===== src/System/Invariant.antt =====
-- What holds of the server after any sequence of events.
use terravoy_backend.Prelude.{ℕ, ◌≤◌, ◌≡◌, List, [], ◌∷◌, some, arith}
use terravoy_backend.Store.Rows.{Order, completed}
use terravoy_backend.Store.Table.{by_key}
use terravoy_backend.Store.Db.{Db, empty_db}
use terravoy_backend.Orders.View.{order_id}
use terravoy_backend.Orders.Step.{OrderSteps, done, steps_trans, one_step, untouched}
use terravoy_backend.Orders.Sound.{IsSound, OrderSteps-IsSound, empty_db-IsSound}
use terravoy_backend.Orders.Lifecycle.{
  Becomes, steps-Becomes, Course-completed, Course-phase, phase,
}
use terravoy_backend.Orders.Handled.{serve_step}
use terravoy_backend.Orders.TimeoutSteps.{auto_close_steps}
use terravoy_backend.Payments.Gateway.{Gateway, Settings}
use terravoy_backend.Payments.Jobs.{replay_failed_webhooks, default_limit}
use terravoy_backend.Payments.ServeSteps.{serve_payments_steps}
use terravoy_backend.Payments.Steps.{Steps-handle_webhook_route, Steps-retry_failed_events}
use terravoy_backend.Payments.RouteSteps.{
  Steps-reconcile_succeeded_payments, Steps-cleanup_expired_intents,
}
use terravoy_backend.System.CertSteps.{serve_cert_steps}
use terravoy_backend.System.{
  ServerEvent, orders_call, payments_call, webhook_call, replay_job, reconcile_job, cleanup_job,
  auto_close_job, tick, certs_call, assets_written, handle_event, run,
}

module _ (g : Gateway) (s : Settings) where
  handle_event_steps :
      (e : ServerEvent) (db : Db) → IsSound db → OrderSteps db (handle_event g s e db)
  unfolding handle_event replay_failed_webhooks
  handle_event_steps (orders_call who req) db h = one_step (serve_step who req db)
  handle_event_steps (payments_call req) db h = serve_payments_steps g s req db
  handle_event_steps (webhook_call p payload signature) db h =
      (Steps-handle_webhook_route g p payload signature).at db
  handle_event_steps replay_job db h = (Steps-retry_failed_events 3 default_limit).at db
  handle_event_steps (reconcile_job limit) db h = (Steps-reconcile_succeeded_payments limit).at db
  handle_event_steps (cleanup_job cutoff limit) db h =
      (Steps-cleanup_expired_intents cutoff limit).at db
  handle_event_steps auto_close_job db h = auto_close_steps db h.audited h.distinct
  handle_event_steps (tick ms) db h = one_step (untouched (ground arith))
  handle_event_steps (certs_call req) db h = serve_cert_steps s.certs req db
  handle_event_steps (assets_written assets) db h = one_step (untouched (ground arith))

  -- Whatever events come, in any order, each changes the orders and their log only by steps of the
  -- abstract machine: it inserts an unpaid order under a fresh id, moves one along the diagram and
  -- logs just that move, or changes columns of one order that leave its status as it was.
  pub run_steps : (es : List ServerEvent) (db : Db) → IsSound db → OrderSteps db (run g s es db)
  unfolding run
  run_steps [] db h = done
  run_steps (e ∷ es) db h =
      let first = handle_event_steps e db h in
      steps_trans first (run_steps es (handle_event g s e db) (OrderSteps-IsSound first h))

  -- From the empty database on, after any sequence of events: for every id the status log, replayed,
  -- gives the status that stands in the table (and nothing where there is no order); no id is given
  -- out twice; an order that is confirmed, in service or completed is not unpaid; and an order that
  -- is paid has the time of its payment.
  pub run-IsSound : (es : List ServerEvent) → IsSound (run g s es empty_db)
  run-IsSound es = OrderSteps-IsSound (run_steps es empty_db empty_db-IsSound) empty_db-IsSound

  module _ (es : List ServerEvent) (db : Db) (h : IsSound db) (id : ℕ) (o : Order)
      (found : by_key order_id id db.orders ≡ some o) where
    -- Whatever events come, an order of a sound database stays under its id with its traveler,
    -- host, experience, start, amount and creation time, its status follows the diagram, and its
    -- payment columns go on agreeing with its status if they did.
    pub run-Becomes : Becomes id o (run g s es db)
    run-Becomes = steps-Becomes id o h.audited (run_steps es db h) found

  -- A completed order of a sound database stays completed, whatever events come.
  pub run_completed :
      (es : List ServerEvent) (db : Db) (id : ℕ) (o : Order)
      → IsSound db
      → by_key order_id id db.orders ≡ some o
      → o.status ≡ completed
      → (o' : Order) × (by_key order_id id (run g s es db).orders ≡ some o')
        × (o'.status ≡ completed)
  run_completed es db id o h found e =
      let (o', found', follows) = run-Becomes es db h id o found in
      (o', found', Course-completed follows.course e)

  -- An order of a sound database never goes back to an earlier phase (waiting for payment, waiting
  -- for the host, confirmed, in service, ended or cancelled), whatever events come.
  pub run-phase :
      (es : List ServerEvent) (db : Db) (id : ℕ) (o : Order)
      → IsSound db
      → by_key order_id id db.orders ≡ some o
      → (o' : Order) × (by_key order_id id (run g s es db).orders ≡ some o')
        × (phase o.status ≤ phase o'.status)
  run-phase es db id o h found =
      let (o', found', follows) = run-Becomes es db h id o found in
      (o', found', Course-phase follows.course)
