-- ===== src/Tests/ServerRuns.antt =====
-- The server on a few sequences of events.
use mathlib.Core.Path.{subst}
use terravoy_backend.Prelude.{◌≡◌, ◌≤◌, refl, some}
use terravoy_backend.Store.Rows.{Order, completed, cancelled_by_traveler}
use terravoy_backend.Store.Table.{by_key}
use terravoy_backend.Store.Db.{empty_db}
use terravoy_backend.Auth.Authorize.{authorize}
use terravoy_backend.Auth.Profile.{ensure_profile}
use terravoy_backend.Auth.Host.{require_approved_host, clear_approved_host_cache}
use terravoy_backend.Certs.Documents.{
  normalize_documents, normalize_each, normalize_item, normalize_document,
}
use terravoy_backend.Certs.State.{ensure_admin, normalize_profile}
use terravoy_backend.Certs.Validate.{
  validate_documents, documents_error, check_each, document_error,
}
use terravoy_backend.Certs.Draft.{first_draft, handle_save_draft}
use terravoy_backend.Certs.Submit.{handle_submit}
use terravoy_backend.Certs.Review.{handle_review_cert, cert_by_id, decide_review}
use terravoy_backend.Certs.Serve.{serve_cert, dispatch_cert}
use terravoy_backend.Orders.View.{order_id, find_order, reply_order}
use terravoy_backend.Orders.Create.{handle_create, handle_mark_paid}
use terravoy_backend.Orders.Accept.{handle_accept}
use terravoy_backend.Orders.Service.{handle_start, handle_end}
use terravoy_backend.Orders.Reviews.{handle_review}
use terravoy_backend.Orders.Serve.{dispatch, serve}
use terravoy_backend.Orders.Timeout.{close_unpaid, close_each, auto_close_unconfirmed}
use terravoy_backend.Orders.Step.{OrderSteps}
use terravoy_backend.Orders.Sound.{IsSound, empty_db-IsSound}
use terravoy_backend.Orders.Lifecycle.{Becomes, phase}
use terravoy_backend.Payments.Event.{handle_payment_succeeded, intent_to_settle}
use terravoy_backend.Payments.Process.{process_event}
use terravoy_backend.Payments.Webhook.{
  handle_webhook_route, handle_webhook, receive_event, store_event, retry_failed_events, retry_rows,
}
use terravoy_backend.Payments.Jobs.{replay_failed_webhooks}
use terravoy_backend.System.{handle_event, run}
use terravoy_backend.System.Invariant.{
  run_steps, run-IsSound, run-Becomes, run_completed, run-phase,
}
use terravoy_backend.Tests.Samples.{
  easy_gateway, mock_settings, booking, journey, no_show, booked, new_booking,
}

run-booking : run easy_gateway mock_settings booking empty_db ≡ booked
unfolding run handle_event serve dispatch handle_create ensure_profile authorize reply_order
run-booking = refl

booked-IsSound : IsSound booked
booked-IsSound = subst IsSound run-booking (run-IsSound easy_gateway mock_settings booking)

-- An order that nobody pays is cancelled.
run-no_show :
    (o : Order) × (by_key order_id 1 (run easy_gateway mock_settings no_show booked).orders
      ≡ some o)
    × (o.status ≡ cancelled_by_traveler)
unfolding run handle_event auto_close_unconfirmed close_each close_unpaid
run-no_show = (_, refl, refl)

run-IsSound_example : IsSound (run easy_gateway mock_settings journey empty_db)
run-IsSound_example = run-IsSound easy_gateway mock_settings journey

run_steps_example : OrderSteps empty_db (run easy_gateway mock_settings journey empty_db)
run_steps_example = run_steps easy_gateway mock_settings journey empty_db empty_db-IsSound

run-Becomes_example : Becomes 1 new_booking (run easy_gateway mock_settings no_show booked)
run-Becomes_example =
    run-Becomes easy_gateway mock_settings no_show booked booked-IsSound 1 new_booking refl

run-phase_example :
    (o : Order) × (by_key order_id 1 (run easy_gateway mock_settings no_show booked).orders
      ≡ some o)
    × (phase new_booking.status ≤ phase o.status)
run-phase_example =
    run-phase easy_gateway mock_settings no_show booked 1 new_booking booked-IsSound refl

-- The whole journey ends with a completed order.
journey_done :
    (o : Order) × (by_key order_id 1 (run easy_gateway mock_settings journey empty_db).orders
      ≡ some o)
    × (o.status ≡ completed)
unfolding run handle_event serve dispatch handle_create handle_mark_paid handle_accept handle_start
    handle_end handle_review ensure_profile authorize find_order require_approved_host reply_order
    handle_webhook_route handle_webhook receive_event store_event process_event
    handle_payment_succeeded intent_to_settle replay_failed_webhooks retry_failed_events retry_rows
    auto_close_unconfirmed close_each serve_cert dispatch_cert handle_save_draft first_draft
    handle_submit validate_documents documents_error check_each document_error handle_review_cert
    cert_by_id decide_review ensure_admin clear_approved_host_cache normalize_documents
    normalize_each normalize_item normalize_document normalize_profile
journey_done = (_, refl, refl)

run_completed_example :
    (o' : Order) × (by_key order_id 1
        (run easy_gateway mock_settings no_show
          (run easy_gateway mock_settings journey empty_db)).orders
      ≡ some o')
    × (o'.status ≡ completed)
run_completed_example =
    run_completed easy_gateway mock_settings no_show
      (run easy_gateway mock_settings journey empty_db) 1 journey_done.0
      (run-IsSound easy_gateway mock_settings journey) journey_done.1 journey_done.2
