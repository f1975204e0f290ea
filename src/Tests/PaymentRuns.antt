-- ===== src/Tests/PaymentRuns.antt =====
-- The payment modules on small databases.
use terravoy_backend.Prelude.{◌≡◌, ◌+◌, ◌⊎◌, inl, refl, true, false, none, some, [], ◌∷◌}
use terravoy_backend.Store.Rows.{Event, WebhookRow, mock, succeeded, event_processed}
use terravoy_backend.Store.Table.{by_key, update}
use terravoy_backend.Store.Db.{Error, value, thrown, exception}
use terravoy_backend.Orders.View.{order_id}
use terravoy_backend.Orders.Step.{OrderStep}
use terravoy_backend.Payments.Event.{event_row_id, handle_payment_succeeded, intent_to_settle}
use terravoy_backend.Payments.Process.{process_event}
use terravoy_backend.Payments.Handled.{process_event_step}
use terravoy_backend.Payments.Webhook.{
  accepted, refused, receive_event, store_event, retry_event, was_thrown,
}
use terravoy_backend.Payments.Recorded.{webhook_again}
use terravoy_backend.Payments.Atomic.{incomplete_restored, refused_webhook, with_refused}
use terravoy_backend.Payments.Retried.{retry_one}
use terravoy_backend.Payments.Settled.{succeeded_settles, settled_order}
use terravoy_backend.Orders.Step.{OrderSteps}
use terravoy_backend.Payments.Confirm.{ConfirmBody, no_simulate}
use terravoy_backend.Payments.Serve.{serve_payments, signed, confirm}
use terravoy_backend.Payments.ServeSteps.{serve_payments_steps}
use terravoy_backend.Tests.Samples.{
  easy_gateway, mock_settings, traveler_one, payment_data, payment_event, failed_row,
  awaiting_payment, awaiting_retry, new_booking, open_intent_row,
}

process_event_step_example :
    OrderStep awaiting_payment (process_event payment_event 1 awaiting_payment).0
process_event_step_example = process_event_step payment_event 1 awaiting_payment

webhook_again_example :
    receive_event mock payment_event (receive_event mock payment_event awaiting_payment).0 ≡ (
      (receive_event mock payment_event awaiting_payment).0,
      value (accepted payment_event.event_id true),
    )
webhook_again_example = webhook_again mock payment_event awaiting_payment

-- A report of the payment without its amount.
abbrev no_amount : Event
no_amount = record payment_event { payload = record payment_data { amount = none } }

found_to_settle :
    intent_to_settle payment_event awaiting_payment ≡ some (open_intent_row, new_booking)
unfolding intent_to_settle
found_to_settle = refl

found_without_amount :
    intent_to_settle no_amount awaiting_payment ≡ some (open_intent_row, new_booking)
unfolding intent_to_settle
found_without_amount = refl

incomplete_restored_example :
    process_event no_amount 1 awaiting_payment ≡ (awaiting_payment, thrown exception)
incomplete_restored_example =
    incomplete_restored no_amount 1 awaiting_payment open_intent_row new_booking
      found_without_amount refl (inl refl)

-- The delivery is refused after the intent was written.
refused_late : (receive_event mock no_amount awaiting_payment).1 ≡ value refused
unfolding receive_event store_event process_event handle_payment_succeeded intent_to_settle
refused_late = refl

refused_webhook_example :
    (receive_event mock no_amount awaiting_payment).0 ≡ with_refused mock no_amount awaiting_payment
refused_webhook_example = refused_webhook mock no_amount awaiting_payment refl refused_late

succeeded_settles_example :
    ((handle_payment_succeeded payment_event 1 awaiting_payment).1 ≡ value tt)
    × (((handle_payment_succeeded payment_event 1 awaiting_payment).0).intents
        ≡ record open_intent_row { status = succeeded; confirmed_at = some 10; updated_at = 10 }
          ∷ [])
    × (by_key order_id 1 ((handle_payment_succeeded payment_event 1 awaiting_payment).0).orders
        ≡ some (settled_order payment_event open_intent_row 10 new_booking))
succeeded_settles_example =
    succeeded_settles payment_event 1 awaiting_payment open_intent_row new_booking 10000 156
      found_to_settle refl refl 1

retry_one_example :
    ((err : Error) × ((process_event payment_event 1 awaiting_retry).1 ≡ thrown err)
      × (retry_event failed_row (2, 3) awaiting_retry ≡ (
        record awaiting_retry {
          events =
              update event_row_id 1
                (λ (x : WebhookRow). record x { retry_count = x.retry_count + 1 })
                awaiting_retry.events;
        },
        value (2, 4),
      )))
    ⊎ ((was_thrown (process_event payment_event 1 awaiting_retry).1 ≡ false)
        × (retry_event failed_row (2, 3) awaiting_retry ≡ (
          record (process_event payment_event 1 awaiting_retry).0 {
            events =
                update event_row_id 1
                  (λ (x : WebhookRow). record x { status = event_processed })
                  ((process_event payment_event 1 awaiting_retry).0).events;
          },
          value (3, 3),
        ))
        × ((x : WebhookRow) × (by_key event_row_id 1
                ((retry_event failed_row (2, 3) awaiting_retry).0).events
              ≡ some x)
            × (x.status ≡ event_processed)))
retry_one_example = retry_one failed_row 2 3 awaiting_retry refl

abbrev confirm_body : ConfirmBody
confirm_body = record { intent_id = some 1; simulate = no_simulate; idempotency_key = none }

serve_payments_steps_example :
    OrderSteps awaiting_payment
      (serve_payments easy_gateway mock_settings
        (signed (some traveler_one) (confirm confirm_body))
        awaiting_payment).0
serve_payments_steps_example =
    serve_payments_steps easy_gateway mock_settings
      (signed (some traveler_one) (confirm confirm_body)) awaiting_payment
