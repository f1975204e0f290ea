-- ===== src/Payments/Process.antt =====
-- `processEvent` of eventProcessor.js.
use terravoy_backend.Prelude.{ℕ}
use terravoy_backend.Store.Rows.{
  Event, EventType, payment_succeeded, payment_failed, payment_requires_action, refund_succeeded,
  refund_failed, unknown_type,
}
use terravoy_backend.Store.Db.{M, pure}
use terravoy_backend.Payments.Event.{
  handle_payment_succeeded, handle_payment_failed, handle_payment_requires_action,
}
use terravoy_backend.Payments.Refund.{handle_refund_succeeded, handle_refund_failed}

abbrev pub handler_of : EventType → Event → ℕ → M (Unit {0})
handler_of payment_succeeded e w = handle_payment_succeeded e w
handler_of payment_failed e w = handle_payment_failed e w
handler_of payment_requires_action e w = handle_payment_requires_action e
handler_of refund_succeeded e w = handle_refund_succeeded e w
handler_of refund_failed e w = handle_refund_failed e
handler_of unknown_type e w = pure tt

-- The second argument is the id of the row in `webhook_events`.
unfoldable pub process_event : Event → ℕ → M (Unit {0})
process_event e w = handler_of e.type e w
