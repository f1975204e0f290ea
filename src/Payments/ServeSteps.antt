-- ===== src/Payments/ServeSteps.antt =====
-- The requests to routes/payments.js, as steps of `Orders/Step.antt`.
use terravoy_backend.Prelude.{none, some}
use terravoy_backend.Store.Rows.{mock}
use terravoy_backend.Store.Db.{Db}
use terravoy_backend.Auth.Authorize.{Actor}
use terravoy_backend.Orders.Step.{OrderSteps, done}
use terravoy_backend.Orders.Steps.{Steps, Steps-pure}
use terravoy_backend.Payments.Gateway.{Gateway, Settings}
use terravoy_backend.Payments.Serve.{
  SignedRequest, PaymentsRequest, create_intent, confirm, refund, refund_retry, list_payments,
  unknown_path, webhook, signed, dispatch_signed, serve_payments,
}
use terravoy_backend.Payments.Steps.{Steps-handle_webhook_route}
use terravoy_backend.Payments.RouteSteps.{
  Steps-handle_create_intent, Steps-handle_confirm, Steps-handle_refund, Steps-handle_refund_retry,
  Steps-handle_get_payments,
}

module _ (g : Gateway) (s : Settings) where
  Steps-dispatch_signed : (a : Actor) (req : SignedRequest) → Steps (dispatch_signed g s a req)
  unfolding dispatch_signed
  Steps-dispatch_signed a (create_intent body) = Steps-handle_create_intent g s a body
  Steps-dispatch_signed a (confirm body) = Steps-handle_confirm g s a body
  Steps-dispatch_signed a (refund body) = Steps-handle_refund g s a body
  Steps-dispatch_signed a (refund_retry id) = Steps-handle_refund_retry g s a id
  Steps-dispatch_signed a (list_payments id) = Steps-handle_get_payments a id
  Steps-dispatch_signed a unknown_path = Steps-pure _

  -- Whatever a provider answers, a request to the payments route changes the orders and their log
  -- only by steps of the abstract machine, whether it is answered, refused or fails halfway.
  pub serve_payments_steps :
      (req : PaymentsRequest) (db : Db) → OrderSteps db (serve_payments g s req db).0
  unfolding serve_payments
  serve_payments_steps (webhook payload signature) db =
      (Steps-handle_webhook_route g mock payload signature).at db
  serve_payments_steps (signed none req) db = done
  serve_payments_steps (signed (some a) req) db = (Steps-dispatch_signed a req).at db
