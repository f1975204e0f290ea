-- ===== src/Payments/Serve.antt =====
-- The route `/functions/v1/payments` of routes/payments.js, after its path has been read.
use terravoy_backend.Prelude.{ℕ, Option, none, some}
use terravoy_backend.Store.Rows.{mock}
use terravoy_backend.Store.Db.{
  Db, M, Reply, Outcome, error, unauthorized, not_found, pure, to_reply,
}
use terravoy_backend.Auth.Authorize.{Actor}
use terravoy_backend.Payments.Gateway.{Gateway, Settings}
use terravoy_backend.Payments.Intents.{IntentBody, handle_create_intent}
use terravoy_backend.Payments.Confirm.{ConfirmBody, handle_confirm}
use terravoy_backend.Payments.Refunds.{
  RefundBody, handle_refund, handle_refund_retry, handle_get_payments,
}
use terravoy_backend.Payments.Webhook.{handle_webhook_route}

-- The requests that need an actor.
pub data SignedRequest : Type 0 where
  create_intent : IntentBody → SignedRequest
  confirm : ConfirmBody → SignedRequest
  refund : RefundBody → SignedRequest
  refund_retry list_payments : (id : Option ℕ) → SignedRequest
  unknown_path : SignedRequest

pub data PaymentsRequest : Type 0 where
  webhook : (payload : ℕ) → (signature : Option ℕ) → PaymentsRequest
  signed : Option Actor → SignedRequest → PaymentsRequest

-- The chain of tests on the method and the path, for an actor.
unfoldable pub dispatch_signed : Gateway → Settings → Actor → SignedRequest → M Reply
dispatch_signed g s a (create_intent body) = handle_create_intent g s a body
dispatch_signed g s a (confirm body) = handle_confirm g s a body
dispatch_signed g s a (refund body) = handle_refund g s a body
dispatch_signed g s a (refund_retry id) = handle_refund_retry g s a id
dispatch_signed g s a (list_payments id) = handle_get_payments a id
dispatch_signed g s a unknown_path = pure (error not_found 404)

abbrev answer_payments : Db × Outcome Reply → Db × Reply
answer_payments (db, r) = (db, to_reply r)

-- The default webhook comes before `requireAuth`, and is the mock provider's.
unfoldable pub serve_payments : Gateway → Settings → PaymentsRequest → Db → Db × Reply
serve_payments g s (webhook payload signature) db =
    answer_payments (handle_webhook_route g mock payload signature db)
serve_payments g s (signed none req) db = (db, error unauthorized 401)
serve_payments g s (signed (some a) req) db = answer_payments (dispatch_signed g s a req db)
