-- ===== src/System.antt =====
-- The server as a whole: what app.js routes to orders, payments and certifications, and what jobs/index.js starts.
-- One event is handled before the next one; `tick` is the time between them.
pub mod CertSteps
pub mod Invariant
use terravoy_backend.Prelude.{ℕ, ◌+◌, Option, List, [], ◌∷◌, none, some}
use terravoy_backend.Store.Rows.{Provider}
use terravoy_backend.Store.CertRows.{Asset}
use terravoy_backend.Certs.Serve.{CertRequest, serve_cert}
use terravoy_backend.Store.Db.{Db, M}
use terravoy_backend.Auth.Authorize.{Actor}
use terravoy_backend.Auth.Host.{clear_approved_host_cache}
use terravoy_backend.Orders.Serve.{OrdersRequest, serve}
use terravoy_backend.Orders.Timeout.{auto_close_unconfirmed}
use terravoy_backend.Payments.Gateway.{Gateway, Settings}
use terravoy_backend.Payments.Intents.{IntentBody, handle_create_intent}
use terravoy_backend.Payments.Confirm.{ConfirmBody, handle_confirm}
use terravoy_backend.Payments.Refunds.{
  RefundBody, handle_refund, handle_refund_retry, handle_get_payments,
}
use terravoy_backend.Payments.Serve.{PaymentsRequest, serve_payments}
use terravoy_backend.Payments.Webhook.{handle_webhook_route}
use terravoy_backend.Payments.Jobs.{
  replay_failed_webhooks, reconcile_succeeded_payments, cleanup_expired_intents,
}

-- `assets_written` is what the media routes leave in `media_assets`. `webhook_call` is the route of the real providers, `/functions/v1/webhooks/payments/:provider`.
pub data ServerEvent : Type 0 where
  orders_call : Option Actor → OrdersRequest → ServerEvent
  payments_call : PaymentsRequest → ServerEvent
  webhook_call : Provider → (payload : ℕ) → (signature : Option ℕ) → ServerEvent
  replay_job : ServerEvent
  reconcile_job : (limit : ℕ) → ServerEvent
  cleanup_job : (cutoff_minutes limit : ℕ) → ServerEvent
  auto_close_job : ServerEvent
  tick : (ms : ℕ) → ServerEvent
  certs_call : CertRequest → ServerEvent
  assets_written : List Asset → ServerEvent

-- The state that an action leaves, whatever it answers.
abbrev pub after : {A : Type 0} → M A → Db → Db
after m db = (m db).0

unfoldable pub handle_event : Gateway → Settings → ServerEvent → Db → Db
handle_event g s (orders_call who req) db = (serve who req db).0
handle_event g s (payments_call req) db = (serve_payments g s req db).0
handle_event g s (webhook_call p payload signature) db =
    after (handle_webhook_route g p payload signature) db
handle_event g s replay_job db = after replay_failed_webhooks db
handle_event g s (reconcile_job limit) db = after (reconcile_succeeded_payments limit) db
handle_event g s (cleanup_job cutoff limit) db = after (cleanup_expired_intents cutoff limit) db
handle_event g s auto_close_job db = after auto_close_unconfirmed db
handle_event g s (tick ms) db = record db { now = db.now + ms }
handle_event g s (certs_call req) db = (serve_cert s.certs req db).0
handle_event g s (assets_written assets) db = record db { assets = assets }

unfoldable pub run : Gateway → Settings → List ServerEvent → Db → Db
run g s [] db = db
run g s (e ∷ es) db = run g s es (handle_event g s e db)
