-- ===== src/Payments/Refunds.antt =====
-- `handleRefund`, `handleRefundRetry` and `handleGetPayments` of server/src/routes/payments.js.
use terravoy_backend.Prelude.{
  ℕ, ◌+◌, Bool, true, false, not, ◌&&◌, ◌==◌, Option, none, some, ◌∷◌, if◌then◌else◌, find, is_some,
  or_else, first_some, select,
}
use terravoy_backend.Store.Rows.{
  Payment, Refund, TxnStatus, requested, processing, succeeded, failed, Event, refund_succeeded,
  refund_failed, sync_refund, PaymentStatus, paid, refunded, refunding, Role, EventType, Intent,
  Attempt,
}
use terravoy_backend.Store.Table.{by_key}
use terravoy_backend.Store.Db.{
  Db, M, Reply, ok, error, refund_data, payment_rows, invalid_input, invalid_status, invalid_state,
  not_found, exception, pure, throw_if, gets, reply_if, or_reply, modify_db, ◌>>=◌, ◌>>◌,
}
use terravoy_backend.Auth.Authorize.{Actor, no_resource, payments_refund, orders_detail, authorize}
use terravoy_backend.Auth.Profile.{ensure_profile}
use terravoy_backend.Orders.View.{order_id, find_order, set_order}
use terravoy_backend.Orders.Service.{both_sides}
use terravoy_backend.Payments.Event.{or_throw, sql_eq}
use terravoy_backend.Payments.Refund.{refund_id, set_refund, amount_or, taken_elsewhere}
use terravoy_backend.Payments.Gateway.{
  Gateway, Settings, RefundAnswer, from_answer, get_provider, get_active_provider,
}
use terravoy_backend.Payments.Intents.{truthy, process_sync_event}
use terravoy_backend.Payments.Confirm.{is_succeeded, is_final}

-- A `reason` of `none` stands for the default `requested_by_user`.
pub record RefundBody : Type 0 where
  pub order_id : Option ℕ
  pub amount : Option ℕ
  pub reason : Option ℕ
  pub idempotency_key : Option ℕ

-- PAID or REFUNDED.
abbrev pub may_be_refunded : PaymentStatus → Bool
may_be_refunded paid = true
may_be_refunded refunded = true
may_be_refunded _ = false

-- The newest successful payment of an order.
abbrev pub paid_by : ℕ → Payment → Bool
paid_by order_id p = p.order_id == order_id && is_succeeded p.status

abbrev pub successful_payment : ℕ → Db → Option Payment
successful_payment order_id db = find (paid_by order_id) db.payments

-- `normalizedStatus` of both handlers.
abbrev pub normalized_refund : Settings → TxnStatus → TxnStatus
normalized_refund settings status =
    if settings.webhook_only && is_final status then processing else status

abbrev new_refund : (id order_id amount me : ℕ) → Payment → RefundBody → Role → Refund
new_refund id order_id amount me payment body role = record {
  id = id;
  order_id = order_id;
  payment_id = some payment.id;
  intent_id = payment.intent_id;
  provider = payment.provider;
  provider_refund_id = none;
  status = requested;
  amount = amount;
  currency = payment.currency;
  reason = body.reason;
  idempotency_key = body.idempotency_key;
  requested_by = me;
  requested_role = role;
  processed_at = none;
  last_error = none;
}

-- The unique index on (order_id, idempotency_key).
abbrev key_taken : (order_id : ℕ) → Option ℕ → Db → Bool
key_taken order_id key db =
    is_some
      (find (λ (r : Refund). r.order_id == order_id && sql_eq r.idempotency_key key) db.refunds)

abbrev refund_type : TxnStatus → EventType
refund_type succeeded = refund_succeeded
refund_type _ = refund_failed

abbrev refund_error : TxnStatus → Option ℕ → ℕ → Option ℕ
refund_error failed given default = some (or_else given default)
refund_error _ given default = none

-- `SYNC_REFUND_FAILED` and `Refund failed` are the numbers 2 and 3.
abbrev pub refund_event : (refund amount now : ℕ) → Payment → RefundAnswer → Event
refund_event refund amount now payment result = record {
  event_id = sync_refund refund now;
  type = refund_type result.status;
  provider = payment.provider;
  payload = record {
    provider_intent_id = none;
    provider_txn_id = payment.provider_txn_id;
    provider_refund_id = result.provider_refund_id;
    amount = some amount;
    currency = some payment.currency;
    error_code = refund_error result.status result.error_code 2;
    error_message = refund_error result.status result.error_message 3;
  };
}

-- Settled at once only if not just webhooks may settle.
abbrev pub settle_refund : Settings → (refund amount : ℕ) → Payment → RefundAnswer → M (Unit {0})
settle_refund settings refund amount payment result = do
  now ← gets (λ db. db.now)
  if not settings.webhook_only && is_final result.status
      then process_sync_event (refund_event refund amount now payment result)
      else pure tt

-- `update refunds set status, provider_refund_id`, under the unique index on the latter.
abbrev pub record_answer : ℕ → TxnStatus → Option ℕ → M (Unit {0})
record_answer id status name = do
  taken ← gets (λ db. taken_elsewhere id name db.refunds)
  throw_if taken exception
  set_refund id λ now r. record r { status = status; provider_refund_id = name }

-- `refund_status='processing', payment_status='REFUNDING'`
abbrev pub mark_refunding : ℕ → M (Unit {0})
mark_refunding id =
    set_order id λ now o. record o { refund_status = some processing; payment_status = refunding }

abbrev pub insert_refund : Refund → M (Unit {0})
insert_refund r =
    modify_db λ db. record db { refunds = r ∷ db.refunds; next_refund = db.next_refund + 1 }

-- From the refund record on. `getProvider` has no fallback here: an unknown provider throws.
unfoldable pub refund_payment :
    Gateway → Settings → Actor → (me order_id : ℕ) → RefundBody → Payment → M Reply
refund_payment g settings actor me order_id body payment = do
  let amount = amount_or body.amount payment.amount
  id ← gets (λ db. db.next_refund)
  taken ← gets (key_taken order_id body.idempotency_key)
  throw_if taken exception
  insert_refund (new_refund id order_id amount me payment body actor.role)
  provider ← or_throw (get_provider payment.provider)
  result ← from_answer (g.refund provider payment.provider_txn_id amount)
  let status = normalized_refund settings result.status
  record_answer id status result.provider_refund_id
  settle_refund settings id amount payment result
  mark_refunding order_id
  pure (ok (refund_data id status) 200)

unfoldable pub handle_refund : Gateway → Settings → Actor → RefundBody → M Reply
unfolding refund_payment
handle_refund g settings actor body = do
  id ← or_reply (truthy body.order_id) (error invalid_input 400)
  me ← ensure_profile actor.user_id
  order ← find_order id
  authorize actor.role me payments_refund (record no_resource { host_id = some order.host_id })
  reply_if (not (may_be_refunded order.payment_status)) (error invalid_status 400)
  payment ← λ db. or_reply (successful_payment id db) (error invalid_state 400) db
  refund_payment g settings actor me id body payment

-- The retry, for a refund that has not succeeded.
unfoldable pub retry_refund : Gateway → Settings → Refund → M Reply
retry_refund g settings refund = do
  payment ← λ db.
      or_reply (find (λ (p : Payment). sql_eq (some p.id) refund.payment_id) db.payments)
        (error invalid_state 400) db
  let provider = or_else (get_provider refund.provider) (get_active_provider settings.provider)
  result ← from_answer (g.refund provider payment.provider_txn_id refund.amount)
  let status = normalized_refund settings result.status
  record_answer refund.id status (first_some result.provider_refund_id refund.provider_refund_id)
  set_refund refund.id λ now r. record r { last_error = none }
  mark_refunding refund.order_id
  pure (ok (refund_data refund.id status) 200)

abbrev pub retry_unless_succeeded : Bool → Refund → M Reply → M Reply
retry_unless_succeeded true refund m = pure (ok (refund_data refund.id refund.status) 200)
retry_unless_succeeded false refund m = m

unfoldable pub handle_refund_retry : Gateway → Settings → Actor → (id : Option ℕ) → M Reply
unfolding retry_refund
handle_refund_retry g settings actor refund = do
  id ← or_reply (truthy refund) (error invalid_input 400)
  refund ← λ db. or_reply (by_key refund_id id db.refunds) (error not_found 404) db
  order ← find_order refund.order_id
  me ← ensure_profile actor.user_id
  authorize actor.role me payments_refund (record no_resource { host_id = some order.host_id })
  retry_unless_succeeded (is_succeeded refund.status) refund (retry_refund g settings refund)

unfoldable pub handle_get_payments : Actor → (id : Option ℕ) → M Reply
handle_get_payments actor order = do
  id ← or_reply (truthy order) (error invalid_input 400)
  me ← ensure_profile actor.user_id
  order ← find_order id
  authorize actor.role me orders_detail (both_sides order)
  intents ← gets (λ db. select (λ (r : Intent). r.order_id == id) db.intents)
  attempts ← gets (λ db. select (λ (r : Attempt). r.order_id == id) db.attempts)
  payments ← gets (λ db. select (λ (r : Payment). r.order_id == id) db.payments)
  refunds ← gets (λ db. select (λ (r : Refund). r.order_id == id) db.refunds)
  pure (ok (payment_rows intents attempts payments refunds) 200)
