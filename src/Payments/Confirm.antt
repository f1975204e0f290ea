-- ===== src/Payments/Confirm.antt =====
-- `handleConfirm` of server/src/routes/payments.js.
use terravoy_backend.Prelude.{
  ℕ, Bool, true, false, not, ◌&&◌, ◌||◌, ◌==◌, Option, none, some, ◌∷◌, if◌then◌else◌, find,
  is_some, or_else,
}
use terravoy_backend.Store.Rows.{
  Intent, Attempt, TxnStatus, processing, succeeded, failed, Provider, mock, Event, EventType,
  payment_succeeded, payment_failed, sync_payment, Order,
}
use terravoy_backend.Store.Table.{by_key}
use terravoy_backend.Store.Db.{
  M, Reply, ok, error, confirm_data, invalid_input, not_found, forbidden, pure, gets, reply_if,
  or_reply, modify_db, ◌>>=◌, ◌>>◌,
}
use terravoy_backend.Auth.Authorize.{Actor, no_resource, payments_confirm, authorize}
use terravoy_backend.Auth.Profile.{ensure_profile}
use terravoy_backend.Orders.View.{find_order, is_paid}
use terravoy_backend.Payments.Event.{intent_id, set_intent, sql_eq}
use terravoy_backend.Payments.Gateway.{
  Gateway, Settings, IntentConfirmed, from_answer, get_provider, get_active_provider,
}
use terravoy_backend.Payments.Intents.{truthy, process_sync_event}

-- `body.simulate`, which the mock provider reads.
pub data Simulate : Type 0 where
  simulate_failed simulate_requires_action no_simulate : Simulate

abbrev simulate_code : Simulate → Option ℕ
simulate_code simulate_failed = some 1
simulate_code simulate_requires_action = some 2
simulate_code no_simulate = none

pub record ConfirmBody : Type 0 where
  pub intent_id : Option ℕ
  pub simulate : Simulate
  pub idempotency_key : Option ℕ

abbrev pub is_succeeded : TxnStatus → Bool
is_succeeded succeeded = true
is_succeeded _ = false

abbrev pub is_failed : TxnStatus → Bool
is_failed failed = true
is_failed _ = false

abbrev pub is_final : TxnStatus → Bool
is_final s = is_succeeded s || is_failed s

-- `mockDesiredStatus`, without `requires_action`: what the mock provider is made to settle at once.
abbrev pub mock_settles : Provider → Simulate → Option TxnStatus
mock_settles mock simulate_failed = some failed
mock_settles mock no_simulate = some succeeded
mock_settles _ _ = none

abbrev type_for : TxnStatus → EventType
type_for succeeded = payment_succeeded
type_for _ = payment_failed

-- The error code that fills in, as the number of a text: `MOCK_DECLINED` is 0 where the mock
-- provider's status is settled, and `SYNC_FAILED` is 6 where the answer's is.
abbrev default_error_code : Option TxnStatus → ℕ
default_error_code none = 6
default_error_code (some s) = 0

-- `Payment failed`
abbrev default_error_message : ℕ
default_error_message = 1

-- `failed` events carry an error; `||` fills what the provider left out.
abbrev error_for : TxnStatus → Option ℕ → ℕ → Option ℕ
error_for failed given default = some (or_else given default)
error_for _ given default = none

abbrev pub sync_event :
    Intent → Provider → IntentConfirmed → (default_code now : ℕ) → TxnStatus → Event
sync_event i provider result default_code now status = record {
  event_id = sync_payment i.id now;
  type = type_for status;
  provider = provider;
  payload = record {
    provider_intent_id = i.provider_intent_id;
    provider_txn_id = result.provider_txn_id;
    provider_refund_id = none;
    amount = some i.amount;
    currency = some i.currency;
    error_code = error_for status result.error_code default_code;
    error_message = error_for status result.error_message default_error_message;
  };
}

-- The status that is settled at once: the mock provider's, or a final one of the provider's answer
-- unless only webhooks may settle.
abbrev pub settles_now : Settings → Option TxnStatus → TxnStatus → Option TxnStatus
settles_now settings (some s) status = some s
settles_now settings none status =
    if not settings.webhook_only && is_final status then some status else none

abbrev pub settle_now :
    Intent → Provider → IntentConfirmed → (default_code : ℕ) → Option TxnStatus → M (Unit {0})
settle_now i provider result default_code none = pure tt
settle_now i provider result default_code (some s) = do
  now ← gets (λ db. db.now)
  process_sync_event (sync_event i provider result default_code now s)

-- `normalizedStatus`
abbrev pub normalized : Settings → Option TxnStatus → TxnStatus → TxnStatus
normalized settings (some s) status = s
normalized settings none status =
    if settings.webhook_only && is_final status then processing else status

-- `ON CONFLICT (intent_id, idempotency_key) … DO NOTHING`
abbrev same_attempt : Attempt → Attempt → Bool
same_attempt row a = a.intent_id == row.intent_id && sql_eq a.idempotency_key row.idempotency_key

abbrev pub insert_attempt : Attempt → M (Unit {0})
insert_attempt row = modify_db λ db.
    if is_some (find (same_attempt row) db.attempts)
    then db
    else record db { attempts = row ∷ db.attempts }

-- From the call of the provider on.
unfoldable pub confirm_with :
    Gateway → Settings → Actor → (me : ℕ) → ConfirmBody → Intent → Order → M Reply
confirm_with g settings actor me body intent order = do
  let provider = or_else (get_provider intent.provider) (get_active_provider settings.provider)
  result ←
      from_answer
        (g.confirm_intent provider intent.provider_intent_id (simulate_code body.simulate))
  insert_attempt (record {
    order_id = order.id;
    intent_id = intent.id;
    provider = provider;
    status = result.status;
    amount = intent.amount;
    currency = intent.currency;
    idempotency_key = body.idempotency_key;
    error_code = none;
    error_message = none;
    actor_id = some me;
    actor_role = some actor.role;
  })
  let desired = mock_settles provider body.simulate
  settle_now intent provider result (default_error_code desired)
      (settles_now settings desired result.status)
  let status = normalized settings desired result.status
  set_intent intent.id λ now i. record i { status = status; updated_at = now }
  pure (ok (confirm_data intent.id status none result.action_data) 200)

-- An intent that has succeeded, or an order that is paid, is answered at once.
abbrev pub confirm_unless_paid : Bool → Intent → Order → M Reply → M Reply
confirm_unless_paid true intent order m =
    pure (ok (confirm_data intent.id succeeded order.paid_at none) 200)
confirm_unless_paid false intent order m = m

unfoldable pub handle_confirm : Gateway → Settings → Actor → ConfirmBody → M Reply
unfolding confirm_with
handle_confirm g settings actor body = do
  id ← or_reply (truthy body.intent_id) (error invalid_input 400)
  me ← ensure_profile actor.user_id
  intent ← λ db. or_reply (by_key intent_id id db.intents) (error not_found 404) db
  order ← find_order intent.order_id
  authorize actor.role me payments_confirm
      (record no_resource { traveler_id = some order.traveler_id })
  reply_if (not (order.traveler_id == me)) (error forbidden 403)
  confirm_unless_paid (is_succeeded intent.status || is_paid order.payment_status) intent order
      (confirm_with g settings actor me body intent order)
