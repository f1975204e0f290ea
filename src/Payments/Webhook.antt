-- ===== src/Payments/Webhook.antt =====
-- server/src/services/payments/webhookHandler.js, and `handleWebhook` of routes/payments.js.
use terravoy_backend.Prelude.{
  ℕ, ◌+◌, Bool, true, false, ◌&&◌, Option, none, some, List, [], ◌∷◌, reverse, take, select, find,
  ltb,
}
use terravoy_backend.Store.Rows.{
  Provider, Event, EventId, EventStatus, event_received, event_processed, event_failed, WebhookRow,
  provider_eq, event_id_eq,
}
use terravoy_backend.Store.Db.{
  Db, M, Outcome, value, thrown, Reply, ok, error, webhook_received, webhook_error, pure, gets,
  ◌>>=◌, ◌>>◌,
}
use terravoy_backend.Payments.Event.{set_event}
use terravoy_backend.Payments.Process.{process_event}
use terravoy_backend.Payments.Gateway.{
  Gateway, Verification, invalid, no_event_id, verified, from_answer, get_provider,
}

abbrev pub same_event : Provider → EventId → WebhookRow → Bool
same_event p id r = provider_eq r.provider p && event_id_eq r.event_id id

-- What `_storeEvent` returns; `dbEventId` of a duplicate is not used.
pub data Stored : Type 0 where
  is_new : (row : ℕ) → Stored
  is_duplicate : Stored

abbrev pub received_row : ℕ → Provider → Event → WebhookRow
received_row id p e = record {
  id = id;
  provider = p;
  event_id = e.event_id;
  event_type = e.type;
  payload = e.payload;
  status = event_received;
  retry_count = 0;
  order_id = none;
  intent_id = none;
  payment_id = none;
  refund_id = none;
}

abbrev store_unless : Option WebhookRow → Provider → Event → M Stored
store_unless (some r) p e db = (db, value is_duplicate)
store_unless none p e db = (
  record db { events = received_row db.next_event p e ∷ db.events; next_event = db.next_event + 1 },
  value (is_new db.next_event),
)

-- `INSERT … ON CONFLICT (provider, event_id) DO NOTHING RETURNING id`
unfoldable pub store_event : Provider → Event → M Stored
store_event p e db = store_unless (find (same_event p e.event_id) db.events) p e db

abbrev pub mark_processed : ℕ → EventStatus → M (Unit {0})
mark_processed id status = set_event id (λ r. record r { status = status })

-- `try { await m } catch …`: whether it threw. What it had written stays.
abbrev pub was_thrown : {A : Type 0} → Outcome A → Bool
was_thrown (thrown e) = true
was_thrown _ = false

abbrev pub attempt : {A : Type 0} → M A → M Bool
attempt m db = let (db', r) = m db in (db', value (was_thrown r))

pub data WebhookResult : Type 0 where
  accepted : EventId → (duplicate : Bool) → WebhookResult
  refused : WebhookResult

-- The statement of `_markProcessed` is taken to succeed.
abbrev pub finish : Bool → EventId → ℕ → M WebhookResult
finish false id row = mark_processed row event_processed >> pure (accepted id false)
finish true id row = mark_processed row event_failed >> pure refused

abbrev pub process_stored : Event → Stored → M WebhookResult
process_stored e is_duplicate = pure (accepted e.event_id true)
process_stored e (is_new row) = do
  threw ← attempt (process_event e row)
  finish threw e.event_id row

-- From the verified event on.
unfoldable pub receive_event : Provider → Event → M WebhookResult
unfolding store_event
receive_event p e = do stored ← store_event p e; process_stored e stored

abbrev pub receive_verified : Provider → Verification → M WebhookResult
receive_verified p invalid = pure refused
receive_verified p no_event_id = pure refused
receive_verified p (verified e) = receive_event p e

abbrev pub with_provider : Gateway → Option Provider → ℕ → Option ℕ → M WebhookResult
with_provider g none payload signature = pure refused
with_provider g (some p) payload signature = do
  v ← from_answer (g.parse_webhook p payload signature)
  receive_verified p v

unfoldable pub handle_webhook : Gateway → Provider → ℕ → Option ℕ → M WebhookResult
handle_webhook g name payload signature = with_provider g (get_provider name) payload signature

abbrev pub webhook_reply : WebhookResult → Reply
webhook_reply refused = error webhook_error 400
webhook_reply (accepted id duplicate) = ok (webhook_received id) 200

unfoldable pub handle_webhook_route : Gateway → Provider → ℕ → Option ℕ → M Reply
unfolding handle_webhook
handle_webhook_route g name payload signature = do
  result ← handle_webhook g name payload signature
  pure (webhook_reply result)

-- The event that a stored row stands for.
abbrev pub event_of : WebhookRow → Event
event_of r = record {
  event_id = r.event_id;
  type = r.event_type;
  provider = r.provider;
  payload = r.payload;
}

abbrev pub is_failed_event : EventStatus → Bool
is_failed_event event_failed = true
is_failed_event _ = false

-- `status = 'failed' and retry_count < $1`
abbrev pub is_retryable : ℕ → WebhookRow → Bool
is_retryable max r = is_failed_event r.status && ltb r.retry_count max

abbrev count_retry : ℕ → M (Unit {0})
count_retry row = set_event row (λ r. record r { retry_count = r.retry_count + 1 })

abbrev pub after_retry : Bool → ℕ → ℕ × ℕ → M (ℕ × ℕ)
after_retry false row (processed, failed) =
    mark_processed row event_processed >> pure (processed + 1, failed)
after_retry true row (processed, failed) = count_retry row >> pure (processed, failed + 1)

unfoldable pub retry_event : WebhookRow → ℕ × ℕ → M (ℕ × ℕ)
retry_event r counts = do
  threw ← attempt (process_event (event_of r) r.id)
  after_retry threw r.id counts

-- The loop over the rows, with the numbers of processed and failed events so far.
unfoldable pub retry_rows : List WebhookRow → ℕ × ℕ → M (ℕ × ℕ)
retry_rows [] counts = pure counts
retry_rows (r ∷ rs) counts = retry_event r counts >>= retry_rows rs

abbrev pub retryable_rows : (max limit : ℕ) → Db → List WebhookRow
retryable_rows max limit db = take limit (reverse (select (is_retryable max) db.events))

unfoldable pub retry_failed_events : (max limit : ℕ) → M (ℕ × ℕ)
unfolding retry_rows retry_event
retry_failed_events max limit = do rows ← gets (retryable_rows max limit); retry_rows rows (0, 0)
