-- ===== src/Payments/Steps.antt =====
-- webhookHandler.js, as steps of `Orders/Step.antt`, and the rules for the payment actions.
use terravoy_backend.Prelude.{ℕ, Bool, true, false, Option, none, some, List, [], ◌∷◌, arith}
use terravoy_backend.Store.Rows.{Intent, Event, WebhookRow, Provider, EventId}
use terravoy_backend.Store.Db.{M}
use terravoy_backend.Orders.Steps.{
  Steps, Steps-Untouched, Steps-step, Steps-pure, Steps-gets, Steps-query, Steps-set_order,
  Steps-bind, steps_rules,
}
use terravoy_backend.Payments.Event.{set_event, set_intent, or_throw}
use terravoy_backend.Payments.Process.{process_event}
use terravoy_backend.Payments.Handled.{process_event_step}
use terravoy_backend.Payments.Gateway.{
  Gateway, Answer, answered, raised, from_answer, Verification, invalid, no_event_id, verified,
  get_provider,
}
use terravoy_backend.Payments.Webhook.{
  Stored, is_new, is_duplicate, store_event, attempt, finish, process_stored, receive_event,
  receive_verified, with_provider, handle_webhook_route, retry_event, retry_rows, after_retry,
  retry_failed_events, retryable_rows, event_of,
}

pub Steps-set_event : (id : ℕ) (f : WebhookRow → WebhookRow) → Steps (set_event id f)
Steps-set_event id f = Steps-Untouched (λ db. ground arith)

pub Steps-set_intent : (id : ℕ) (f : ℕ → Intent → Intent) → Steps (set_intent id f)
Steps-set_intent id f = Steps-Untouched (λ db. ground arith)

pub Steps-from_answer : {A : Type 0} (a : Answer A) → Steps (from_answer a)
Steps-from_answer (answered a) = Steps-pure a
Steps-from_answer raised = Steps-Untouched (λ db. ground arith)

pub Steps-or_throw : {A : Type 0} (o : Option A) → Steps (or_throw o)
Steps-or_throw none = Steps-Untouched (λ db. ground arith)
Steps-or_throw (some a) = Steps-pure a

pub Steps-process_event : (e : Event) (w : ℕ) → Steps (process_event e w)
Steps-process_event e w = Steps-step (process_event_step e w)

pub Steps-attempt : {A : Type 0} (m : M A) → Steps m → Steps (attempt m)
Steps-attempt m h = record { at = λ db. h.at db }

pub Steps-store_event : (p : Provider) (e : Event) → Steps (store_event p e)
unfolding store_event
Steps-store_event p e = Steps-Untouched (λ db. ground arith)

pub ruleset payment_rules = (
  steps_rules, Steps-set_event, Steps-set_intent, Steps-from_answer, Steps-or_throw,
  Steps-process_event, Steps-attempt, Steps-store_event,
)

pub Steps-finish : (threw : Bool) (id : EventId) (row : ℕ) → Steps (finish threw id row)
Steps-finish false id row = search payment_rules
Steps-finish true id row = search payment_rules

pub Steps-process_stored : (e : Event) (s : Stored) → Steps (process_stored e s)
Steps-process_stored e is_duplicate = Steps-pure _
Steps-process_stored e (is_new row) =
    Steps-bind (attempt (process_event e row)) _ (search payment_rules)
      (λ threw. Steps-finish threw e.event_id row)

pub Steps-receive_event : (p : Provider) (e : Event) → Steps (receive_event p e)
unfolding receive_event
Steps-receive_event p e =
    Steps-bind (store_event p e) _ (Steps-store_event p e) (λ s. Steps-process_stored e s)

pub Steps-receive_verified : (p : Provider) (v : Verification) → Steps (receive_verified p v)
Steps-receive_verified p invalid = Steps-pure _
Steps-receive_verified p no_event_id = Steps-pure _
Steps-receive_verified p (verified e) = Steps-receive_event p e

pub Steps-with_provider :
    (g : Gateway) (p : Option Provider) (payload : ℕ) (signature : Option ℕ)
    → Steps (with_provider g p payload signature)
Steps-with_provider g none payload signature = Steps-pure _
Steps-with_provider g (some p) payload signature =
    Steps-bind _ _ (Steps-from_answer _) (λ v. Steps-receive_verified p v)

-- A webhook, whatever its provider and body.
pub Steps-handle_webhook_route :
    (g : Gateway) (name : Provider) (payload : ℕ) (signature : Option ℕ)
    → Steps (handle_webhook_route g name payload signature)
unfolding handle_webhook_route
Steps-handle_webhook_route g name payload signature =
    Steps-bind _ _ (Steps-with_provider g (get_provider name) payload signature) (λ r. Steps-pure _)

pub Steps-after_retry :
    (threw : Bool) (row : ℕ) (counts : ℕ × ℕ) → Steps (after_retry threw row counts)
Steps-after_retry false row (a, b) = search payment_rules
Steps-after_retry true row (a, b) = search payment_rules

pub Steps-retry_rows : (rows : List WebhookRow) (counts : ℕ × ℕ) → Steps (retry_rows rows counts)
unfolding retry_rows retry_event
Steps-retry_rows [] counts = Steps-pure counts
Steps-retry_rows (r ∷ rs) counts =
    Steps-bind _ _
      (Steps-bind _ _ (Steps-attempt _ (Steps-process_event (event_of r) r.id))
        (λ threw. Steps-after_retry threw r.id counts))
      (λ next. Steps-retry_rows rs next)

-- The replay of failed webhook events.
pub Steps-retry_failed_events : (max limit : ℕ) → Steps (retry_failed_events max limit)
unfolding retry_failed_events
Steps-retry_failed_events max limit =
    Steps-bind _ _ (Steps-gets (retryable_rows max limit)) (λ rows. Steps-retry_rows rows (0, 0))
