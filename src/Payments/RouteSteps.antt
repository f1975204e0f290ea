-- ===== src/Payments/RouteSteps.antt =====
-- routes/payments.js and jobs/payments.js, as steps of `Orders/Step.antt`.
use terravoy_backend.Prelude.{
  ℕ, ◌+◌, refl, Bool, true, false, Option, none, some, List, [], ◌∷◌, arith,
}
use terravoy_backend.Store.Rows.{
  Order, Intent, Payment, Refund, Attempt, TxnStatus, Provider, Event, processing, refunding,
  failed,
}
use terravoy_backend.Store.Db.{M, Reply}
use terravoy_backend.Auth.Authorize.{Actor}
use terravoy_backend.Orders.View.{set_order}
use terravoy_backend.Orders.Steps.{
  Steps, Steps-Untouched, Steps-pure, Steps-gets, Steps-set_order, Steps-bind,
}
use terravoy_backend.Payments.Refund.{set_refund}
use terravoy_backend.Payments.Gateway.{
  Gateway, Settings, IntentCreated, IntentConfirmed, RefundAnswer,
}
use terravoy_backend.Payments.Webhook.{Stored, is_new, is_duplicate, store_event, attempt}
use terravoy_backend.Payments.Intents.{
  IntentBody, finish_sync, process_new, process_sync_event, insert_intent, open_intent,
  handle_create_intent,
}
use terravoy_backend.Payments.Confirm.{
  ConfirmBody, sync_event, insert_attempt, settle_now, confirm_with, confirm_unless_paid,
  handle_confirm,
}
use terravoy_backend.Payments.Refunds.{
  RefundBody, insert_refund, mark_refunding, record_answer, settle_refund, refund_payment,
  handle_refund, retry_refund, retry_unless_succeeded, handle_refund_retry, handle_get_payments,
}
use terravoy_backend.Payments.Jobs.{
  after_reconcile, reconcile_row, reconcile_payment_row, reconcile_rows,
  reconcile_succeeded_payments, record_attempt, fail_attempt, expire_intent, expire_intents,
  cleanup_expired_intents,
}
use terravoy_backend.Payments.Process.{process_event}
use terravoy_backend.Payments.Steps.{payment_rules}

Steps-finish_sync : (threw : Bool) (row : ℕ) → Steps (finish_sync threw row)
Steps-finish_sync true row = search payment_rules
Steps-finish_sync false row = search payment_rules

Steps-process_new : (e : Event) (s : Stored) → Steps (process_new e s)
Steps-process_new e is_duplicate = Steps-pure _
Steps-process_new e (is_new row) =
    Steps-bind (attempt (process_event e row)) _ (search payment_rules)
      (λ threw. Steps-finish_sync threw row)

Steps-process_sync_event : (e : Event) → Steps (process_sync_event e)
unfolding process_sync_event
Steps-process_sync_event e =
    Steps-bind (store_event e.provider e) _ (search payment_rules) (Steps-process_new e)

Steps-insert_intent :
    (o : Order) (p : Provider) (amount : ℕ) (b : IntentBody) (made : IntentCreated)
    → Steps (insert_intent o p amount b made)
unfolding insert_intent
Steps-insert_intent o p amount b made = Steps-Untouched (λ db. ground arith)

Steps-name_intent :
    (id intent : ℕ) → Steps (set_order id λ now o. record o { payment_intent_id = some intent })
Steps-name_intent id intent =
    Steps-set_order id (λ now o. record o { payment_intent_id = some intent })
      (λ now r. omega arith) (λ now r. (refl, λ v. ground arith))

Steps-open_intent :
    (g : Gateway) (s : Settings) (o : Order) (amount : ℕ) (b : IntentBody) (i : Option Intent)
    → Steps (open_intent g s o amount b i)
unfolding open_intent
Steps-open_intent g s o amount b (some i) = Steps-pure _
Steps-open_intent g s o amount b none =
    search (payment_rules, Steps-insert_intent, Steps-name_intent) depth 40

-- Creating an intent.
pub Steps-handle_create_intent :
    (g : Gateway) (s : Settings) (a : Actor) (b : IntentBody) → Steps (handle_create_intent g s a b)
unfolding handle_create_intent
Steps-handle_create_intent g s a b = search (payment_rules, Steps-open_intent) depth 40

Steps-insert_attempt : (row : Attempt) → Steps (insert_attempt row)
Steps-insert_attempt row = Steps-Untouched (λ db. ground arith)

Steps-settle_now :
    (i : Intent) (p : Provider) (r : IntentConfirmed) (code : ℕ) (s : Option TxnStatus)
    → Steps (settle_now i p r code s)
Steps-settle_now i p r code none = Steps-pure _
Steps-settle_now i p r code (some s) =
    Steps-bind _ _ (Steps-gets (λ db. db.now))
      (λ now. Steps-process_sync_event (sync_event i p r code now s))

Steps-confirm_with :
    (g : Gateway) (s : Settings) (a : Actor) (me : ℕ) (b : ConfirmBody) (i : Intent) (o : Order)
    → Steps (confirm_with g s a me b i o)
unfolding confirm_with
Steps-confirm_with g s a me b i o =
    search (payment_rules, Steps-insert_attempt, Steps-settle_now) depth 40

Steps-confirm_unless_paid :
    (b : Bool) (i : Intent) (o : Order) (m : M Reply)
    → Steps m
    → Steps (confirm_unless_paid b i o m)
Steps-confirm_unless_paid true i o m h = Steps-pure _
Steps-confirm_unless_paid false i o m h = h

-- Confirming an intent.
pub Steps-handle_confirm :
    (g : Gateway) (s : Settings) (a : Actor) (b : ConfirmBody) → Steps (handle_confirm g s a b)
unfolding handle_confirm
Steps-handle_confirm g s a b =
    search (payment_rules, Steps-confirm_with, Steps-confirm_unless_paid) depth 40

Steps-set_refund : (id : ℕ) (f : ℕ → Refund → Refund) → Steps (set_refund id f)
Steps-set_refund id f = Steps-Untouched (λ db. ground arith)

Steps-mark_refunding : (id : ℕ) → Steps (mark_refunding id)
Steps-mark_refunding id =
    Steps-set_order id
      (λ now o. record o { refund_status = some processing; payment_status = refunding })
      (λ now r. omega arith) (λ now r. (refl, λ v. ground arith))

Steps-record_answer : (id : ℕ) (s : TxnStatus) (n : Option ℕ) → Steps (record_answer id s n)
Steps-record_answer id s n = search (payment_rules, Steps-set_refund) depth 20

Steps-settle_refund :
    (s : Settings) (refund amount : ℕ) (p : Payment) (r : RefundAnswer)
    → Steps (settle_refund s refund amount p r)
Steps-settle_refund s refund amount p r = search (payment_rules, Steps-process_sync_event) depth 20

Steps-insert_refund : (r : Refund) → Steps (insert_refund r)
Steps-insert_refund r = Steps-Untouched (λ db. ground arith)

Steps-refund_payment :
    (g : Gateway) (s : Settings) (a : Actor) (me id : ℕ) (b : RefundBody) (p : Payment)
    → Steps (refund_payment g s a me id b p)
unfolding refund_payment
Steps-refund_payment g s a me id b p =
    search
      (
        payment_rules, Steps-insert_refund, Steps-record_answer, Steps-settle_refund,
        Steps-mark_refunding,
      )
      depth 40

-- Asking for a refund.
pub Steps-handle_refund :
    (g : Gateway) (s : Settings) (a : Actor) (b : RefundBody) → Steps (handle_refund g s a b)
unfolding handle_refund
Steps-handle_refund g s a b = search (payment_rules, Steps-refund_payment) depth 40

Steps-retry_refund : (g : Gateway) (s : Settings) (r : Refund) → Steps (retry_refund g s r)
unfolding retry_refund
Steps-retry_refund g s r =
    search (payment_rules, Steps-record_answer, Steps-set_refund, Steps-mark_refunding) depth 40

Steps-retry_unless_succeeded :
    (b : Bool) (r : Refund) (m : M Reply) → Steps m → Steps (retry_unless_succeeded b r m)
Steps-retry_unless_succeeded true r m h = Steps-pure _
Steps-retry_unless_succeeded false r m h = h

-- Retrying a refund.
pub Steps-handle_refund_retry :
    (g : Gateway) (s : Settings) (a : Actor) (id : Option ℕ) → Steps (handle_refund_retry g s a id)
unfolding handle_refund_retry
Steps-handle_refund_retry g s a id =
    search (payment_rules, Steps-retry_refund, Steps-retry_unless_succeeded) depth 40

pub Steps-handle_get_payments : (a : Actor) (id : Option ℕ) → Steps (handle_get_payments a id)
unfolding handle_get_payments
Steps-handle_get_payments a id = search payment_rules depth 40

Steps-after_reconcile :
    (threw : Bool) (row payment : ℕ) (counts : ℕ × ℕ)
    → Steps (after_reconcile threw row payment counts)
Steps-after_reconcile false row payment (a, b) = search payment_rules depth 20
Steps-after_reconcile true row payment (a, b) = search payment_rules depth 20

Steps-reconcile_row :
    (e : Event) (payment : ℕ) (row : Option ℕ) (counts : ℕ × ℕ)
    → Steps (reconcile_row e payment row counts)
Steps-reconcile_row e payment none counts = Steps-pure counts
Steps-reconcile_row e payment (some row) counts =
    search (payment_rules, Steps-after_reconcile) depth 20

Steps-reconcile_payment_row :
    (p : Payment × Option ℕ) (counts : ℕ × ℕ) → Steps (reconcile_payment_row p counts)
unfolding reconcile_payment_row
Steps-reconcile_payment_row p counts = search (payment_rules, Steps-reconcile_row) depth 20

Steps-reconcile_rows :
    (ps : List (Payment × Option ℕ)) (counts : ℕ × ℕ) → Steps (reconcile_rows ps counts)
unfolding reconcile_rows
Steps-reconcile_rows [] counts = Steps-pure counts
Steps-reconcile_rows (p ∷ ps) counts =
    Steps-bind _ _ (Steps-reconcile_payment_row p counts) (λ next. Steps-reconcile_rows ps next)

-- The reconciliation of payments.
pub Steps-reconcile_succeeded_payments : (limit : ℕ) → Steps (reconcile_succeeded_payments limit)
unfolding reconcile_succeeded_payments
Steps-reconcile_succeeded_payments limit = search (payment_rules, Steps-reconcile_rows) depth 20

Steps-record_expiry : (a : Attempt) → Steps (record_attempt a)
Steps-record_expiry a = Steps-Untouched (λ db. ground arith)

Steps-fail_attempt : (id : ℕ) → Steps (fail_attempt id)
Steps-fail_attempt id =
    Steps-set_order id
      (λ now o. record o {
        last_payment_attempt_status = some failed;
        last_payment_attempt_at = some now;
      })
      (λ now r. omega arith) (λ now r. (refl, λ v. ground arith))

Steps-expire_intent : (i : Intent) → Steps (expire_intent i)
unfolding expire_intent
Steps-expire_intent i = search (payment_rules, Steps-record_expiry, Steps-fail_attempt) depth 20

Steps-expire_intents : (is : List Intent) (n : ℕ) → Steps (expire_intents is n)
unfolding expire_intents
Steps-expire_intents [] n = Steps-pure n
Steps-expire_intents (i ∷ is) n =
    Steps-bind _ _ (Steps-expire_intent i) (λ u. Steps-expire_intents is (n + 1))

-- The expiry of intents.
pub Steps-cleanup_expired_intents :
    (cutoff limit : ℕ) → Steps (cleanup_expired_intents cutoff limit)
unfolding cleanup_expired_intents
Steps-cleanup_expired_intents cutoff limit = search (payment_rules, Steps-expire_intents) depth 20
