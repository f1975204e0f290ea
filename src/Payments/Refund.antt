-- ===== src/Payments/Refund.antt =====
-- `_handleRefundSucceeded` and `_handleRefundFailed` of eventProcessor.js.
use terravoy_backend.Prelude.{
  ℕ, Bool, not, ◌&&◌, ◌||◌, ◌==◌, Option, none, some, List, if◌then◌else◌, find, is_some,
  first_some,
}
use terravoy_backend.Store.Rows.{Refund, succeeded, failed, refunded, Event, provider_eq}
use terravoy_backend.Store.Table.{update}
use terravoy_backend.Store.Db.{
  Db, M, exception, pure, gets, throw_if, modify_db, transaction, ◌>>=◌, ◌>>◌,
}
use terravoy_backend.Orders.View.{set_order}
use terravoy_backend.Payments.Event.{sql_eq, is_processing, or_throw, set_event}

abbrev pub refund_id : Refund → ℕ
refund_id r = r.id

-- The refund that the provider names or one that it is still processing, whichever is newer.
abbrev pub refund_to_settle : Event → Db → Option Refund
refund_to_settle e db =
    find
      (λ (r : Refund).
        sql_eq r.provider_refund_id e.payload.provider_refund_id
        || provider_eq r.provider e.provider && is_processing r.status)
      db.refunds

abbrev pub set_refund : ℕ → (ℕ → Refund → Refund) → M (Unit {0})
set_refund id f =
    modify_db (λ db. record db { refunds = update refund_id id (f db.now) db.refunds })

-- The unique index on `provider_refund_id`.
abbrev pub taken_elsewhere : ℕ → Option ℕ → List Refund → Bool
taken_elsewhere id name refunds =
    is_some (find (λ (r : Refund). not (r.id == id) && sql_eq r.provider_refund_id name) refunds)

-- JavaScript's `amount || other`: 0 is falsy.
abbrev pub amount_or : Option ℕ → ℕ → ℕ
amount_or none other = other
amount_or (some a) other = if a == 0 then other else a

-- JOIN orders: a refund's `order_id` is a foreign key.
unfoldable pub handle_refund_succeeded : Event → ℕ → M (Unit {0})
handle_refund_succeeded e webhook_event = transaction do
  refund ← λ db. or_throw (refund_to_settle e db) db
  taken ← gets (λ db. taken_elsewhere refund.id e.payload.provider_refund_id db.refunds)
  throw_if taken exception
  set_refund refund.id λ now r. record r {
    status = succeeded;
    processed_at = some now;
    provider_refund_id = e.payload.provider_refund_id;
  }
  set_order refund.order_id λ now o. record o {
    payment_status = refunded;
    refund_status = some succeeded;
    refund_amount = some (amount_or e.payload.amount refund.amount);
    refund_at = some now;
  }
  set_event webhook_event
      λ r. record r { order_id = some refund.order_id; refund_id = some refund.id }

-- No transaction; the two statements are taken to succeed.
abbrev mark_refund_failed : Event → Option Refund → M (Unit {0})
mark_refund_failed e none = pure tt
mark_refund_failed e (some refund) = do
  set_refund refund.id λ now r. record r {
    status = failed;
    last_error = first_some e.payload.error_message e.payload.error_code;
  }
  set_order refund.order_id λ now o. record o { refund_status = some failed }

unfoldable pub handle_refund_failed : Event → M (Unit {0})
handle_refund_failed e = do refund ← gets (refund_to_settle e); mark_refund_failed e refund
