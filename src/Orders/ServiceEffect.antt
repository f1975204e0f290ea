-- ===== src/Orders/ServiceEffect.antt =====
-- What `handleStart`, `handleEnd` and `handleMarkPaid` do to the orders and their log.
use terravoy_backend.Prelude.{ℕ, ◌≡◌, ◌⊎◌, true, false, none, some, arith}
use terravoy_backend.Store.Rows.{
  Order, Party, UserId, uuid, in_service, completed, paid, traveler_party, payment_confirmed,
}
use terravoy_backend.Store.Table.{by_key}
use terravoy_backend.Store.Db.{Db}
use terravoy_backend.Auth.Authorize.{Actor, authorize}
use terravoy_backend.Auth.Profile.{ensure_profile}
use terravoy_backend.Auth.Host.{require_approved_host}
use terravoy_backend.Orders.View.{
  order_id, find_order, reply_order, is_pending_payment, is_confirmed, is_in_service,
  status_once_paid,
}
use terravoy_backend.Orders.Create.{handle_mark_paid}
use terravoy_backend.Orders.Service.{handle_start, handle_end, side_of}
use terravoy_backend.Orders.Step.{Untouched, Moved, Touched}
use terravoy_backend.Orders.Effect.{log_of}

-- The side that a starting or ending actor is logged as.
abbrev pub logged_side : UserId → Order → Party
logged_side (uuid u) o = side_of o u
logged_side _ o = traveler_party

module _ (a : Actor) (id : ℕ) (db : Db) where
  pub start_missing : by_key order_id id db.orders ≡ none → Untouched db (handle_start a id db).0
  unfolding handle_start ensure_profile find_order authorize require_approved_host reply_order
  start_missing h = ground arith

  pub start_effect :
      (o : Order)
      → by_key order_id id db.orders ≡ some o
      → Untouched db (handle_start a id db).0
        ⊎ ((is_confirmed o.status ≡ true)
            × Moved id
                (λ r. record r { status = in_service; started_at = some db.now })
                (log_of a o in_service (logged_side a.user_id o) none id)
                db
                (handle_start a id db).0)
  unfolding handle_start ensure_profile find_order authorize require_approved_host reply_order
  start_effect o h = ground arith

  pub end_missing : by_key order_id id db.orders ≡ none → Untouched db (handle_end a id db).0
  unfolding handle_end ensure_profile find_order authorize require_approved_host reply_order
  end_missing h = ground arith

  pub end_effect :
      (o : Order)
      → by_key order_id id db.orders ≡ some o
      → Untouched db (handle_end a id db).0
        ⊎ ((is_in_service o.status ≡ true)
            × Moved id
                (λ r. record r { status = completed; completed_at = some db.now })
                (log_of a o completed (logged_side a.user_id o) none id)
                db
                (handle_end a id db).0)
  unfolding handle_end ensure_profile find_order authorize require_approved_host reply_order
  end_effect o h = ground arith

  pub mark_paid_missing :
      by_key order_id id db.orders ≡ none → Untouched db (handle_mark_paid a id db).0
  unfolding handle_mark_paid ensure_profile find_order authorize require_approved_host reply_order
  mark_paid_missing h = ground arith

  pub mark_paid_effect :
      (o : Order)
      → by_key order_id id db.orders ≡ some o
      → Untouched db (handle_mark_paid a id db).0
        ⊎ ((is_pending_payment o.status ≡ true)
            × Moved id
                (λ r. record r {
                  payment_status = paid;
                  status = status_once_paid o.status;
                  paid_at = some db.now;
                })
                (log_of a o (status_once_paid o.status) traveler_party (some payment_confirmed) id)
                db
                (handle_mark_paid a id db).0)
        ⊎ ((is_pending_payment o.status ≡ false)
            × Touched id
                (λ r. record r {
                  payment_status = paid;
                  status = status_once_paid o.status;
                  paid_at = some db.now;
                })
                db
                (handle_mark_paid a id db).0)
  unfolding handle_mark_paid ensure_profile find_order authorize require_approved_host reply_order
  mark_paid_effect o h = ground arith
