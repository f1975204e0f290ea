-- ===== src/Orders/Effect.antt =====
-- What `handleAccept`, `handleReject` and `handleCancel` of routes/orders.js do to the orders and
-- their log.
use terravoy_backend.Prelude.{ℕ, ◌≡◌, ◌⊎◌, true, false, Option, none, some, arith}
use terravoy_backend.Store.Rows.{
  Order, OrderStatus, Party, StatusLog, LogReason, UserId, uuid, confirmed, cancelled_refunded,
  cancelled_by_traveler, host_party, traveler_party,
}
use terravoy_backend.Store.Table.{by_key}
use terravoy_backend.Store.Db.{Db}
use terravoy_backend.Auth.Authorize.{Actor, authorize}
use terravoy_backend.Auth.Profile.{ensure_profile}
use terravoy_backend.Auth.Host.{require_approved_host}
use terravoy_backend.Orders.View.{
  order_id, find_order, reply_order, is_paid, is_pending, is_in_service, is_completed,
  payment_once_cancelled,
}
use terravoy_backend.Orders.Accept.{handle_accept, handle_reject, handle_cancel}
use terravoy_backend.Orders.Step.{Untouched, Moved}

-- The profile id of a user, which is the uuid; the other users have none.
abbrev pub profile_of : UserId → Option ℕ
profile_of (uuid u) = some u
profile_of _ = none

-- The line that a handler logs for an order that it found.
abbrev pub log_of : Actor → Order → OrderStatus → Party → Option LogReason → ℕ → StatusLog
log_of a o s by reason id = record {
  order_id = id;
  from_status = some o.status;
  to_status = s;
  actor_id = profile_of a.user_id;
  actor_role = by;
  reason = reason;
}

module _ (a : Actor) (id : ℕ) (db : Db) where
  pub accept_missing : by_key order_id id db.orders ≡ none → Untouched db (handle_accept a id db).0
  unfolding handle_accept ensure_profile find_order authorize require_approved_host reply_order
  accept_missing h = ground arith

  pub accept_effect :
      (o : Order)
      → by_key order_id id db.orders ≡ some o
      → Untouched db (handle_accept a id db).0
        ⊎ ((is_paid o.payment_status ≡ true)
            × (is_pending o.status ≡ true)
            × Moved id
                (λ r. record r { status = confirmed; confirmed_at = some db.now })
                (log_of a o confirmed host_party none id)
                db
                (handle_accept a id db).0)
  unfolding handle_accept ensure_profile find_order authorize require_approved_host reply_order
  accept_effect o h = ground arith

  pub reject_missing :
      (w : Option LogReason)
      → by_key order_id id db.orders ≡ none
      → Untouched db (handle_reject a id w db).0
  unfolding handle_reject ensure_profile find_order authorize require_approved_host reply_order
  reject_missing w h = ground arith

  pub reject_effect :
      (w : Option LogReason) (o : Order)
      → by_key order_id id db.orders ≡ some o
      → Untouched db (handle_reject a id w db).0
        ⊎ ((is_pending o.status ≡ true)
            × Moved id
                (λ r. record r {
                  status = cancelled_refunded;
                  payment_status = payment_once_cancelled o.payment_status;
                  cancelled_at = some db.now;
                  cancelled_by = some host_party;
                  cancelled_reason = w;
                })
                (log_of a o cancelled_refunded host_party w id)
                db
                (handle_reject a id w db).0)
  unfolding handle_reject ensure_profile find_order authorize require_approved_host reply_order
  reject_effect w o h = ground arith

  pub cancel_missing :
      (w : Option LogReason)
      → by_key order_id id db.orders ≡ none
      → Untouched db (handle_cancel a id w db).0
  unfolding handle_cancel ensure_profile find_order authorize require_approved_host reply_order
  cancel_missing w h = ground arith

  pub cancel_effect :
      (w : Option LogReason) (o : Order)
      → by_key order_id id db.orders ≡ some o
      → Untouched db (handle_cancel a id w db).0
        ⊎ ((is_completed o.status ≡ false)
            × (is_in_service o.status ≡ false)
            × Moved id
                (λ r. record r {
                  status = cancelled_by_traveler;
                  payment_status = payment_once_cancelled o.payment_status;
                  cancelled_at = some db.now;
                  cancelled_by = some traveler_party;
                  cancelled_reason = w;
                })
                (log_of a o cancelled_by_traveler traveler_party w id)
                db
                (handle_cancel a id w db).0)
  unfolding handle_cancel ensure_profile find_order authorize require_approved_host reply_order
  cancel_effect w o h = ground arith
