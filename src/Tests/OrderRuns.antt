-- ===== src/Tests/OrderRuns.antt =====
-- The orders route on small databases.
use terravoy_backend.Prelude.{◌≡◌, ◌≢◌, ◌<◌, ◌≤◌, ◌+◌, ◌*◌, ◌⊎◌, refl, some, none, [], ◌∷◌, arith}
use terravoy_backend.Store.Rows.{
  paid, refunded, cancelled_refunded, system_party, auto_timeout, pending_host_confirm, confirmed,
  host, uuid, host_party,
}
use terravoy_backend.Store.CertRows.{cert_approved, CachedCert}
use terravoy_backend.Store.Table.{by_key}
use terravoy_backend.Store.Db.{Db, empty_db, value, Reply}
use terravoy_backend.Auth.Authorize.{authorize}
use terravoy_backend.Auth.Profile.{ensure_profile}
use terravoy_backend.Auth.Host.{require_approved_host, cert_status, cached}
use terravoy_backend.Orders.View.{order_id, find_order, reply_order}
use terravoy_backend.Orders.Create.{handle_create}
use terravoy_backend.Orders.Accept.{handle_accept}
use terravoy_backend.Orders.Reviews.{handle_review, review_sides}
use terravoy_backend.Orders.Serve.{accept, serve}
use terravoy_backend.Orders.Timeout.{auto_close_unconfirmed, close_each, close_pending}
use terravoy_backend.Orders.Step.{OrderStep}
use terravoy_backend.Orders.Effect.{log_of}
use terravoy_backend.Orders.Handled.{serve_step}
use terravoy_backend.Orders.Guards.{accept_guard, accept_confirms, host_pass, review_once}
use terravoy_backend.Orders.Booking.{create_again}
use terravoy_backend.Orders.TimeoutDone.{auto_close-IsOnTime}
use terravoy_backend.Orders.TimeoutSpares.{auto_close_spares}
use terravoy_backend.Tests.Samples.{
  traveler_one, host_two, booking_body, paid_booking, awaiting_host, after_service,
}

serve_step_example : OrderStep awaiting_host (serve (some host_two) (accept 1) awaiting_host).0
serve_step_example = serve_step (some host_two) (accept 1) awaiting_host

orders_changed : ((handle_accept host_two 1 awaiting_host).0).orders ≢ awaiting_host.orders
unfolding handle_accept ensure_profile find_order authorize require_approved_host reply_order
orders_changed e = cc

accept_guard_example :
    (host_two.role ≡ host)
    × (host_two.user_id ≡ uuid paid_booking.host_id)
    × (paid_booking.payment_status ≡ paid)
    × (paid_booking.status ≡ pending_host_confirm)
accept_guard_example = accept_guard host_two 1 awaiting_host paid_booking refl orders_changed

accept_confirms_example :
    (by_key order_id 1 ((handle_accept host_two 1 awaiting_host).0).orders
      ≡ some (record paid_booking { status = confirmed; confirmed_at = some 50 }))
    × (((handle_accept host_two 1 awaiting_host).0).order_logs
        ≡ log_of host_two paid_booking confirmed host_party none 1 ∷ awaiting_host.order_logs)
accept_confirms_example =
    accept_confirms host_two 1 awaiting_host paid_booking refl refl refl refl refl refl refl

approved_two : (require_approved_host (uuid 2) awaiting_host).1 ≡ value tt
unfolding require_approved_host
approved_two = refl

host_pass_example :
    (cert_status (uuid 2) awaiting_host.certs ≡ cert_approved)
    ⊎ ((c : CachedCert) × (cached (uuid 2) awaiting_host.host_cache ≡ some c)
        × (c.status ≡ cert_approved)
        × (awaiting_host.now < c.expires_at))
host_pass_example = host_pass (uuid 2) awaiting_host approved_two

review_saved_first :
    ((handle_review traveler_one 1 (some 5) none after_service).0).reviews ≢ after_service.reviews
unfolding handle_review ensure_profile find_order authorize review_sides
review_saved_first e = cc

review_once_example :
    ((handle_review traveler_one 1
      (some 1)
      (some 8)
      (handle_review traveler_one 1 (some 5) none after_service).0).0
    ).reviews
    ≡ ((handle_review traveler_one 1 (some 5) none after_service).0).reviews
review_once_example =
    review_once traveler_one 1 (some 5) none (some 1) (some 8) after_service review_saved_first

created : (r : Reply) × ((handle_create traveler_one booking_body 77 empty_db).1 ≡ value r)
unfolding handle_create ensure_profile authorize reply_order
created = (_, refl)

create_again_example :
    (((handle_create traveler_one booking_body 78
          (handle_create traveler_one booking_body 77 empty_db).0).0
        ).orders
      ≡ ((handle_create traveler_one booking_body 77 empty_db).0).orders)
    × (((handle_create traveler_one booking_body 78
            (handle_create traveler_one booking_body 77 empty_db).0).0
          ).order_logs
        ≡ ((handle_create traveler_one booking_body 77 empty_db).0).order_logs)
create_again_example = create_again traveler_one booking_body 77 78 empty_db created.0 created.1

-- An order that waits for its host for a millisecond too long, and one for exactly twelve hours.
abbrev overdue : Db
overdue = record empty_db {
  now = 43200051;
  orders =
      record paid_booking { created_at = 51; id = 2 }
      ∷ record paid_booking { created_at = 50 }
      ∷ [];
}

closed_late :
    by_key order_id 1 ((auto_close_unconfirmed overdue).0).orders
    ≡ some (record paid_booking {
      created_at = 50;
      status = cancelled_refunded;
      payment_status = refunded;
      cancelled_at = some 43200051;
      cancelled_by = some system_party;
      cancelled_reason = some auto_timeout;
    })
unfolding auto_close_unconfirmed close_each close_pending
closed_late = refl

kept_on_time :
    by_key order_id 2 ((auto_close_unconfirmed overdue).0).orders
    ≡ some (record paid_booking { created_at = 51; id = 2 })
unfolding auto_close_unconfirmed close_each close_pending
kept_on_time = refl

auto_close-IsOnTime_example : 43200051 ≤ 51 + 12 * 60 * 60 * 1000
auto_close-IsOnTime_example =
    auto_close-IsOnTime overdue 2 (record paid_booking { created_at = 51; id = 2 }) kept_on_time

auto_close_spares_example :
    by_key order_id 2 ((auto_close_unconfirmed overdue).0).orders
    ≡ some (record paid_booking { created_at = 51; id = 2 })
auto_close_spares_example =
    auto_close_spares overdue 2 (record paid_booking { created_at = 51; id = 2 }) (refl, (refl, tt))
      refl (omega arith)
