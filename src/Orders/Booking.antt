-- ===== src/Orders/Booking.antt =====
-- `handleCreate` of routes/orders.js, called twice.
use terravoy_backend.Prelude.{ℕ, ◌≡◌, arith, Option-cases, inl, inr, ==_refl}
use terravoy_backend.Store.Db.{Db, value, Reply}
use terravoy_backend.Auth.Authorize.{Actor, authorize}
use terravoy_backend.Auth.Profile.{ensure_profile}
use terravoy_backend.Orders.View.{reply_order}
use terravoy_backend.Orders.Create.{CreateBody, required, handle_create}
use terravoy_backend.Orders.Effect.{profile_of}

-- A traveler books a slot once: when a call that creates an order has answered with success, the
-- same body sent again by the same actor changes neither the orders nor their log.
pub create_again :
    (a : Actor) (body : CreateBody) (order_no order_no' : ℕ) (db : Db) (r : Reply)
    → (handle_create a body order_no db).1 ≡ value r
    → (((handle_create a body order_no' (handle_create a body order_no db).0).0).orders
        ≡ ((handle_create a body order_no db).0).orders)
      × (((handle_create a body order_no' (handle_create a body order_no db).0).0).order_logs
          ≡ ((handle_create a body order_no db).0).order_logs)
unfolding handle_create ensure_profile authorize reply_order
create_again a body order_no order_no' db r h = elim (Option-cases (required body)) [
  | inl n ↦ ground arith
  | inr (b, n) ↦ elim (Option-cases (profile_of a.user_id)) [
    | inl m ↦ ground arith
    | inr (me, m) ↦ elim (Option-cases (profile_of b.host_id)) [
      | inl k ↦ ground arith
      | inr (it, k) ↦
          ground (arith, ==_refl me, ==_refl it, ==_refl b.experience_id, ==_refl b.start_time)
    ]
  ]
]
