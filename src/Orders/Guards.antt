-- ===== src/Orders/Guards.antt =====
-- What must have held when the orders route changed something, and what a second call does.
use terravoy_backend.Prelude.{
  ℕ, ◌≡◌, ◌≢◌, ◌<◌, ◌⊎◌, inl, inr, refl, true, Option, none, some, ◌∷◌, arith, Option-cases,
  ==_refl, ltb→lt,
}
use terravoy_backend.Store.Rows.{
  Order, UserId, uuid, host, paid, pending_host_confirm, confirmed, host_party,
}
use terravoy_backend.Store.CertRows.{cert_approved, CachedCert}
use terravoy_backend.Store.Table.{by_key, by_key-update}
use terravoy_backend.Store.Db.{Db, value}
use terravoy_backend.Auth.Authorize.{Actor, authorize}
use terravoy_backend.Auth.Profile.{ensure_profile}
use terravoy_backend.Auth.Host.{require_approved_host, cert_status, cached}
use terravoy_backend.Orders.View.{order_id, find_order, reply_order, has_reviewed}
use terravoy_backend.Orders.Effect.{profile_of, log_of}
use terravoy_backend.Orders.Accept.{handle_accept}
use terravoy_backend.Orders.Reviews.{handle_review, review_sides}

module _ (a : Actor) (id : ℕ) (db : Db) (o : Order) where
  -- If accepting an order changes the table of orders in any way, then the actor has the role of a
  -- host and is the host of that order, and the order was paid and waiting for its host.
  pub accept_guard :
      by_key order_id id db.orders ≡ some o
      → ((handle_accept a id db).0).orders ≢ db.orders
      → (a.role ≡ host)
        × (a.user_id ≡ uuid o.host_id)
        × (o.payment_status ≡ paid)
        × (o.status ≡ pending_host_confirm)
  unfolding handle_accept ensure_profile find_order authorize require_approved_host reply_order
  accept_guard found changed = ground arith

-- A host passes the check only if a certification that the table holds now is approved, or an
-- approved answer was cached that is still to expire.
pub host_pass :
    (u : UserId) (db : Db)
    → (require_approved_host u db).1 ≡ value tt
    → (cert_status u db.certs ≡ cert_approved)
      ⊎ ((c : CachedCert) × (cached u db.host_cache ≡ some c)
          × (c.status ≡ cert_approved)
          × (db.now < c.expires_at))
unfolding require_approved_host
host_pass u db h = elim (Option-cases (cached u db.host_cache)) [
  | inl n ↦ inl (ground arith)
  | inr (c, n) ↦ ground (arith, ltb→lt db.now c.expires_at)
]

-- Every review that is saved is of a completed order, and is recorded under its order and writer.
review_recorded :
    (a : Actor) (id : ℕ) (rating comment : Option ℕ) (db : Db)
    → ((handle_review a id rating comment db).0).reviews ≢ db.reviews
    → (me : ℕ) × (a.user_id ≡ uuid me)
      × (has_reviewed id me ((handle_review a id rating comment db).0).reviews ≡ true)
unfolding handle_review ensure_profile find_order authorize review_sides
review_recorded a id rating comment db h = elim (Option-cases (profile_of a.user_id)) [
  | inl n ↦ ground arith
  | inr (me, n) ↦ (me, ground arith, ground (arith, ==_refl id, ==_refl me))
]

review_refused :
    (a : Actor) (id me : ℕ) (rating comment : Option ℕ) (db : Db)
    → a.user_id ≡ uuid me
    → has_reviewed id me db.reviews ≡ true
    → ((handle_review a id rating comment db).0).reviews ≡ db.reviews
unfolding handle_review ensure_profile find_order authorize review_sides
review_refused a id me rating comment db u h = ground arith

-- A user reviews an order once: if a call saved a review, then another call of the same user for
-- the same order right after it, with any rating and text, leaves the reviews as they are.
pub review_once :
    (a : Actor) (id : ℕ) (rating comment rating' comment' : Option ℕ) (db : Db)
    → ((handle_review a id rating comment db).0).reviews ≢ db.reviews
    → ((handle_review a id rating' comment' (handle_review a id rating comment db).0).0).reviews
      ≡ ((handle_review a id rating comment db).0).reviews
review_once a id rating comment rating' comment' db h =
    let (me, u, r) = review_recorded a id rating comment db h in
    review_refused a id me rating' comment' (handle_review a id rating comment db).0 u r

-- The host of a paid order that waits for its host, whose certification is approved and was not
-- cached yet, accepts it: the order is confirmed now and otherwise as it was, and one new line
-- of the log says that this host moved it.
pub accept_confirms :
    (a : Actor) (id : ℕ) (db : Db) (o : Order)
    → by_key order_id id db.orders ≡ some o
    → a.role ≡ host
    → a.user_id ≡ uuid o.host_id
    → cached a.user_id db.host_cache ≡ none
    → cert_status a.user_id db.certs ≡ cert_approved
    → o.payment_status ≡ paid
    → o.status ≡ pending_host_confirm
    → (by_key order_id id ((handle_accept a id db).0).orders
        ≡ some (record o { status = confirmed; confirmed_at = some db.now }))
      × (((handle_accept a id db).0).order_logs
          ≡ log_of a o confirmed host_party none id ∷ db.order_logs)
unfolding handle_accept ensure_profile find_order authorize require_approved_host reply_order
accept_confirms a id db o found r u c s p q = (
  ground (
    arith,
    ==_refl id,
    ==_refl o.host_id,
    by_key-update order_id id id (λ x. record x { status = confirmed; confirmed_at = some db.now })
        db.orders (λ x. refl),
  ),
  ground (arith, ==_refl o.host_id),
)
