-- ===== src/Orders/Browse.antt =====
-- `handleMyOrders`, `handleHostOrders` and `handleDetail` of routes/orders.js.
use terravoy_backend.Prelude.{
  ℕ, Bool, true, ◌&&◌, ◌==◌, Option, none, some, List, [], ◌∷◌, map, reverse, select, if◌then◌else◌,
}
use terravoy_backend.Store.Rows.{
  OrderStatus, Order, Party, Review, ServiceLog, host_party, traveler_party, status_code,
}
use terravoy_backend.Store.Db.{
  M, Reply, ok, error, exception, throw, order_list, order_detail, not_found, pure, gets, or_reply,
  ◌>>=◌, ◌>>◌,
}
use terravoy_backend.Auth.Authorize.{Actor, orders_detail, authorize}
use terravoy_backend.Auth.Profile.{ensure_profile}
use terravoy_backend.Orders.View.{attach_review_status, fetch_order}
use terravoy_backend.Orders.Service.{both_sides}
use terravoy_backend.Orders.Reviews.{resolve_review_role, serialize_review}

-- The query parameter `status`: absent or empty, a value of `order_status`, or any other text.
pub data StatusFilter : Type 0 where
  no_filter unknown_status : StatusFilter
  only : OrderStatus → StatusFilter

abbrev status_passes : StatusFilter → OrderStatus → Bool
status_passes (only t) s = status_code s == status_code t
status_passes _ s = true

-- The database refuses to compare `status` with a text that is no value of its type.
abbrev check_filter : StatusFilter → M (Unit {0})
check_filter unknown_status = throw exception
check_filter _ = pure tt

unfoldable pub handle_my_orders : Actor → StatusFilter → M Reply
handle_my_orders actor filter = do
  me ← ensure_profile actor.user_id
  check_filter filter
  rows ← gets λ db.
      map (attach_review_status db none)
        (select (λ (o : Order). o.traveler_id == me && status_passes filter o.status) db.orders)
  pure (ok (order_list rows) 200)

-- `host_id = $1 or host_id = $2`: both parameters are the uuid of the user.
unfoldable pub handle_host_orders : Actor → StatusFilter → M Reply
handle_host_orders actor filter = do
  me ← ensure_profile actor.user_id
  check_filter filter
  rows ← gets λ db.
      map (attach_review_status db none)
        (select (λ (o : Order). o.host_id == me && status_passes filter o.status) db.orders)
  pure (ok (order_list rows) 200)

-- The loop over the reviews, oldest first: a later review of one side replaces an earlier one.
abbrev keep_side :
    Order → Review → Option Party → Option Review × Option Review → Option Review × Option Review
keep_side o r (some traveler_party) (t, h) = (some (serialize_review r o), h)
keep_side o r (some host_party) (t, h) = (t, some (serialize_review r o))
keep_side o r _ (t, h) = (t, h)

unfoldable pub split_reviews :
    Order → List Review → Option Review × Option Review → Option Review × Option Review
split_reviews o [] sides = sides
split_reviews o (r ∷ rs) sides = split_reviews o rs (keep_side o r (resolve_review_role r o) sides)

-- `orderRow.review_visible ? travelerReview : null`
abbrev shown : Bool → Option Review → Option Review
shown visible r = if visible then r else none

unfoldable pub handle_detail : Actor → ℕ → M Reply
unfolding split_reviews
handle_detail actor id = do
  me ← ensure_profile actor.user_id
  view ← λ db. or_reply (fetch_order id db) (error not_found 404) db
  authorize actor.role me orders_detail (both_sides view.order)
  logs ← gets (λ db. reverse (select (λ (l : ServiceLog). l.order_id == id) db.service_logs))
  rows ← gets (λ db. reverse (select (λ (r : Review). r.order_id == id) db.reviews))
  let sides = split_reviews view.order rows (none, none)
  pure (
      ok
        (order_detail view logs (shown view.review_visible sides.0)
          (shown view.review_visible sides.1))
        200)
