-- ===== src/Orders/Reviews.antt =====
-- `handleReview`, `handleExperienceReviewSummary`, `resolveReviewRole` and `serializeReview`.
use terravoy_backend.Prelude.{
  ℕ, ◌+◌, Bool, true, false, not, ◌&&◌, ◌||◌, ◌==◌, leb, ltb, Option, none, some, List, [], ◌∷◌,
  if◌then◌else◌, find, select, length, is_some, first_some,
}
use terravoy_backend.Store.Rows.{Order, Party, Review, host_party, traveler_party}
use terravoy_backend.Store.Table.{by_key}
use terravoy_backend.Store.Db.{
  Db, M, Reply, ok, error, review_saved, review_summary, invalid_input, invalid_status_transition,
  forbidden, duplicate, pure, gets, or_reply, reply_if, modify_db, ◌>>=◌, ◌>>◌,
}
use terravoy_backend.Auth.Authorize.{Actor, orders_review, authorize}
use terravoy_backend.Auth.Profile.{ensure_profile}
use terravoy_backend.Orders.View.{
  order_id, find_order, is_completed, has_reviewed, review_reveal_ms,
}
use terravoy_backend.Orders.Service.{both_sides}

-- `Number.isInteger(rating) && 1 <= rating <= 5`; what is no integer is `none`.
abbrev pub valid_rating : Option ℕ → Option ℕ
valid_rating none = none
valid_rating (some n) = if ltb n 1 || ltb 5 n then none else some n

-- The sender's role, the receiver's role and the receiver.
unfoldable pub review_sides : Order → ℕ → Option (Party × Party × ℕ)
review_sides order me =
    if me == order.traveler_id
    then some (traveler_party, host_party, order.host_id)
    else if me == order.host_id
    then some (host_party, traveler_party, order.traveler_id)
    else none

-- The columns of the row that is inserted.
abbrev new_review : (order_id me rating : ℕ) → Option ℕ → Party × Party × ℕ → Review
new_review order_id me rating comment (from_role, to_role, to_user) = record {
  order_id = order_id;
  from_user_id = me;
  to_user_id = to_user;
  rating = rating;
  comment = comment;
  from_role = some from_role;
  to_role = some to_role;
}

unfoldable pub handle_review : Actor → ℕ → (rating comment : Option ℕ) → M Reply
unfolding review_sides
handle_review actor id rating comment = do
  me ← ensure_profile actor.user_id
  order ← find_order id
  authorize actor.role me orders_review (both_sides order)
  reply_if (not (is_completed order.status)) (error invalid_status_transition 400)
  stars ← or_reply (valid_rating rating) (error invalid_input 400)
  sides ← or_reply (review_sides order me) (error forbidden 403)
  existing ← gets (λ db. has_reviewed id me db.reviews)
  reply_if existing (error duplicate 400)
  modify_db λ db. record db { reviews = new_review id me stars comment sides ∷ db.reviews }
  pure (ok (review_saved id stars comment sides.0) 200)

-- The role in the row, or the side of the order that wrote it.
unfoldable pub resolve_review_role : Review → Order → Option Party
resolve_review_role r o = first_some r.from_role (
    if r.from_user_id == o.traveler_id
    then some traveler_party
    else if r.from_user_id == o.host_id
    then some host_party
    else none)

abbrev opposite : Option Party → Party
opposite (some traveler_party) = host_party
opposite _ = traveler_party

unfoldable pub serialize_review : Review → Order → Review
unfolding resolve_review_role
serialize_review r o =
    let from = resolve_review_role r o in
    record r { from_role = from; to_role = first_some r.to_role (some (opposite from)) }

abbrev is_role : Party → Option Party → Bool
is_role traveler_party (some traveler_party) = true
is_role host_party (some host_party) = true
is_role _ _ = false

-- A traveler's review counts once the host's is there, or 14 days after completion.
abbrev revealed : Db → Order → Bool
revealed db o =
    is_some (
      find
        (λ (r : Review).
          r.order_id == o.id && (is_role host_party r.from_role || r.from_user_id == o.host_id))
        db.reviews)
    || elim o.completed_at [ none ↦ false | some t ↦ leb (t + review_reveal_ms) db.now ]

abbrev counted_for : Db → ℕ → Review → Option Order → Bool
counted_for db experience r none = false
counted_for db experience r (some o) =
    o.experience_id == experience
    && is_completed o.status
    && (is_role traveler_party r.from_role || r.from_user_id == o.traveler_id)
    && revealed db o

-- Whether a review is in the summary of an experience.
unfoldable pub counted : Db → ℕ → Review → Bool
counted db experience r = counted_for db experience r (by_key order_id r.order_id db.orders)

abbrev pub rating_sum : List Review → ℕ
rating_sum [] = 0
rating_sum (r ∷ rs) = r.rating + rating_sum rs

-- The average is `rating_sum / review_count`, 0 if there are none. The path gives the experience,
-- `none` if it is blank.
unfoldable pub handle_experience_review_summary : Option ℕ → M Reply
unfolding counted
handle_experience_review_summary experience = do
  e ← or_reply experience (error invalid_input 400)
  rows ← gets (λ db. select (counted db e) db.reviews)
  pure (ok (review_summary e (length rows) (rating_sum rows)) 200)
