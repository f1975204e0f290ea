-- ===== src/Orders/Serve.antt =====
-- The route `/functions/v1/orders` of routes/orders.js, after its path has been read.
use terravoy_backend.Prelude.{ℕ, Option, none, some}
use terravoy_backend.Store.Rows.{LogReason}
use terravoy_backend.Store.Db.{
  Db, M, Reply, Outcome, error, unauthorized, not_found, pure, to_reply,
}
use terravoy_backend.Auth.Authorize.{Actor}
use terravoy_backend.Orders.Create.{CreateBody, handle_create, handle_mark_paid}
use terravoy_backend.Orders.Accept.{handle_accept, handle_reject, handle_cancel}
use terravoy_backend.Orders.Service.{handle_start, handle_end}
use terravoy_backend.Orders.Reviews.{handle_review, handle_experience_review_summary}
use terravoy_backend.Orders.Browse.{
  StatusFilter, handle_my_orders, handle_host_orders, handle_detail,
}

pub data OrdersRequest : Type 0 where
  create : CreateBody → (order_no : ℕ) → OrdersRequest
  mark_paid accept start end detail : (id : ℕ) → OrdersRequest
  reject cancel : (id : ℕ) → Option LogReason → OrdersRequest
  review : (id : ℕ) → (rating comment : Option ℕ) → OrdersRequest
  reviews_summary : (experience_id : Option ℕ) → OrdersRequest
  my_orders host_orders : StatusFilter → OrdersRequest
  unknown_route : OrdersRequest

-- The chain of tests on the method and the path.
unfoldable pub dispatch : Actor → OrdersRequest → M Reply
dispatch a (create body order_no) = handle_create a body order_no
dispatch a (mark_paid id) = handle_mark_paid a id
dispatch a (accept id) = handle_accept a id
dispatch a (reject id reason) = handle_reject a id reason
dispatch a (cancel id reason) = handle_cancel a id reason
dispatch a (start id) = handle_start a id
dispatch a (end id) = handle_end a id
dispatch a (review id rating comment) = handle_review a id rating comment
dispatch a (reviews_summary experience) = handle_experience_review_summary experience
dispatch a (my_orders filter) = handle_my_orders a filter
dispatch a (host_orders filter) = handle_host_orders a filter
dispatch a (detail id) = handle_detail a id
dispatch a unknown_route = pure (error not_found 404)

abbrev answer : Db × Outcome Reply → Db × Reply
answer (db, r) = (db, to_reply r)

-- `requireAuth`, the dispatch and the `catch`. Without a valid token there is no actor.
unfoldable pub serve : Option Actor → OrdersRequest → Db → Db × Reply
serve none req db = (db, error unauthorized 401)
serve (some a) req db = answer (dispatch a req db)
