-- ===== src/Orders/TimeoutSpares.antt =====
-- The orders that `autoCloseUnconfirmed` of jobs/index.js leaves alone.
use terravoy_backend.Prelude.{
  ℕ, ◌≡◌, refl, ◌∙◌, Bool, false, none, some, List, [], ◌∷◌, ◌==◌, arith, ==_iff, Bool-cases, inl,
  inr, select,
}
use terravoy_backend.Store.Rows.{
  Order, OrderStatus, pending_payment, pending_host_confirm, confirmed, in_service, completed,
  cancelled_refunded, cancelled_by_traveler, disputed,
}
use terravoy_backend.Store.Table.{by_key, by_key-update}
use terravoy_backend.Store.Db.{Db, M}
use terravoy_backend.Orders.View.{order_id}
use terravoy_backend.Orders.Keys.{Distinct, update-Distinct}
use terravoy_backend.Orders.Timeout.{
  close_unpaid, close_each, auto_close_unconfirmed, is_stale_unpaid, is_stale_pending,
}
use terravoy_backend.Orders.TimeoutSteps.{
  Closes, closes_unpaid, closes_pending, close_each_returns, select_absent,
}
use terravoy_backend.Orders.TimeoutDone.{IsOnTime, close_each_now}

not_unpaid :
    (db : Db) (o : Order) (status : OrderStatus)
    → o.status ≡ status
    → IsOnTime status o.created_at db.now
    → is_stale_unpaid db o ≡ false
not_unpaid db o pending_payment e h = ground (arith, h)
not_unpaid db o pending_host_confirm e h = ground arith
not_unpaid db o confirmed e h = ground arith
not_unpaid db o in_service e h = ground arith
not_unpaid db o completed e h = ground arith
not_unpaid db o cancelled_refunded e h = ground arith
not_unpaid db o cancelled_by_traveler e h = ground arith
not_unpaid db o disputed e h = ground arith

not_pending :
    (db : Db) (o : Order) (status : OrderStatus)
    → o.status ≡ status
    → IsOnTime status o.created_at db.now
    → is_stale_pending db o ≡ false
not_pending db o pending_payment e h = ground arith
not_pending db o pending_host_confirm e h = ground (arith, h)
not_pending db o confirmed e h = ground arith
not_pending db o in_service e h = ground arith
not_pending db o completed e h = ground arith
not_pending db o cancelled_refunded e h = ground arith
not_pending db o cancelled_by_traveler e h = ground arith
not_pending db o disputed e h = ground arith

-- A row that fails the test is not selected, and no other row has its id.
select_spares :
    (test : Order → Bool) (i : ℕ) (table : List Order) (o : Order)
    → Distinct table
    → by_key order_id i table ≡ some o
    → test o ≡ false
    → by_key order_id i (select test table) ≡ none
select_spares test i [] o d found t = refl
select_spares test i (x ∷ xs) o d found t = elim (Bool-cases (x.id == i)) [
  | inl e ↦ ground (arith, ==_iff x.id i, select_absent test x.id xs d.0, d.0)
  | inr e ↦ ground (arith, select_spares test i xs o d.1)
]

module _ {on : Order → Bool} {close : Order → M (Unit {0})} (c : Closes on close) where
  close_each_spares :
      (i : ℕ) (os : List Order) (db : Db)
      → by_key order_id i os ≡ none
      → by_key order_id i ((close_each close os db).0).orders ≡ by_key order_id i db.orders
  unfolding close_each
  close_each_spares i [] db h = refl
  close_each_spares i (o ∷ os) db h = rw (c.returns o db) (
      close_each_spares i os (close o db).0 (ground arith)
      ∙ rw (c.writes o db) (
          ground
            (arith, by_key-update order_id o.id i (c.change db.now) db.orders (c.same_id db.now))))

  close_each-Distinct :
      (os : List Order) (db : Db)
      → Distinct db.orders
      → Distinct ((close_each close os db).0).orders
  unfolding close_each
  close_each-Distinct [] db d = d
  close_each-Distinct (o ∷ os) db d = rw (c.returns o db) (
      close_each-Distinct os (close o db).0 (
        rw (c.writes o db) (update-Distinct o.id (c.change db.now) db.orders (c.same_id db.now) d)))

-- Where no two orders have the same id, the auto-close job leaves each order as it is that is
-- neither `pending_payment` and older than thirty minutes nor `pending_host_confirm` and older than
-- twelve hours.
pub auto_close_spares :
    (db : Db) (i : ℕ) (o : Order)
    → Distinct db.orders
    → by_key order_id i db.orders ≡ some o
    → IsOnTime o.status o.created_at db.now
    → by_key order_id i ((auto_close_unconfirmed db).0).orders ≡ some o
unfolding auto_close_unconfirmed closes_unpaid closes_pending
auto_close_spares db i o d found h =
    let unpaid = select (is_stale_unpaid db) db.orders in
    let db₁ = (close_each close_unpaid unpaid db).0 in
    let stale = select (is_stale_pending db₁) db₁.orders in
    let kept : by_key order_id i db₁.orders ≡ some o =
      close_each_spares closes_unpaid i unpaid db
        (select_spares (is_stale_unpaid db) i db.orders o d found (not_unpaid db o o.status refl h))
      ∙ found in
    let same : db₁.now ≡ db.now = close_each_now closes_unpaid unpaid db in
    let unselected =
      select_spares (is_stale_pending db₁) i db₁.orders o
        (close_each-Distinct closes_unpaid unpaid db d) kept
        (not_pending db₁ o o.status refl (rw same h)) in
    rw (close_each_returns closes_unpaid unpaid db)
      (close_each_spares closes_pending i stale db₁ unselected ∙ kept)
