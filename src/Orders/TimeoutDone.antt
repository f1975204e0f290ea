-- ===== src/Orders/TimeoutDone.antt =====
-- The table of orders after `autoCloseUnconfirmed` of jobs/index.js.
use terravoy_backend.Prelude.{
  ℕ, ◌≡◌, ◌≤◌, ◌+◌, ◌*◌, refl, ◌∙◌, ◌&&◌, ◌||◌, Bool, true, false, some, List, [], ◌∷◌, ◌==◌, arith,
  is_some, Option-cases, Bool-cases, inl, inr, select,
}
use terravoy_backend.Store.Rows.{
  Order, OrderStatus, pending_payment, pending_host_confirm, confirmed, in_service, completed,
  cancelled_refunded, cancelled_by_traveler, disputed,
}
use terravoy_backend.Store.Table.{by_key, update, by_key-update}
use terravoy_backend.Store.Db.{Db, M}
use terravoy_backend.Orders.View.{order_id, is_pending, is_pending_payment}
use terravoy_backend.Orders.Timeout.{
  close_unpaid, close_pending, close_each, auto_close_unconfirmed, is_stale_unpaid,
  is_stale_pending, older_than, thirty_minutes, twelve_hours,
}
use terravoy_backend.Orders.TimeoutSteps.{Closes, closes_unpaid, closes_pending, close_each_returns}

-- Every order of the table that passes the test is still on the list.
abbrev Pending : (Order → Bool) → List Order → List Order → Type 0
Pending test table os =
    (i : ℕ) (o : Order)
    → by_key order_id i table ≡ some o
    → test o ≡ true
    → is_some (by_key order_id i os) ≡ true

Pending-next :
    (test : Order → Bool) (x : Order) (f : Order → Order) (table os : List Order)
    → ((r : Order) → order_id (f r) ≡ order_id r)
    → ((r : Order) → test (f r) ≡ false)
    → Pending test table (x ∷ os)
    → Pending test (update order_id x.id f table) os
Pending-next test x f table os same off p i o found t =
    elim (Option-cases (by_key order_id i table)) [
      | inl n ↦ ground (arith, by_key-update order_id x.id i f table same)
      | inr (r, n) ↦ elim (Bool-cases (x.id == i)) [
        | inl e ↦ ground (arith, by_key-update order_id x.id i f table same, off r)
        | inr e ↦ ground (arith, by_key-update order_id x.id i f table same, p i o)
      ]
    ]

select_pending :
    (test : Order → Bool) (i : ℕ) (os : List Order) (o : Order)
    → by_key order_id i os ≡ some o
    → test o ≡ true
    → is_some (by_key order_id i (select test os)) ≡ true
select_pending test i [] o found t = cc
select_pending test i (x ∷ os) o found t = ground (arith, select_pending test i os o)

-- No order of the table passes the test.
abbrev Clear : (Order → Bool) → List Order → Type 0
Clear test table = (i : ℕ) (o : Order) → by_key order_id i table ≡ some o → test o ≡ false

Pending-none : (test : Order → Bool) (table : List Order) → Pending test table [] → Clear test table
Pending-none test table p i o found = elim (Bool-cases (test o)) [
  | inl t ↦ ground (arith, p i o found t)
  | inr t ↦ t
]

Clear-Pending :
    (test : Order → Bool) (table os : List Order) → Clear test table → Pending test table os
Clear-Pending test table os c i o found t = ground (arith, c i o found)

module _ {on : Order → Bool} {close : Order → M (Unit {0})} (c : Closes on close) where
  pub close_each_now : (os : List Order) (db : Db) → ((close_each close os db).0).now ≡ db.now
  unfolding close_each
  close_each_now [] db = refl
  close_each_now (o ∷ os) db =
      rw (c.returns o db) (close_each_now os (close o db).0 ∙ c.same_now o db)

  module _ (test : Order → Bool) (off : (now : ℕ) (r : Order) → test (c.change now r) ≡ false) where
    close_each-Pending :
        (os : List Order) (db : Db)
        → Pending test db.orders os
        → Pending test ((close_each close os db).0).orders []
    unfolding close_each
    close_each-Pending [] db p = p
    close_each-Pending (o ∷ os) db p = rw (c.returns o db) (
        close_each-Pending os (close o db).0 (
          rw (c.writes o db)
            (Pending-next test o (c.change db.now) db.orders os (c.same_id db.now) (off db.now) p)))

    -- A loop over the rows that the test selects leaves none.
    close_selected-Clear :
        (db : Db) → Clear test ((close_each close (select test db.orders) db).0).orders
    close_selected-Clear db =
        Pending-none test ((close_each close (select test db.orders) db).0).orders (
          close_each-Pending (select test db.orders) db
            (λ i o found t. select_pending test i db.orders o found t))

    -- A loop over any rows brings none back.
    close_each-Clear :
        (os : List Order) (db : Db)
        → Clear test db.orders
        → Clear test ((close_each close os db).0).orders
    close_each-Clear os db h =
        Pending-none test ((close_each close os db).0).orders
          (close_each-Pending os db (Clear-Pending test db.orders os h))

both-Clear :
    (db db₁ : Db) (os : List Order)
    → db₁.now ≡ db.now
    → Clear (is_stale_unpaid db) os
    → Clear (is_stale_pending db₁) os
    → Clear (λ o. is_stale_unpaid db o || is_stale_pending db o) os
both-Clear db db₁ os e a b i o found = ground (arith, a i o found, b i o found)

-- An order in this status, of this age at the time, is not overdue: one that waits for its payment
-- is at most thirty minutes old, one that waits for its host at most twelve hours.
abbrev pub IsOnTime : OrderStatus → (created_at now : ℕ) → Type 0
IsOnTime pending_payment created_at now = now ≤ created_at + 30 * 60 * 1000
IsOnTime pending_host_confirm created_at now = now ≤ created_at + 12 * 60 * 60 * 1000
IsOnTime _ created_at now = Unit

not_stale-IsOnTime :
    (db : Db) (o : Order) (status : OrderStatus)
    → is_pending_payment status && older_than thirty_minutes db o ≡ false
    → is_pending status && older_than twelve_hours db o ≡ false
    → IsOnTime status o.created_at db.now
not_stale-IsOnTime db o pending_payment a b = ground arith
not_stale-IsOnTime db o pending_host_confirm a b = ground arith
not_stale-IsOnTime db o confirmed a b = tt
not_stale-IsOnTime db o in_service a b = tt
not_stale-IsOnTime db o completed a b = tt
not_stale-IsOnTime db o cancelled_refunded a b = tt
not_stale-IsOnTime db o cancelled_by_traveler a b = tt
not_stale-IsOnTime db o disputed a b = tt

Clear-IsOnTime :
    (db : Db) (os : List Order)
    → Clear (λ o. is_stale_unpaid db o || is_stale_pending db o) os
    → (i : ℕ) (o : Order) → by_key order_id i os ≡ some o
    → IsOnTime o.status o.created_at db.now
Clear-IsOnTime db os c i o found =
    not_stale-IsOnTime db o o.status (ground (arith, c i o found)) (ground (arith, c i o found))

auto_close-Clear :
    (db : Db)
    → Clear
        (λ o. is_stale_unpaid db o || is_stale_pending db o)
        ((auto_close_unconfirmed db).0).orders
unfolding auto_close_unconfirmed closes_unpaid closes_pending
auto_close-Clear db =
    let unpaid = select (is_stale_unpaid db) db.orders in
    let db₁ = (close_each close_unpaid unpaid db).0 in
    let stale = select (is_stale_pending db₁) db₁.orders in
    let first = close_selected-Clear closes_unpaid (is_stale_unpaid db) (λ now r. refl) db in
    let kept =
      close_each-Clear closes_pending (is_stale_unpaid db) (λ now r. refl) stale db₁ first in
    let second = close_selected-Clear closes_pending (is_stale_pending db₁) (λ now r. refl) db₁ in
    rw (close_each_returns closes_unpaid unpaid db) (
      both-Clear db db₁ ((close_each close_pending stale db₁).0).orders
        (close_each_now closes_unpaid unpaid db) kept second)

-- After the auto-close job, no order that is found under any id is `pending_payment` and older than
-- thirty minutes, or `pending_host_confirm` and older than twelve hours, at the time the job ran.
pub auto_close-IsOnTime :
    (db : Db) (i : ℕ) (o : Order)
    → by_key order_id i ((auto_close_unconfirmed db).0).orders ≡ some o
    → IsOnTime o.status o.created_at db.now
auto_close-IsOnTime db i o found =
    Clear-IsOnTime db ((auto_close_unconfirmed db).0).orders (auto_close-Clear db) i o found
