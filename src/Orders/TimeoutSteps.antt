-- ===== src/Orders/TimeoutSteps.antt =====
-- `autoCloseUnconfirmed` of jobs/index.js, as steps of `Orders/Step.antt`.
use terravoy_backend.Prelude.{
  ℕ, ◌≡◌, refl, Bool, true, none, some, List, [], ◌∷◌, arith, ==_refl, All, select,
}
use terravoy_backend.Store.Rows.{
  Order, OrderStatus, StatusLog, LogReason, pending_payment, cancelled_by_traveler,
  cancelled_refunded, refunded, system_party, payment_timeout, auto_timeout,
}
use terravoy_backend.Store.Table.{by_key, update, by_key-update}
use terravoy_backend.Store.Db.{Db, M, value}
use terravoy_backend.Orders.View.{order_id, is_pending_payment, is_pending}
use terravoy_backend.Orders.Step.{
  Edge, OrderStep, moved, OrderSteps, done, steps_trans, one_step, from_pending_payment,
}
use terravoy_backend.Orders.Handled.{edge_reject}
use terravoy_backend.Orders.Keys.{Distinct, OrderSteps-Distinct}
use terravoy_backend.Orders.Audit.{IsAudited}
use terravoy_backend.Orders.Timeout.{
  close_unpaid, close_pending, close_each, auto_close_unconfirmed, is_stale_unpaid,
  is_stale_pending,
}

-- Each listed order is in the table under its id.
abbrev pub Present : List Order → List Order → Type 0
Present table [] = Unit
Present table (o ∷ os) = (by_key order_id o.id table ≡ some o) × Present table os

edge_timeout : (s : OrderStatus) → is_pending_payment s ≡ true → Edge s cancelled_by_traveler
edge_timeout pending_payment h = Edge.cancel from_pending_payment
edge_timeout _ h = cc

abbrev timed_out_unpaid : ℕ → Order → Order
timed_out_unpaid now r = record r {
  status = cancelled_by_traveler;
  cancelled_at = some now;
  cancelled_by = some system_party;
  cancelled_reason = some payment_timeout;
}

abbrev timed_out_pending : ℕ → Order → Order
timed_out_pending now r = record r {
  status = cancelled_refunded;
  payment_status = refunded;
  cancelled_at = some now;
  cancelled_by = some system_party;
  cancelled_reason = some auto_timeout;
}

abbrev timeout_log : Order → OrderStatus → LogReason → StatusLog
timeout_log o to reason = record {
  order_id = o.id;
  from_status = some o.status;
  to_status = to;
  actor_id = none;
  actor_role = system_party;
  reason = some reason;
}

pub close_unpaid_step :
    (o : Order) (db : Db)
    → by_key order_id o.id db.orders ≡ some o
    → is_pending_payment o.status ≡ true
    → OrderStep db (close_unpaid o db).0
unfolding close_unpaid
close_unpaid_step o db h s =
    moved o.id o (timed_out_unpaid db.now) (timeout_log o cancelled_by_traveler payment_timeout) h
      refl refl refl (edge_timeout o.status s) (λ r. omega arith) (λ v. ground arith) (ground arith)

pub close_pending_step :
    (o : Order) (db : Db)
    → by_key order_id o.id db.orders ≡ some o
    → is_pending o.status ≡ true
    → OrderStep db (close_pending o db).0
unfolding close_pending
close_pending_step o db h s =
    moved o.id o (timed_out_pending db.now) (timeout_log o cancelled_refunded auto_timeout) h refl
      refl refl (edge_reject o.status s) (λ r. omega arith) (λ v. ground arith) (ground arith)

-- An order with another id is still there after an update.
Present-after :
    (k : ℕ) (f : Order → Order) (table os : List Order)
    → ((r : Order) → order_id (f r) ≡ order_id r)
    → by_key order_id k os ≡ none
    → Present table os
    → Present (update order_id k f table) os
Present-after k f table [] same h p = tt
Present-after k f table (o ∷ os) same h p = (
  ground (arith, by_key-update order_id k o.id f table same),
  Present-after k f table os same (ground arith) p.1,
)

module _ (test : Order → Bool) where
  pub select_absent :
      (k : ℕ) (os : List Order)
      → by_key order_id k os ≡ none
      → by_key order_id k (select test os) ≡ none
  select_absent k [] h = h
  select_absent k (o ∷ os) h = ground (arith, select_absent k os)

  select-Distinct : (os : List Order) → Distinct os → Distinct (select test os)
  select-Distinct [] d = tt
  select-Distinct (o ∷ os) d = ground (arith, select_absent o.id os d.0, select-Distinct os d.1)

  select-Present : (table os : List Order) → Present table os → Present table (select test os)
  select-Present table [] p = tt
  select-Present table (o ∷ os) p = ground (arith, select-Present table os p.1)

  select-All : (os : List Order) → All (λ o. test o ≡ true) (select test os)
  select-All [] = tt
  select-All (o ∷ os) = ground (arith, select-All os)

-- Rows of a table are still found when a row with another id stands before them.
Present-weaken :
    (r : Order) (table os : List Order)
    → by_key order_id r.id os ≡ none
    → Present table os
    → Present (r ∷ table) os
Present-weaken r table [] h p = tt
Present-weaken r table (o ∷ os) h p = (ground arith, Present-weaken r table os (ground arith) p.1)

Present-self : (os : List Order) → Distinct os → Present os os
Present-self [] d = tt
Present-self (o ∷ os) d = (rw (==_refl o.id) refl, Present-weaken o os os d.0 (Present-self os d.1))

-- What a loop needs to know of its body.
pub record Closes (test : Order → Bool) (close : Order → M (Unit {0})) : Type 0 where
  pub change : ℕ → Order → Order
  pub same_id : (now : ℕ) (r : Order) → order_id (change now r) ≡ order_id r
  pub returns : (o : Order) (db : Db) → (close o db).1 ≡ value tt
  pub same_now : (o : Order) (db : Db) → ((close o db).0).now ≡ db.now
  pub writes :
      (o : Order) (db : Db)
      → ((close o db).0).orders ≡ update order_id o.id (change db.now) db.orders
  pub steps :
      (o : Order) (db : Db)
      → by_key order_id o.id db.orders ≡ some o
      → test o ≡ true
      → OrderStep db (close o db).0

module _ {test : Order → Bool} {close : Order → M (Unit {0})} (c : Closes test close) where
  close_each_step :
      (os : List Order) (db : Db)
      → Distinct os
      → Present db.orders os
      → All (λ o. test o ≡ true) os
      → OrderSteps db (close_each close os db).0
  unfolding close_each
  close_each_step [] db d p t = done
  close_each_step (o ∷ os) db d p t = rw (c.returns o db) (
      steps_trans (one_step (c.steps o db p.0 t.0)) (
        close_each_step os (close o db).0 d.1
          (rw (c.writes o db)
            (Present-after o.id (c.change db.now) db.orders os (c.same_id db.now) d.0 p.1))
          t.1))

  pub close_each_returns : (os : List Order) (db : Db) → (close_each close os db).1 ≡ value tt
  unfolding close_each
  close_each_returns [] db = refl
  close_each_returns (o ∷ os) db = rw (c.returns o db) (close_each_returns os (close o db).0)

All-weaken :
    (P Q : Order → Type 0) (os : List Order) → ((o : Order) → P o → Q o) → All P os → All Q os
All-weaken P Q [] f h = tt
All-weaken P Q (o ∷ os) f h = (f o h.0, All-weaken P Q os f h.1)

unfoldable pub closes_unpaid : Closes (λ o. is_pending_payment o.status) close_unpaid
unfolding close_unpaid
closes_unpaid = record {
  change = timed_out_unpaid;
  same_id = λ now r. refl;
  returns = λ o db. refl;
  same_now = λ o db. refl;
  writes = λ o db. refl;
  steps = close_unpaid_step;
}

unfoldable pub closes_pending : Closes (λ o. is_pending o.status) close_pending
unfolding close_pending
closes_pending = record {
  change = timed_out_pending;
  same_id = λ now r. refl;
  returns = λ o db. refl;
  same_now = λ o db. refl;
  writes = λ o db. refl;
  steps = close_pending_step;
}

-- One loop of the job, over the rows that its query selects.
module _ (test : Order → Bool) (status_test : Order → Bool) (close : Order → M (Unit {0}))
    (implies : (o : Order) → test o ≡ true → status_test o ≡ true)
    (c : Closes status_test close) where
  close_selected :
      (db : Db) → Distinct db.orders → OrderSteps db (close_each close (select test db.orders) db).0
  close_selected db d =
      close_each_step c (select test db.orders) db (select-Distinct test db.orders d)
        (select-Present test db.orders db.orders (Present-self db.orders d))
        (All-weaken (λ o. test o ≡ true) (λ o. status_test o ≡ true) (select test db.orders) implies
          (select-All test db.orders))

stale_unpaid :
    (db : Db) (o : Order) → is_stale_unpaid db o ≡ true → is_pending_payment o.status ≡ true
stale_unpaid db o h = ground arith

stale_pending : (db : Db) (o : Order) → is_stale_pending db o ≡ true → is_pending o.status ≡ true
stale_pending db o h = ground arith

abbrev unpaid_loop : M (Unit {0})
unpaid_loop db = close_each close_unpaid (select (is_stale_unpaid db) db.orders) db

abbrev pending_loop : M (Unit {0})
pending_loop db = close_each close_pending (select (is_stale_pending db) db.orders) db

-- On a table whose ids are distinct, the job cancels orders along the diagram, each with its log.
pub auto_close_steps :
    (db : Db) → IsAudited db → Distinct db.orders → OrderSteps db (auto_close_unconfirmed db).0
unfolding auto_close_unconfirmed
auto_close_steps db h d =
    let first =
      close_selected (is_stale_unpaid db) (λ o. is_pending_payment o.status) close_unpaid
        (stale_unpaid db) closes_unpaid db d in
    let db₁ = (unpaid_loop db).0 in
    rw (close_each_returns closes_unpaid (select (is_stale_unpaid db) db.orders) db) (
      steps_trans first (
        close_selected (is_stale_pending db₁) (λ o. is_pending o.status) close_pending
          (stale_pending db₁) closes_pending db₁ (OrderSteps-Distinct first h d)))
