-- ===== src/Orders/Audit.antt =====
-- The status log of the orders against their table, over the steps of `Orders/Step.antt`.
use mathlib.Core.Option
use terravoy_backend.Prelude.{
  ℕ, ◌≤◌, ◌≡◌, inl, inr, false, Option, none, some, List, [], ◌∷◌, ◌==◌, if◌then◌else◌, arith,
  Option-cases, Bool-cases,
}
use terravoy_backend.Store.Rows.{OrderStatus, Order, StatusLog, status_code}
use terravoy_backend.Store.Table.{by_key, by_key-update}
use terravoy_backend.Store.Db.{Db}
use terravoy_backend.Orders.View.{order_id}
use terravoy_backend.Orders.Step.{
  OrderStep, untouched, moved, touched, created, OrderSteps, done, more, Frame, Untouched, Moved,
  Touched,
}

-- Where an order stands by its log: not created, in a status, or in a log that contradicts itself.
pub data Standing : Type 0 where
  fresh broken : Standing
  at : OrderStatus → Standing

abbrev follow : Standing → Option OrderStatus → OrderStatus → Standing
follow fresh none to = at to
follow (at s) (some f) to = if status_code s == status_code f then at to else broken
follow _ _ _ = broken

-- The log is newest first.
unfoldable pub replay : ℕ → List StatusLog → Standing
replay id [] = fresh
replay id (l ∷ older) =
    let before = replay id older in
    if l.order_id == id then follow before l.from_status l.to_status else before

abbrev pub recorded : Option Order → Standing
recorded none = fresh
recorded (some o) = at o.status

-- The log and the table agree on every order, and no row has an id that is still to be given out.
pub record IsAudited (db : Db) : Type 0 where
  pub replays : (i : ℕ) → replay i db.order_logs ≡ recorded (by_key order_id i db.orders)
  pub unused : (i : ℕ) → db.next_order ≤ i → by_key order_id i db.orders ≡ none

module _ {db db' : Db} (h : IsAudited db) where
  Untouched-IsAudited : Untouched db db' → IsAudited db'
  Untouched-IsAudited u = record {
    replays = λ i. rw (u.orders, u.order_logs) (h.replays i);
    unused = λ i le. rw u.orders (h.unused i (rw u.next_order at le));
  }

follow_log :
    (l : StatusLog) (id i : ℕ) (older : List StatusLog) (o : Order)
    → l.order_id ≡ id
    → l.from_status ≡ some o.status
    → replay i older ≡ at o.status
    → id ≡ i
    → replay i (l ∷ older) ≡ at l.to_status
unfolding replay
follow_log l id i older o a b c e = ground arith

other_log :
    (l : StatusLog) (id i : ℕ) (older : List StatusLog)
    → l.order_id ≡ id
    → (id == i) ≡ false
    → replay i (l ∷ older) ≡ replay i older
unfolding replay
other_log l id i older a e = ground arith

module _ {db db' : Db} (h : IsAudited db) where
  module _ (id : ℕ) (o : Order) (f : Order → Order) (l : StatusLog)
      (found : by_key order_id id db.orders ≡ some o) (named : l.order_id ≡ id)
      (from : l.from_status ≡ some o.status) (to : (f o).status ≡ l.to_status)
      (frame : (r : Order) → Frame r (f r)) (m : Moved id f l db db') where
    lookup_moved :
        (i : ℕ)
        → by_key order_id i db'.orders ≡ (
            if id == i
            then Option.map f (by_key order_id i db.orders)
            else by_key order_id i db.orders)
    lookup_moved i = rw m.orders (by_key-update order_id id i f db.orders (λ r. (frame r).id))

    moved_replays : (i : ℕ) → replay i db'.order_logs ≡ recorded (by_key order_id i db'.orders)
    moved_replays i = elim (Bool-cases (id == i)) [
      | inl e ↦
          rw (m.order_logs, lookup_moved i, e)
            (ground (arith, found, to, h.replays i, follow_log l id i db.order_logs o named from))
      | inr e ↦
          rw (m.order_logs, lookup_moved i, e, other_log l id i db.order_logs named e) (h.replays i)
    ]

    moved_unused : (i : ℕ) → db'.next_order ≤ i → by_key order_id i db'.orders ≡ none
    moved_unused i le = rw (lookup_moved i) (ground (arith, h.unused i, m.next_order))

  module _ (id : ℕ) (f : Order → Order) (frame : (r : Order) → Frame r (f r))
      (kept : (o : Order) → by_key order_id id db.orders ≡ some o → (f o).status ≡ o.status)
      (t : Touched id f db db') where
    lookup_touched :
        (i : ℕ)
        → by_key order_id i db'.orders ≡ (
            if id == i
            then Option.map f (by_key order_id i db.orders)
            else by_key order_id i db.orders)
    lookup_touched i = rw t.orders (by_key-update order_id id i f db.orders (λ r. (frame r).id))

    touched_recorded :
        (i : ℕ) → recorded (by_key order_id i db'.orders) ≡ recorded (by_key order_id i db.orders)
    touched_recorded i = elim (Option-cases (by_key order_id i db.orders)) [
      | inl e ↦ rw (lookup_touched i) (ground arith)
      | inr (o, e) ↦ rw (lookup_touched i) (ground (arith, kept o))
    ]

    touched_unused : (i : ℕ) → db'.next_order ≤ i → by_key order_id i db'.orders ≡ none
    touched_unused i le = rw (lookup_touched i) (ground (arith, h.unused i, t.next_order))

-- Every step keeps the log and the table together.
pub OrderStep-IsAudited : {db db' : Db} → OrderStep db db' → IsAudited db → IsAudited db'
unfolding replay
OrderStep-IsAudited (untouched u) h = Untouched-IsAudited h u
OrderStep-IsAudited (moved id o f l found named from to edge frame pays m) h = record {
  replays = moved_replays h id o f l found named from to frame m;
  unused = moved_unused h id o f l found named from to frame m;
}
OrderStep-IsAudited (touched id f frame kept t) h = record {
  replays =
      λ i. rw (t.order_logs, touched_recorded h id f frame (λ o e. (kept o e).0) t i) (h.replays i);
  unused = touched_unused h id f frame (λ o e. (kept o e).0) t;
}
OrderStep-IsAudited {db} (created o l named from to status pay c) h = record {
  replays = λ i. rw (c.orders, c.order_logs) (ground (arith, h.replays i, h.unused i, c.id));
  unused = λ i le. rw c.orders (ground (arith, h.unused i, c.next_order, c.id));
}

pub OrderSteps-IsAudited : {db db' : Db} → OrderSteps db db' → IsAudited db → IsAudited db'
OrderSteps-IsAudited done h = h
OrderSteps-IsAudited (more r s) h = OrderStep-IsAudited s (OrderSteps-IsAudited r h)
