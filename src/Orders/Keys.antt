-- ===== src/Orders/Keys.antt =====
-- The primary key of `orders`, over the steps of `Orders/Step.antt`.
use terravoy_backend.Prelude.{ℕ, ◌≡◌, none, List, [], ◌∷◌, arith}
use terravoy_backend.Store.Rows.{Order}
use terravoy_backend.Store.Table.{by_key, update}
use terravoy_backend.Store.Db.{Db}
use terravoy_backend.Orders.View.{order_id}
use terravoy_backend.Orders.Step.{
  OrderStep, untouched, moved, touched, created, OrderSteps, done, more,
}
use terravoy_backend.Orders.Audit.{IsAudited, OrderSteps-IsAudited}

-- No id stands twice.
abbrev pub Distinct : List Order → Type 0
Distinct [] = Unit
Distinct (o ∷ os) = (by_key order_id o.id os ≡ none) × Distinct os

update_absent :
    (k j : ℕ) (f : Order → Order) (os : List Order)
    → ((r : Order) → order_id (f r) ≡ order_id r)
    → by_key order_id j os ≡ none
    → by_key order_id j (update order_id k f os) ≡ none
update_absent k j f [] same h = h
update_absent k j f (o ∷ os) same h = ground (arith, same o, update_absent k j f os same)

pub update-Distinct :
    (k : ℕ) (f : Order → Order) (os : List Order)
    → ((r : Order) → order_id (f r) ≡ order_id r)
    → Distinct os
    → Distinct (update order_id k f os)
update-Distinct k f [] same d = tt
update-Distinct k f (o ∷ os) same d =
    (ground (arith, same o, update_absent k o.id f os same d.0), update-Distinct k f os same d.1)

OrderStep-Distinct :
    {db db' : Db} → OrderStep db db' → IsAudited db → Distinct db.orders → Distinct db'.orders
OrderStep-Distinct (untouched u) h d = rw u.orders d
OrderStep-Distinct {db} (moved id o f l found named from to edge frame pays m) h d =
    rw m.orders (update-Distinct id f db.orders (λ r. (frame r).id) d)
OrderStep-Distinct {db} (touched id f frame kept t) h d =
    rw t.orders (update-Distinct id f db.orders (λ r. (frame r).id) d)
OrderStep-Distinct {db} (created o l named from to status pay c) h d =
    rw c.orders (h.unused o.id (omega (arith, c.id)), d)

pub OrderSteps-Distinct :
    {db db' : Db} → OrderSteps db db' → IsAudited db → Distinct db.orders → Distinct db'.orders
OrderSteps-Distinct done h d = d
OrderSteps-Distinct (more r s) h d =
    OrderStep-Distinct s (OrderSteps-IsAudited r h) (OrderSteps-Distinct r h d)
