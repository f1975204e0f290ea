-- ===== src/Orders/Sound.antt =====
-- The invariant of the order tables, over the steps of `Orders/Step.antt`.
use mathlib.Core.Path.{subst}
use terravoy_backend.Prelude.{
  ℕ, ◌≡◌, inl, inr, refl, sym, some, ◌==◌, if◌then◌else◌, arith, Bool-cases, Option-cases, ==_iff,
}
use terravoy_backend.Store.Rows.{Order, pending_payment, unpaid}
use terravoy_backend.Store.Table.{by_key, update, by_key-update}
use terravoy_backend.Store.Db.{Db, empty_db}
use terravoy_backend.Orders.View.{order_id}
use terravoy_backend.Orders.Step.{
  Frame, IsPaidUp, OrderStep, untouched, moved, touched, created, OrderSteps, done, more,
}
use terravoy_backend.Orders.Audit.{IsAudited, OrderSteps-IsAudited, replay}
use terravoy_backend.Orders.Keys.{Distinct, OrderSteps-Distinct}

-- Every order that can be found has sound payment columns.
abbrev pub AllPaidUp : Db → Type 0
AllPaidUp db = (i : ℕ) (o : Order) → by_key order_id i db.orders ≡ some o → IsPaidUp o

-- The log replays to the table, ids stand once, and payments and statuses agree.
pub record IsSound (db : Db) : Type 0 where
  pub audited : IsAudited db
  pub distinct : Distinct db.orders
  pub paid_up : AllPaidUp db

-- The row under `i` after an update of the row `o` under `id`.
found_before :
    (id i : ℕ) (f : Order → Order) (db db' : Db) (o' : Order)
    → ((r : Order) → Frame r (f r))
    → db'.orders ≡ update order_id id f db.orders
    → by_key order_id i db'.orders ≡ some o'
    → (o : Order) × (by_key order_id i db.orders ≡ some o) × (o' ≡ (if id == i then f o else o))
found_before id i f db db' o' frame e found = elim (Option-cases (by_key order_id i db.orders)) [
  | inl h ↦ ground (arith, by_key-update order_id id i f db.orders (λ r. (frame r).id))
  | inr (o, h) ↦ (o, h, ground (arith, by_key-update order_id id i f db.orders (λ r. (frame r).id)))
]

update_paid_up :
    (id : ℕ) (f : Order → Order) (db db' : Db)
    → ((r : Order) → Frame r (f r))
    → db'.orders ≡ update order_id id f db.orders
    → ((o : Order) → by_key order_id id db.orders ≡ some o → IsPaidUp o → IsPaidUp (f o))
    → AllPaidUp db
    → AllPaidUp db'
update_paid_up id f db db' frame e pays h i o' found =
    let (o, found₀, is) = found_before id i f db db' o' frame e found in
    elim (Bool-cases (id == i)) [
      | inl same ↦
          let eq : o' ≡ f o = rw same at is in
          subst (λ x. IsPaidUp x) (sym eq) (pays o (ground (arith, ==_iff id i)) (h i o found₀))
      | inr other ↦
          let eq : o' ≡ o = rw other at is in subst (λ x. IsPaidUp x) (sym eq) (h i o found₀)
    ]

new-IsPaidUp : (o : Order) → o.status ≡ pending_payment → o.payment_status ≡ unpaid → IsPaidUp o
new-IsPaidUp o s p = record { served_paid = λ e. cc; paid_dated = λ e. cc }

OrderStep-AllPaidUp : {db db' : Db} → OrderStep db db' → AllPaidUp db → AllPaidUp db'
OrderStep-AllPaidUp (untouched u) h i o found = h i o (rw (sym u.orders) found)
OrderStep-AllPaidUp {db} {db'} (moved id o f l found named from to edge frame pays m) h i o'
      found' =
    update_paid_up id f db db' frame m.orders
      (λ x e. let eq : o ≡ x = cc in subst (λ y. IsPaidUp y → IsPaidUp (f y)) eq pays) h i o' found'
OrderStep-AllPaidUp {db} {db'} (touched id f frame kept t) h i o' found' =
    update_paid_up id f db db' frame t.orders (λ x e. (kept x e).1) h i o' found'
OrderStep-AllPaidUp {db} {db'} (created o l named from to status pay c) h i x found =
    elim (Bool-cases (o.id == i)) [
      | inl e ↦
          let eq : o ≡ x = ground (arith, c.orders) in
          subst (λ y. IsPaidUp y) eq (new-IsPaidUp o status pay)
      | inr e ↦ h i x (ground (arith, c.orders))
    ]

OrderSteps-AllPaidUp : {db db' : Db} → OrderSteps db db' → AllPaidUp db → AllPaidUp db'
OrderSteps-AllPaidUp done h = h
OrderSteps-AllPaidUp (more r s) h = OrderStep-AllPaidUp s (OrderSteps-AllPaidUp r h)

-- Every run of steps keeps the invariant.
pub OrderSteps-IsSound : {db db' : Db} → OrderSteps db db' → IsSound db → IsSound db'
OrderSteps-IsSound r h = record {
  audited = OrderSteps-IsAudited r h.audited;
  distinct = OrderSteps-Distinct r h.audited h.distinct;
  paid_up = OrderSteps-AllPaidUp r h.paid_up;
}

-- The database before any request.
pub empty_db-IsSound : IsSound empty_db
unfolding replay
empty_db-IsSound = record {
  audited = record { replays = λ i. refl; unused = λ i h. refl };
  distinct = tt;
  paid_up = λ i o h. cc;
}
