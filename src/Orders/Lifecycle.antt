-- ===== src/Orders/Lifecycle.antt =====
-- What becomes of one order over any number of steps.
use mathlib.Core.Path.{subst}
use terravoy_backend.Prelude.{
  ℕ, ◌≤◌, ◌≡◌, inl, inr, refl, sym, ◌∙◌, ◌∷◌, ==_iff, some, ◌==◌, if◌then◌else◌, arith, Bool-cases,
}
use terravoy_backend.Store.Rows.{
  OrderStatus, Order, pending_payment, pending_host_confirm, confirmed, in_service, completed,
  cancelled_refunded, cancelled_by_traveler, disputed,
}
use terravoy_backend.Store.Table.{by_key, update, by_key-update}
use terravoy_backend.Store.Db.{Db}
use terravoy_backend.Orders.View.{order_id}
use terravoy_backend.Orders.Step.{
  Edge, pay, accept, reject, start, finish, cancel, from_pending_payment, from_pending_host,
  from_confirmed, from_refunded, from_cancelled, from_disputed, Frame, IsPaidUp, OrderStep,
  untouched, moved, touched, created, OrderSteps, done, more,
}
use terravoy_backend.Orders.Audit.{IsAudited, OrderSteps-IsAudited}

-- The status stays or follows the diagram.
pub data Course (s : OrderStatus) : OrderStatus → Type 0 where
  stays : Course s s
  goes : {t u : OrderStatus} → Course s t → Edge t u → Course s u

pub Course-trans : {s t u : OrderStatus} → Course s t → Course t u → Course s u
Course-trans c stays = c
Course-trans c (goes d e) = goes (Course-trans c d) e

-- `o'` is what `o` has become.
pub record Follows (o o' : Order) : Type 0 where
  pub frame : Frame o o'
  pub course : Course o.status o'.status
  pub paid_up : IsPaidUp o → IsPaidUp o'

abbrev pub Becomes : (id : ℕ) → Order → Db → Type 0
Becomes id o db = (o' : Order) × (by_key order_id id db.orders ≡ some o') × Follows o o'

Frame-refl : (o : Order) → Frame o o
Frame-refl o = record {
  id = refl;
  traveler_id = refl;
  host_id = refl;
  experience_id = refl;
  start_time = refl;
  total_amount = refl;
  created_at = refl;
}

Frame-trans : {a b c : Order} → Frame a b → Frame b c → Frame a c
Frame-trans f g = record {
  id = g.id ∙ f.id;
  traveler_id = g.traveler_id ∙ f.traveler_id;
  host_id = g.host_id ∙ f.host_id;
  experience_id = g.experience_id ∙ f.experience_id;
  start_time = g.start_time ∙ f.start_time;
  total_amount = g.total_amount ∙ f.total_amount;
  created_at = g.created_at ∙ f.created_at;
}

pub Follows-refl : (o : Order) → Follows o o
Follows-refl o = record { frame = Frame-refl o; course = stays; paid_up = λ h. h }

pub Follows-trans : {a b c : Order} → Follows a b → Follows b c → Follows a c
Follows-trans f g = record {
  frame = Frame-trans f.frame g.frame;
  course = Course-trans f.course g.course;
  paid_up = λ h. g.paid_up (f.paid_up h);
}

-- An updated row is found under its id, and another row is found as it was.
found_after :
    (id i : ℕ) (f : Order → Order) (o : Order) (db db' : Db)
    → ((r : Order) → Frame r (f r))
    → db'.orders ≡ update order_id id f db.orders
    → by_key order_id i db.orders ≡ some o
    → by_key order_id i db'.orders ≡ some (if id == i then f o else o)
found_after id i f o db db' frame e found =
    rw e (ground (arith, by_key-update order_id id i f db.orders (λ r. (frame r).id)))

edge-Course : {s t u : OrderStatus} → Edge s t → u ≡ t → Course s u
edge-Course {s} e p = subst (λ x. Course s x) (sym p) (goes stays e)

same-Course : {s t : OrderStatus} → t ≡ s → Course s t
same-Course {s} p = subst (λ x. Course s x) (sym p) stays

-- The order that a step changed, or any other one.
chosen :
    (k id : ℕ) (o : Order) (f : Order → Order)
    → (k ≡ id → Follows o (f o))
    → Follows o (if k == id then f o else o)
chosen k id o f follows = elim (Bool-cases (k == id)) [
  | inl e ↦ rw e (follows ((==_iff k id).0 e))
  | inr e ↦ rw e (Follows-refl o)
]

found_at :
    (k id : ℕ) (o : Order) (db : Db)
    → by_key order_id id db.orders ≡ some o
    → k ≡ id
    → by_key order_id k db.orders ≡ some o
found_at k id o db found e = rw e found

same_found :
    (k id : ℕ) (o o₀ : Order) (db : Db)
    → by_key order_id id db.orders ≡ some o
    → by_key order_id k db.orders ≡ some o₀
    → k ≡ id
    → o₀ ≡ o
same_found k id o o₀ db found found₀ e = cc (found_at k id o db found e)

new_row_elsewhere :
    (id : ℕ) (o o₀ : Order) (db : Db)
    → IsAudited db
    → o₀.id ≡ db.next_order
    → by_key order_id id db.orders ≡ some o
    → by_key order_id id (o₀ ∷ db.orders) ≡ some o
new_row_elsewhere id o o₀ db h e found = ground (arith, h.unused id)

no_edge_from_completed : {s t : OrderStatus} → Edge s t → s ≡ completed → t ≡ completed
no_edge_from_completed (cancel from_pending_payment) e = cc
no_edge_from_completed (cancel from_pending_host) e = cc
no_edge_from_completed (cancel from_confirmed) e = cc
no_edge_from_completed (cancel from_refunded) e = cc
no_edge_from_completed (cancel from_cancelled) e = cc
no_edge_from_completed (cancel from_disputed) e = cc
no_edge_from_completed pay e = cc
no_edge_from_completed accept e = cc
no_edge_from_completed reject e = cc
no_edge_from_completed start e = cc
no_edge_from_completed finish e = refl

-- How far an order has come; the cancelled statuses stand last.
abbrev pub phase : OrderStatus → ℕ
phase pending_payment = 0
phase pending_host_confirm = 1
phase confirmed = 2
phase in_service = 3
phase completed = 4
phase cancelled_refunded = 4
phase cancelled_by_traveler = 4
phase disputed = 2

Edge-phase : {s t : OrderStatus} → Edge s t → phase s ≤ phase t
Edge-phase pay = omega arith
Edge-phase accept = omega arith
Edge-phase reject = omega arith
Edge-phase start = omega arith
Edge-phase finish = omega arith
Edge-phase (cancel from_pending_payment) = omega arith
Edge-phase (cancel from_pending_host) = omega arith
Edge-phase (cancel from_confirmed) = omega arith
Edge-phase (cancel from_refunded) = omega arith
Edge-phase (cancel from_cancelled) = omega arith
Edge-phase (cancel from_disputed) = omega arith

-- Any one step keeps the order, its fixed columns and the diagram.
step-Becomes :
    {db db' : Db} (id : ℕ) (o : Order)
    → IsAudited db
    → OrderStep db db'
    → by_key order_id id db.orders ≡ some o
    → Becomes id o db'
step-Becomes id o h (untouched u) found = (o, rw u.orders found, Follows-refl o)
step-Becomes {db} {db'} id o h (moved k o₀ f l found₀ named from to edge frame pays m) found = (
  (if k == id then f o else o),
  found_after k id f o db db' frame m.orders found,
  chosen k id o f λ e.
      subst (λ x. Follows x (f x)) (same_found k id o o₀ db found found₀ e)
        (record { frame = frame o₀; course = edge-Course edge to; paid_up = pays }),
)
step-Becomes {db} {db'} id o h (touched k f frame kept t) found = (
  (if k == id then f o else o),
  found_after k id f o db db' frame t.orders found,
  chosen k id o f λ e.
      let (same, pays) = kept o (found_at k id o db found e) in
      record { frame = frame o; course = same-Course same; paid_up = pays },
)
step-Becomes {db} id o h (created o₀ l named from to status pay₀ c) found =
    (o, rw c.orders (new_row_elsewhere id o o₀ db h c.id found), Follows-refl o)

-- Over any number of steps an order keeps its fixed columns, and its status follows the diagram.
pub steps-Becomes :
    {db db' : Db} (id : ℕ) (o : Order)
    → IsAudited db
    → OrderSteps db db'
    → by_key order_id id db.orders ≡ some o
    → Becomes id o db'
steps-Becomes id o h done found = (o, found, Follows-refl o)
steps-Becomes id o h (more r s) found =
    let (o₁, found₁, follows₁) = steps-Becomes id o h r found in
    let (o₂, found₂, follows₂) = step-Becomes id o₁ (OrderSteps-IsAudited r h) s found₁ in
    (o₂, found₂, Follows-trans follows₁ follows₂)

-- No edge leaves `completed`.
pub Course-completed : {s t : OrderStatus} → Course s t → s ≡ completed → t ≡ completed
Course-completed stays e = e
Course-completed (goes c edge) e = no_edge_from_completed edge (Course-completed c e)

-- An order never goes back.
pub Course-phase : {s t : OrderStatus} → Course s t → phase s ≤ phase t
Course-phase stays = omega arith
Course-phase (goes c edge) = omega (arith, Course-phase c, Edge-phase edge)
