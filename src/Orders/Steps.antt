-- ===== src/Orders/Steps.antt =====
-- Actions that make steps of `Orders/Step.antt`, one rule for each way to build an action.
use terravoy_backend.Prelude.{ℕ, ◌≡◌, Bool, true, false, Option, none, some, if◌then◌else◌, arith}
use terravoy_backend.Store.Rows.{Order}
use terravoy_backend.Store.Db.{
  Db, M, Outcome, value, returned, thrown, Reply, Error, ◌>>=◌, then_do, pure, gets, or_reply,
  reply_if, throw_if,
}
use terravoy_backend.Auth.Authorize.{Action, Resource, authorize}
use terravoy_backend.Auth.Profile.{ensure_profile}
use terravoy_backend.Store.Rows.{UserId, Role}
use terravoy_backend.Orders.View.{find_order, set_order}
use terravoy_backend.Orders.Step.{
  Untouched, Frame, IsPaidUp, OrderStep, untouched, touched, OrderSteps, done, one_step,
  steps_trans,
}

-- Run in any state, `m` makes steps, whether it returns, replies or throws.
pub record Steps {A : Type 0} (m : M A) : Type 0 where
  pub at : (db : Db) → OrderSteps db (m db).0

module _ {A : Type 0} {m : M A} where
  pub Steps-Untouched : ((db : Db) → Untouched db (m db).0) → Steps m
  Steps-Untouched h = record { at = λ db. one_step (untouched (h db)) }

  pub Steps-step : ((db : Db) → OrderStep db (m db).0) → Steps m
  Steps-step h = record { at = λ db. one_step (h db) }

module _ {A : Type 0} where
  pub Steps-pure : (a : A) → Steps (pure a)
  Steps-pure a = record { at = λ db. done }

  pub Steps-gets : (f : Db → A) → Steps (gets f)
  Steps-gets f = record { at = λ db. done }

  pub Steps-or_reply : (o : Option A) (r : Reply) → Steps (or_reply o r)
  Steps-or_reply none r = record { at = λ db. done }
  Steps-or_reply (some a) r = record { at = λ db. done }

  -- A query whose result decides whether to go on.
  pub Steps-query : (f : Db → Option A) (r : Reply) → Steps (λ db. or_reply (f db) r db)
  Steps-query f r = record { at = λ db. (Steps-or_reply (f db) r).at db }

pub Steps-reply_if : (b : Bool) (r : Reply) → Steps (reply_if b r)
Steps-reply_if true r = record { at = λ db. done }
Steps-reply_if false r = record { at = λ db. done }

pub Steps-throw_if : (b : Bool) (e : Error) → Steps (throw_if b e)
Steps-throw_if true e = record { at = λ db. done }
Steps-throw_if false e = record { at = λ db. done }

pub Steps-if : {A : Type 0} (b : Bool) (m n : M A) → Steps m → Steps n → Steps (if b then m else n)
Steps-if true m n h k = h
Steps-if false m n h k = k

pub Steps-ensure_profile : (u : UserId) → Steps (ensure_profile u)
unfolding ensure_profile
Steps-ensure_profile u = Steps-Untouched (λ db. ground arith)

pub Steps-find_order : (id : ℕ) → Steps (find_order id)
unfolding find_order
Steps-find_order id = Steps-Untouched (λ db. ground arith)

pub Steps-authorize :
    (role : Role) (me : ℕ) (action : Action) (r : Resource) → Steps (authorize role me action r)
unfolding authorize
Steps-authorize role me action r = Steps-Untouched (λ db. ground arith)

-- An update of an order that keeps its fixed columns, its status and its invariant.
pub Steps-set_order :
    (id : ℕ) (f : ℕ → Order → Order)
    → ((now : ℕ) (r : Order) → Frame r (f now r))
    → ((now : ℕ) (o : Order) → ((f now o).status ≡ o.status) × (IsPaidUp o → IsPaidUp (f now o)))
    → Steps (set_order id f)
Steps-set_order id f frame kept =
    Steps-step (λ db. touched id (f db.now) (frame db.now) (λ o h. kept db.now o) (ground arith))

module _ {A B : Type 0} where
  Steps-after :
      (f : A → M B) (db : Db) (r : Outcome A)
      → ((a : A) → Steps (f a))
      → OrderSteps db (then_do f db r).0
  Steps-after f db (value a) h = (h a).at db
  Steps-after f db (returned r) h = done
  Steps-after f db (thrown e) h = done

  pub Steps-bind : (m : M A) (f : A → M B) → Steps m → ((a : A) → Steps (f a)) → Steps (m >>= f)
  Steps-bind m f h k = record {
    at = λ db. let (db', r) = m db in steps_trans (h.at db) (Steps-after f db' r k);
  }

pub ruleset steps_rules = (
  Steps-pure, Steps-gets, Steps-or_reply, Steps-query, Steps-reply_if, Steps-throw_if, Steps-if,
  Steps-ensure_profile, Steps-find_order, Steps-authorize, Steps-bind,
)
