-- ===== src/Match/Keeps.antt =====
-- Actions that keep a property of the database, one rule for each way to build an action.
use terravoy_backend.Prelude.{Bool, true, false, Option, none, some}
use terravoy_backend.Store.Db.{
  Db, M, Reply, Error, Outcome, value, returned, thrown, ◌>>=◌, then_do, pure, gets, or_reply,
  reply_if, throw,
}
use terravoy_backend.Payments.Gateway.{Answer, answered, raised, from_answer}

-- Run in any state with the property, `m` leaves one with it.
pub record Keeps (P : Db → Type 0) {A : Type 0} (m : M A) : Type 0 where
  pub at : (db : Db) → P db → P (m db).0

module _ {P : Db → Type 0} where
  module _ {A : Type 0} where
    pub Keeps-pure : (a : A) → Keeps P (pure a)
    Keeps-pure a = record { at = λ db h. h }

    pub Keeps-gets : (f : Db → A) → Keeps P (gets f)
    Keeps-gets f = record { at = λ db h. h }

    pub Keeps-throw : (e : Error) → Keeps P {A = A} (throw e)
    Keeps-throw e = record { at = λ db h. h }

    pub Keeps-or_reply : (o : Option A) (r : Reply) → Keeps P (or_reply o r)
    Keeps-or_reply none r = record { at = λ db h. h }
    Keeps-or_reply (some a) r = record { at = λ db h. h }

    pub Keeps-from_answer : (a : Answer A) → Keeps P (from_answer a)
    Keeps-from_answer (answered a) = record { at = λ db h. h }
    Keeps-from_answer raised = record { at = λ db h. h }

  pub Keeps-reply_if : (b : Bool) (r : Reply) → Keeps P (reply_if b r)
  Keeps-reply_if true r = record { at = λ db h. h }
  Keeps-reply_if false r = record { at = λ db h. h }

  module _ {A B : Type 0} where
    Keeps-after :
        (f : A → M B) (db : Db) (r : Outcome A)
        → ((a : A) → Keeps P (f a))
        → P db
        → P (then_do f db r).0
    Keeps-after f db (value a) k h = (k a).at db h
    Keeps-after f db (returned r) k h = h
    Keeps-after f db (thrown e) k h = h

    pub Keeps-bind :
        (m : M A) (f : A → M B) → Keeps P m → ((a : A) → Keeps P (f a)) → Keeps P (m >>= f)
    Keeps-bind m f h k = record {
      at = λ db p. let (db', r) = m db in Keeps-after f db' r k (h.at db p);
    }

pub ruleset keeps_rules = (
  Keeps-pure, Keeps-gets, Keeps-throw, Keeps-or_reply, Keeps-from_answer, Keeps-reply_if,
  Keeps-bind,
)
