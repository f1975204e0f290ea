-- ===== src/Certs/Reads.antt =====
-- The actions of the certifications that only read, one rule for each way to build an action.
use terravoy_backend.Prelude.{ℕ, ◌≡◌, Bool, true, false, Option, none, some, refl, ◌∙◌}
use terravoy_backend.Store.Rows.{UserId, uuid, missing, blank, malformed}
use terravoy_backend.Store.Db.{
  Db, M, Reply, Outcome, value, returned, thrown, ◌>>=◌, then_do, pure, gets, or_reply, reply_if,
}
use terravoy_backend.Store.CertRows.{TextId, CertStatus}
use terravoy_backend.Certs.State.{CertSettings}
use terravoy_backend.Certs.Draft.{handle_get_mine}
use terravoy_backend.Certs.Review.{
  Reviewer, QueryNumber, no_number, refused_number, number, number_or, cert_by_id,
  handle_list_certs,
}
use terravoy_backend.Certs.Decide.{
  PageNumber, no_page, bad_page, negative_page, page_number, at_least_one, ListFilter,
  handle_get_cert, handle_admin_list,
}

-- Run in any state, `m` leaves it as it was.
pub record Reads {A : Type 0} (m : M A) : Type 0 where
  pub at : (db : Db) → (m db).0 ≡ db

module _ {A : Type 0} where
  Reads-pure : (a : A) → Reads (pure a)
  Reads-pure a = record { at = λ db. refl }

  Reads-gets : (f : Db → A) → Reads (gets f)
  Reads-gets f = record { at = λ db. refl }

  Reads-or_reply : (o : Option A) (r : Reply) → Reads (or_reply o r)
  Reads-or_reply none r = record { at = λ db. refl }
  Reads-or_reply (some a) r = record { at = λ db. refl }

Reads-reply_if : (b : Bool) (r : Reply) → Reads (reply_if b r)
Reads-reply_if true r = record { at = λ db. refl }
Reads-reply_if false r = record { at = λ db. refl }

Reads-number_or : (q : QueryNumber) (n : ℕ) → Reads (number_or q n)
Reads-number_or no_number n = record { at = λ db. refl }
Reads-number_or refused_number n = record { at = λ db. refl }
Reads-number_or (number m) n = record { at = λ db. refl }

Reads-at_least_one : (p : PageNumber) (n : ℕ) → Reads (at_least_one p n)
Reads-at_least_one no_page n = record { at = λ db. refl }
Reads-at_least_one bad_page n = record { at = λ db. refl }
Reads-at_least_one negative_page n = record { at = λ db. refl }
Reads-at_least_one (page_number m) n = record { at = λ db. refl }

Reads-cert_by_id : (id : TextId) → Reads (cert_by_id id)
unfolding cert_by_id
Reads-cert_by_id (uuid n) = record { at = λ db. refl }
Reads-cert_by_id missing = record { at = λ db. refl }
Reads-cert_by_id blank = record { at = λ db. refl }
Reads-cert_by_id (malformed n) = record { at = λ db. refl }

module _ {A B : Type 0} where
  Reads-after :
      (f : A → M B) (db : Db) (r : Outcome A) → ((a : A) → Reads (f a)) → (then_do f db r).0 ≡ db
  Reads-after f db (value a) k = (k a).at db
  Reads-after f db (returned r) k = refl
  Reads-after f db (thrown e) k = refl

  Reads-bind : (m : M A) (f : A → M B) → Reads m → ((a : A) → Reads (f a)) → Reads (m >>= f)
  Reads-bind m f h k = record { at = λ db. let (db', r) = m db in Reads-after f db' r k ∙ h.at db }

ruleset reads_rules = (
  Reads-pure, Reads-gets, Reads-or_reply, Reads-reply_if, Reads-number_or, Reads-at_least_one,
  Reads-cert_by_id, Reads-bind,
)

pub Reads-handle_get_mine : (u : UserId) → Reads (handle_get_mine u)
unfolding handle_get_mine
Reads-handle_get_mine u = search reads_rules

pub Reads-handle_list_certs :
    (s : CertSettings) (who : Reviewer) (status : CertStatus) (limit cursor : QueryNumber)
    → Reads (handle_list_certs s who status limit cursor)
unfolding handle_list_certs
Reads-handle_list_certs s who status limit cursor = search reads_rules depth 20

pub Reads-handle_admin_list :
    (filter : ListFilter) (page size : PageNumber) → Reads (handle_admin_list filter page size)
unfolding handle_admin_list
Reads-handle_admin_list filter page size = search reads_rules depth 20

pub Reads-handle_get_cert : (id : TextId) → Reads (handle_get_cert id)
unfolding handle_get_cert
Reads-handle_get_cert id = search reads_rules depth 20
