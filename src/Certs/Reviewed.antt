-- ===== src/Certs/Reviewed.antt =====
-- The reviews of the administrators, as steps of `Certs/Step.antt`.
use mathlib.Core.Path.{subst}
use mathlib.Core.Bool.{false≢true}
use terravoy_backend.Prelude.{
  ℕ, ◌≡◌, Bool, true, false, is_some, Option, none, some, refl, sym, arith, Bool-cases,
  Option-cases, inl, inr,
}
use terravoy_backend.Store.Rows.{missing, blank, malformed, uuid}
use terravoy_backend.Store.Table.{by_key}
use terravoy_backend.Store.Db.{Db}
use terravoy_backend.Store.CertRows.{
  HostCert, CertStatus, cert_none, cert_draft, cert_submitted, cert_reviewing, cert_approved,
  cert_rejected, TextId,
}
use terravoy_backend.Auth.Host.{clear_approved_host_cache}
use terravoy_backend.Certs.State.{CertSettings, cert_id, ensure_admin}
use terravoy_backend.Certs.Draft.{is_submitted}
use terravoy_backend.Certs.Submit.{approved_by}
use terravoy_backend.Certs.Review.{
  Reviewer, ReviewAction, blank_choice, unknown_choice, mark_reviewing, approve, reject, is_pending,
  marked, rejected_by, cert_by_id, decide_review, handle_review_cert,
}
use terravoy_backend.Certs.Step
use terravoy_backend.Certs.Step.{
  CertEdge, CertPath, stay, move, CertsKept, CertStep, kept, changed, IsRegister, approve_reviewed,
  reject_reviewed,
}
use terravoy_backend.Certs.Register.{by_key-id}

pub pending_approved :
    {auto : Bool} → (st : CertStatus) → is_pending st ≡ true → CertEdge auto st cert_approved
pending_approved cert_submitted h = Step.approve
pending_approved cert_reviewing h = approve_reviewed
pending_approved cert_none h = absurd (false≢true h)
pending_approved cert_draft h = absurd (false≢true h)
pending_approved cert_approved h = absurd (false≢true h)
pending_approved cert_rejected h = absurd (false≢true h)

pub pending_rejected :
    {auto : Bool} → (st : CertStatus) → is_pending st ≡ true → CertEdge auto st cert_rejected
pending_rejected cert_submitted h = Step.reject
pending_rejected cert_reviewing h = reject_reviewed
pending_rejected cert_none h = absurd (false≢true h)
pending_rejected cert_draft h = absurd (false≢true h)
pending_rejected cert_approved h = absurd (false≢true h)
pending_rejected cert_rejected h = absurd (false≢true h)

submitted_reviewing :
    {auto : Bool} → (st : CertStatus) → is_submitted st ≡ true → CertEdge auto st cert_reviewing
submitted_reviewing cert_submitted h = Step.mark_reviewing
submitted_reviewing cert_reviewing h = absurd (false≢true h)
submitted_reviewing cert_none h = absurd (false≢true h)
submitted_reviewing cert_draft h = absurd (false≢true h)
submitted_reviewing cert_approved h = absurd (false≢true h)
submitted_reviewing cert_rejected h = absurd (false≢true h)

pub found_by_id :
    (n : ℕ) (db : Db) (c : HostCert)
    → by_key cert_id n db.certs ≡ some c
    → by_key cert_id c.id db.certs ≡ some c
found_by_id n db c e = subst (λ i. by_key cert_id i db.certs ≡ some c) (sym (by_key-id n db c e)) e

module _ (s : CertSettings) (who : Reviewer) (n : ℕ) (reason : Option ℕ) (db : Db) where
  -- The administrator is known, the action is one of the three, and the row is there.
  module _ (c : HostCert) (e : by_key cert_id n db.certs ≡ some c)
      (k : ensure_admin s who.token who.role who.admin_key ≡ true) where
    marked_step :
        CertStep s.auto_approve db (handle_review_cert s who (uuid n) mark_reviewing reason db).0
    unfolding handle_review_cert cert_by_id decide_review clear_approved_host_cache
    marked_step = elim (Bool-cases (is_submitted c.status)) [
      | inl t ↦ changed c (marked db.now) record {
        found = found_by_id n db c e;
        same_id = λ c. refl;
        same_user = λ c. refl;
        path = move (submitted_reviewing c.status t) stay;
        certs = ground arith;
        host_cache = ground arith;
        next_cert = ground arith;
      }
      | inr t ↦ kept (ground arith)
    ]

    approved_step :
        CertStep s.auto_approve db (handle_review_cert s who (uuid n) approve reason db).0
    unfolding handle_review_cert cert_by_id decide_review clear_approved_host_cache
    approved_step = elim (Bool-cases (is_pending c.status)) [
      | inl t ↦ changed c (approved_by db.now who.user_id) record {
        found = found_by_id n db c e;
        same_id = λ c. refl;
        same_user = λ c. refl;
        path = move (pending_approved c.status t) stay;
        certs = ground arith;
        host_cache = ground arith;
        next_cert = ground arith;
      }
      | inr t ↦ kept (ground arith)
    ]

    rejected_step :
        CertStep s.auto_approve db (handle_review_cert s who (uuid n) reject reason db).0
    unfolding handle_review_cert cert_by_id decide_review clear_approved_host_cache
    rejected_step = elim (Bool-cases (is_pending c.status)) [
      | inl t ↦ elim (Bool-cases (is_some reason)) [
        | inl r ↦ changed c (rejected_by db.now who.user_id reason) record {
          found = found_by_id n db c e;
          same_id = λ c. refl;
          same_user = λ c. refl;
          path = move (pending_rejected c.status t) stay;
          certs = ground arith;
          host_cache = ground arith;
          next_cert = ground arith;
        }
        | inr r ↦ kept (ground arith)
      ]
      | inr t ↦ kept (ground arith)
    ]

    reviewed_step :
        (action : ReviewAction)
        → CertStep s.auto_approve db (handle_review_cert s who (uuid n) action reason db).0
    unfolding handle_review_cert cert_by_id decide_review
    reviewed_step mark_reviewing = marked_step
    reviewed_step approve = approved_step
    reviewed_step reject = rejected_step
    reviewed_step blank_choice = kept (ground arith)
    reviewed_step unknown_choice = kept (ground arith)

  unreviewed_step :
      (action : ReviewAction)
      → by_key cert_id n db.certs ≡ none
      → CertStep s.auto_approve db (handle_review_cert s who (uuid n) action reason db).0
  unfolding handle_review_cert cert_by_id
  unreviewed_step action e = kept (ground arith)

  not_admin_step :
      (id : TextId) (action : ReviewAction)
      → ensure_admin s who.token who.role who.admin_key ≡ false
      → CertStep s.auto_approve db (handle_review_cert s who id action reason db).0
  unfolding handle_review_cert
  not_admin_step id action k = kept (ground arith)

pub review_step :
    (s : CertSettings) (who : Reviewer) (id : TextId) (action : ReviewAction) (reason : Option ℕ)
    (db : Db)
    → CertStep s.auto_approve db (handle_review_cert s who id action reason db).0
unfolding handle_review_cert cert_by_id
review_step s who (uuid n) action reason db =
    elim (Bool-cases (ensure_admin s who.token who.role who.admin_key)) [
      | inl k ↦ elim (Option-cases (by_key cert_id n db.certs)) [
        | inl e ↦ unreviewed_step s who n reason db action e
        | inr (c, e) ↦ reviewed_step s who n reason db c e k action
      ]
      | inr k ↦ not_admin_step s who n reason db (uuid n) action k
    ]
review_step s who missing action reason db = kept (ground arith)
review_step s who blank action reason db = kept (ground arith)
review_step s who (malformed n) action reason db = kept (ground arith)
