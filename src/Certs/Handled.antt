-- ===== src/Certs/Handled.antt =====
-- Every request for certifications is one step of `Certs/Step.antt`.
use mathlib.Core.Path.{subst}
use mathlib.Core.Bool.{false≢true}
use terravoy_backend.Prelude.{
  ◌≡◌, Bool, true, false, none, some, [], refl, sym, arith, ◌&&◌, modify-modify, ◌==◌, Bool-cases,
  Option-cases, or_else, inl, inr,
}
use terravoy_backend.Store.Rows.{UserId, missing, blank, malformed, uuid}
use terravoy_backend.Store.Table.{by_key}
use terravoy_backend.Store.Db.{Db}
use terravoy_backend.Store.CertRows.{
  HostCert, CertStatus, cert_draft, cert_rejected, cert_submitted, cert_none, cert_reviewing,
  cert_approved,
}
use terravoy_backend.Auth.Host.{clear_approved_host_cache}
use terravoy_backend.Certs.Documents.{normalize_documents}
use terravoy_backend.Certs.State.{
  CertSettings, cert_id, find_cert, normalize_profile, empty_profile,
}
use terravoy_backend.Certs.Draft.{
  DraftBody, is_editable, new_cert, redrafted, incoming_documents, first_draft, next_draft,
  handle_save_draft,
}
use terravoy_backend.Certs.Submit.{handle_submit, submitted_at_now, approved_by}
use terravoy_backend.Certs.Validate.{documents_error, validate_documents}
use terravoy_backend.Certs.Step.{
  approve, CertEdge, CertPath, stay, move, CertStep, kept, inserted, changed, IsRegister, edit,
  edit_rejected, edit_submitted, submit, submit_rejected, submit_again,
}
use terravoy_backend.Certs.Register.{find_cert-user}

-- The row that the first draft of a request inserts.
abbrev first_row : Db → UserId → DraftBody → HostCert
unfolding normalize_profile normalize_documents
first_row db u body =
    new_cert db.now db.next_cert u (normalize_profile empty_profile body.profile)
      (or_else (incoming_documents body) [])

first_draft_step :
    (s : CertSettings) (u : UserId) (body : DraftBody) (db : Db)
    → find_cert u db.certs ≡ none
    → CertStep s.auto_approve db (handle_save_draft s u body db).0
unfolding handle_save_draft first_draft clear_approved_host_cache normalize_profile
    normalize_documents
first_draft_step s missing body db e = kept (ground arith)
first_draft_step s (uuid n) body db e = inserted (first_row db (uuid n) body) record {
  is_new = e;
  named = refl;
  next_id = refl;
  is_draft = refl;
  certs = ground arith;
  host_cache = ground arith;
  next_cert = ground arith;
}
first_draft_step s (malformed n) body db e = inserted (first_row db (malformed n) body) record {
  is_new = e;
  named = refl;
  next_id = refl;
  is_draft = refl;
  certs = ground arith;
  host_cache = ground arith;
  next_cert = ground arith;
}
first_draft_step s blank body db e = inserted (first_row db blank body) record {
  is_new = e;
  named = refl;
  next_id = refl;
  is_draft = refl;
  certs = ground arith;
  host_cache = ground arith;
  next_cert = ground arith;
}

and_true : (a b : Bool) → (a && b) ≡ true → (a ≡ true) × (b ≡ true)
and_true a b h = (ground arith, ground arith)

module _ (s : CertSettings) where
  editable_draft :
      (st : CertStatus) → is_editable s st ≡ true → CertEdge s.auto_approve st cert_draft
  editable_draft cert_draft h = edit
  editable_draft cert_rejected h = edit_rejected
  editable_draft cert_submitted h = edit_submitted (and_true s.auto_approve true h).0
  editable_draft cert_none h = absurd (false≢true (and_true s.auto_approve false h).1)
  editable_draft cert_reviewing h = absurd (false≢true (and_true s.auto_approve false h).1)
  editable_draft cert_approved h = absurd (false≢true (and_true s.auto_approve false h).1)

  editable_submit :
      (st : CertStatus) → is_editable s st ≡ true → CertEdge s.auto_approve st cert_submitted
  editable_submit cert_draft h = submit
  editable_submit cert_rejected h = submit_rejected
  editable_submit cert_submitted h = submit_again (and_true s.auto_approve true h).0
  editable_submit cert_none h = absurd (false≢true (and_true s.auto_approve false h).1)
  editable_submit cert_reviewing h = absurd (false≢true (and_true s.auto_approve false h).1)
  editable_submit cert_approved h = absurd (false≢true (and_true s.auto_approve false h).1)

module _ (s : CertSettings) (u : UserId) (db : Db) (c : HostCert) (h : IsRegister db)
    (e : find_cert u db.certs ≡ some c) where
  own_id : by_key cert_id c.id db.certs ≡ some c
  own_id =
      h.by_user c (subst (λ v. find_cert v db.certs ≡ some c) (sym (find_cert-user u db c e)) e)

  next_draft_step :
      (body : DraftBody) → CertStep s.auto_approve db (handle_save_draft s u body db).0
  unfolding handle_save_draft next_draft clear_approved_host_cache normalize_profile
      normalize_documents
  next_draft_step body = elim (Bool-cases (is_editable s c.status)) [
    | inl t ↦ changed c draft record {
      found = own_id;
      same_id = λ c. refl;
      same_user = λ c. refl;
      path = move (editable_draft s c.status t) stay;
      certs = ground arith;
      host_cache = ground (arith, find_cert-user u db c e);
      next_cert = ground arith;
    }
    | inr t ↦ kept (ground arith)
  ]
    where
      draft : HostCert → HostCert
      draft =
          redrafted db.now (normalize_profile c.profile body.profile)
            (or_else (incoming_documents body) c.documents)

  -- The row after a submission, and after the approval that follows at once.
  abbrev on_submit : Bool → HostCert → HostCert
  on_submit false = submitted_at_now db.now
  on_submit true = λ r. approved_by db.now u (submitted_at_now db.now r)

  submit_path :
      (b : Bool)
      → is_editable s c.status ≡ true
      → CertPath s.auto_approve c.status (on_submit b c).status
  submit_path false t = move (editable_submit s c.status t) stay
  submit_path true t = move (editable_submit s c.status t) (move approve stay)

  submit_step : CertStep s.auto_approve db (handle_submit s u db).0
  unfolding handle_submit validate_documents clear_approved_host_cache
  submit_step = elim (Bool-cases (is_editable s c.status)) [
    | inl t ↦ elim (Option-cases (documents_error u db.assets c.documents)) [
      | inl d ↦ elim (Bool-cases s.auto_approve) [
        | inl a ↦ changed c (on_submit true) record {
          found = own_id;
          same_id = λ c. refl;
          same_user = λ c. refl;
          path = submit_path true t;
          certs = ground (
            arith,
            modify-modify (λ (r : HostCert). r.id == c.id) (submitted_at_now db.now)
                (approved_by db.now u) db.certs (λ r. refl),
          );
          host_cache = ground (arith, find_cert-user u db c e);
          next_cert = ground arith;
        }
        | inr a ↦ changed c (on_submit false) record {
          found = own_id;
          same_id = λ c. refl;
          same_user = λ c. refl;
          path = submit_path false t;
          certs = ground arith;
          host_cache = ground (arith, find_cert-user u db c e);
          next_cert = ground arith;
        }
      ]
      | inr (x, d) ↦ kept (ground arith)
    ]
    | inr t ↦ kept (ground arith)
  ]

no_cert-CertStep :
    (s : CertSettings) (u : UserId) (db : Db)
    → find_cert u db.certs ≡ none
    → CertStep s.auto_approve db (handle_submit s u db).0
unfolding handle_submit
no_cert-CertStep s u db e = kept (ground arith)

pub save_draft_step :
    (s : CertSettings) (u : UserId) (body : DraftBody) (db : Db)
    → IsRegister db
    → CertStep s.auto_approve db (handle_save_draft s u body db).0
save_draft_step s u body db h = elim (Option-cases (find_cert u db.certs)) [
  | inl e ↦ first_draft_step s u body db e
  | inr (c, e) ↦ next_draft_step s u db c h e body
]

pub handle_submit_step :
    (s : CertSettings) (u : UserId) (db : Db)
    → IsRegister db
    → CertStep s.auto_approve db (handle_submit s u db).0
handle_submit_step s u db h = elim (Option-cases (find_cert u db.certs)) [
  | inl e ↦ no_cert-CertStep s u db e
  | inr (c, e) ↦ submit_step s u db c h e
]
