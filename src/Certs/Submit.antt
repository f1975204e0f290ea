-- ===== src/Certs/Submit.antt =====
-- The route `POST /v1/host-certifications/submit`.
use terravoy_backend.Prelude.{ℕ, Bool, true, false, not, none, some}
use terravoy_backend.Store.Rows.{UserId}
use terravoy_backend.Store.Db.{
  M, Reply, ok, error, cert_state, not_found, invalid_status, pure, gets, or_reply, reply_if, ◌>>=◌,
  ◌>>◌,
}
use terravoy_backend.Store.CertRows.{HostCert, cert_submitted, cert_approved, submitted, approved}
use terravoy_backend.Auth.Host.{clear_approved_host_cache}
use terravoy_backend.Certs.State.{
  CertSettings, find_cert, set_cert, insert_audit, set_experiences, serialize_state,
}
use terravoy_backend.Certs.Validate.{validate_documents}
use terravoy_backend.Certs.Draft.{is_editable}

abbrev pub submitted_at_now : (now : ℕ) → HostCert → HostCert
submitted_at_now now c = record c {
  status = cert_submitted;
  submitted_at = some now;
  updated_at = now;
  reject_reason = none;
}

-- The statement of every approval: by the server itself, or by an administrator.
abbrev pub approved_by : (now : ℕ) → UserId → HostCert → HostCert
approved_by now u c = record c {
  status = cert_approved;
  reviewed_at = some now;
  reviewer_id = u;
  reject_reason = none;
  updated_at = now;
}

-- `if (config.flags.hostCertAutoApprove)`
abbrev pub auto_approve_row : Bool → UserId → HostCert → M HostCert
auto_approve_row false u row = pure row
auto_approve_row true u row = do
  now ← gets (λ db. db.now)
  set_cert row.id (approved_by now u)
  insert_audit row.id u approved
  set_experiences cert_approved u
  pure (approved_by now u row)

unfoldable pub handle_submit : CertSettings → UserId → M Reply
unfolding validate_documents
handle_submit s u = do
  found ← gets (λ db. find_cert u db.certs)
  existing ← or_reply found (error not_found 404)
  reply_if (not (is_editable s existing.status)) (error invalid_status 409)
  validate_documents u existing.documents
  now ← gets (λ db. db.now)
  set_cert existing.id (submitted_at_now now)
  insert_audit existing.id u submitted
  set_experiences cert_submitted u
  row ← auto_approve_row s.auto_approve u (submitted_at_now now existing)
  clear_approved_host_cache u
  pure (ok (cert_state (serialize_state (some row))) 200)
