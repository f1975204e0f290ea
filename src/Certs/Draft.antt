-- ===== src/Certs/Draft.antt =====
-- The routes `GET /v1/host-certifications/me` and `PUT /v1/host-certifications/draft`.
use terravoy_backend.Prelude.{
  ℕ, Bool, true, false, not, ◌&&◌, ◌||◌, ◌+◌, Option, none, some, List, [], ◌∷◌, or_else,
}
use terravoy_backend.Store.Rows.{UserId, missing}
use terravoy_backend.Store.Db.{
  M, Reply, ok, error, cert_state, invalid_status, exception, pure, gets, reply_if, throw, value,
  ◌>>=◌, ◌>>◌,
}
use terravoy_backend.Store.CertRows.{
  HostCert, CertStatus, cert_draft, cert_rejected, cert_submitted, CertProfile, Document,
  draft_saved,
}
use terravoy_backend.Auth.Host.{clear_approved_host_cache}
use terravoy_backend.Certs.Documents.{RawDocument, normalize_documents}
use terravoy_backend.Certs.State.{
  CertSettings, find_cert, set_cert, insert_audit, serialize_state, normalize_profile,
  empty_profile,
}

-- `ALLOWED_UPDATE_STATUSES` and `SUBMIT_ALLOWED_STATUSES`
abbrev pub is_open : CertStatus → Bool
is_open cert_draft = true
is_open cert_rejected = true
is_open _ = false

abbrev pub is_submitted : CertStatus → Bool
is_submitted cert_submitted = true
is_submitted _ = false

-- The status lets the host edit or submit.
abbrev pub is_editable : CertSettings → CertStatus → Bool
is_editable s status = is_open status || s.auto_approve && is_submitted status

-- `profile` is `none` if it is missing or no object. `documents` is `none` if it is missing, and
-- `some none` if it is no array.
pub record DraftBody : Type 0 where
  pub profile : Option CertProfile
  pub documents : Option (Option (List (Option RawDocument)))

-- The documents that the request brings, normalized.
abbrev pub incoming_documents : DraftBody → Option (List Document)
unfolding normalize_documents
incoming_documents body = elim body.documents [
  | none ↦ none
  | some raw ↦ some (normalize_documents raw)
]

abbrev pub new_cert : (now id : ℕ) → UserId → CertProfile → List Document → HostCert
new_cert now id u profile documents = record {
  id = id;
  user_id = u;
  status = cert_draft;
  profile = profile;
  documents = documents;
  submitted_at = none;
  reviewed_at = none;
  reviewer_id = missing;
  reject_reason = none;
  created_at = now;
  updated_at = now;
}

abbrev pub redrafted : (now : ℕ) → CertProfile → List Document → HostCert → HostCert
redrafted now profile documents c = record c {
  status = cert_draft;
  profile = profile;
  documents = documents;
  submitted_at = none;
  reviewed_at = none;
  reviewer_id = missing;
  reject_reason = none;
  updated_at = now;
}

-- `user_id` is NOT NULL.
abbrev pub insert_cert : UserId → CertProfile → List Document → M HostCert
insert_cert missing profile documents = throw exception
insert_cert u profile documents = λ db.
    let row = new_cert db.now db.next_cert u profile documents in
    (record db { certs = row ∷ db.certs; next_cert = db.next_cert + 1 }, value row)

-- The branch without a row: the row that is replied.
unfoldable pub first_draft : UserId → DraftBody → M HostCert
unfolding normalize_profile normalize_documents
first_draft u body = do
  row ←
      insert_cert u (normalize_profile empty_profile body.profile)
        (or_else (incoming_documents body) [])
  insert_audit row.id u draft_saved
  pure row

-- The branch with a row.
unfoldable pub next_draft : CertSettings → UserId → DraftBody → HostCert → M HostCert
unfolding normalize_profile normalize_documents
next_draft s u body existing = do
  reply_if (not (is_editable s existing.status)) (error invalid_status 409)
  now ← gets (λ db. db.now)
  let f =
      redrafted now (normalize_profile existing.profile body.profile)
        (or_else (incoming_documents body) existing.documents)
  set_cert existing.id f
  insert_audit existing.id u draft_saved
  pure (f existing)

abbrev pub draft_branch : CertSettings → UserId → DraftBody → Option HostCert → M HostCert
draft_branch s u body none = first_draft u body
draft_branch s u body (some existing) = next_draft s u body existing

unfoldable pub handle_save_draft : CertSettings → UserId → DraftBody → M Reply
unfolding first_draft next_draft
handle_save_draft s u body = do
  existing ← gets (λ db. find_cert u db.certs)
  row ← draft_branch s u body existing
  clear_approved_host_cache u
  pure (ok (cert_state (serialize_state (some row))) 200)

unfoldable pub handle_get_mine : UserId → M Reply
handle_get_mine u = do
  row ← gets (λ db. find_cert u db.certs)
  pure (ok (cert_state (serialize_state row)) 200)
