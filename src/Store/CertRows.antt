-- ===== src/Store/CertRows.antt =====
-- The rows that routes/hostCertifications.js, routes/adminHostCertifications.js and
-- middlewares/requireApprovedHost.js read and write, and the JSON values inside them. A JSON object
-- is the function that looks a key up in it; texts are numbers, as in `Store/Rows.antt`.
use terravoy_backend.Prelude.{ℕ, Bool, Option, List}
use terravoy_backend.Store.Rows.{UserId}

-- The statuses of `host_certifications`, and `none` for a user without a row.
pub data CertStatus : Type 0 where
  cert_none cert_draft cert_submitted cert_reviewing cert_approved cert_rejected : CertStatus

-- A text of a request that names a row by its uuid is classified as a user id is.
abbrev pub TextId : Type 0
TextId = UserId

-- A JSON object without its order of keys; `none` is a key that is missing.
abbrev pub Fields : Type 0
Fields = ℕ → Option ℕ

-- The column `profile`: `credentials` and `compliance` are objects where they are there.
pub record CertProfile : Type 0 where
  pub credentials : Option Fields
  pub compliance : Option Fields
  pub others : Fields

-- One entry of the column `documents`; a text that is empty is `none`.
pub record Document : Type 0 where
  pub media_asset_id : TextId
  pub object_key : ℕ
  pub doc_type : ℕ
  pub name : Option ℕ
  pub size_bytes : ℕ
  pub mime : Option ℕ

pub record HostCert : Type 0 where
  pub id : ℕ
  pub user_id : UserId
  pub status : CertStatus
  pub profile : CertProfile
  pub documents : List Document
  pub submitted_at : Option ℕ
  pub reviewed_at : Option ℕ
  pub reviewer_id : UserId
  pub reject_reason : Option ℕ
  pub created_at : ℕ
  pub updated_at : ℕ

pub record CachedCert : Type 0 where
  pub user_id : UserId
  pub status : CertStatus
  pub expires_at : ℕ

pub data AuditAction : Type 0 where
  draft_saved submitted set_reviewing approved rejected : AuditAction

-- A row of `host_certification_audit_logs`.
pub record CertAudit : Type 0 where
  pub certification_id : ℕ
  pub actor_id : UserId
  pub action : AuditAction

-- A row of `admin_audit_logs` that a decision on a certification leaves.
pub record AdminAudit : Type 0 where
  pub admin_user_id : ℕ
  pub resource_id : ℕ
  pub before : HostCert
  pub after : HostCert
  pub reason : ℕ

pub data Scope : Type 0 where
  post_scope experience_scope avatar_scope kyc_scope : Scope

pub data AssetStatus : Type 0 where
  asset_active asset_rejected : AssetStatus

-- The columns of `media_assets` that the check of the documents reads; `asset_status` is NOT NULL.
pub record Asset : Type 0 where
  pub id : ℕ
  pub object_key : Option ℕ
  pub owner_user_id : UserId
  pub scope : Option Scope
  pub is_private : Bool
  pub status : AssetStatus

-- The columns of `experiences` that the certifications write.
pub record HostExperience : Type 0 where
  pub id : ℕ
  pub host_user_id : UserId
  pub host_cert_status : Option CertStatus

-- One document in the reply of `serializeState`.
pub record DocumentView : Type 0 where
  pub id : TextId
  pub media_asset_id : TextId
  pub object_key : ℕ
  pub category : ℕ
  pub name : ℕ
  pub size_bytes : ℕ
  pub content_type : ℕ

-- `latestPayload` in the reply of `serializeState`.
pub record CertPayload : Type 0 where
  pub credentials : Fields
  pub compliance : Fields
  pub documents : List DocumentView

-- The reply of `serializeState`; a user without a row has the status `not_submitted`, which is
-- `cert_none`. The version is 1 and the badge label null in every reply.
pub record CertState : Type 0 where
  pub status : CertStatus
  pub updated_at : Option ℕ
  pub submitted_at : Option ℕ
  pub approved_at : Option ℕ
  pub rejection_reason : Option ℕ
  pub draft_id : Option ℕ
  pub latest_payload : Option CertPayload
