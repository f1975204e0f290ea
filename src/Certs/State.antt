-- ===== src/Certs/State.antt =====
-- `normalizeProfile`, `serializeState`, `insertAudit`, `ensureAdmin` and the statements that the
-- routes of the certifications share.
use terravoy_backend.Prelude.{
  ℕ, Bool, true, false, Option, none, some, List, ◌∷◌, map, first_some, or_else, find, modify, ◌||◌,
  ◌==◌, if◌then◌else◌,
}
use terravoy_backend.Store.Rows.{UserId, user_eq, Role, admin}
use terravoy_backend.Store.Table.{update}
use terravoy_backend.Store.Db.{M, modify_db}
use terravoy_backend.Store.CertRows.{
  HostCert, CertStatus, cert_none, CertProfile, Fields, CertState, AuditAction, HostExperience,
}
use terravoy_backend.Auth.Host.{is_approved}
use terravoy_backend.Certs.Documents.{serialize_document}

abbrev pub no_fields : Fields
no_fields = λ k. none

-- `{ ...base, ...incoming }`
abbrev pub spread : Fields → Fields → Fields
spread base incoming k = first_some (incoming k) (base k)

-- The spread of both objects, if there is one of them.
abbrev pub spread_known : Option Fields → Option Fields → Option Fields
spread_known none none = none
spread_known base incoming = some (spread (or_else base no_fields) (or_else incoming no_fields))

abbrev pub empty_profile : CertProfile
empty_profile = record { credentials = none; compliance = none; others = no_fields }

-- `none` is what is no object.
unfoldable pub normalize_profile : CertProfile → Option CertProfile → CertProfile
normalize_profile base none = base
normalize_profile base (some incoming) = record {
  credentials = spread_known base.credentials incoming.credentials;
  compliance = spread_known base.compliance incoming.compliance;
  others = spread base.others incoming.others;
}

unfoldable pub serialize_state : Option HostCert → CertState
unfolding serialize_document
serialize_state none = record {
  status = cert_none;
  updated_at = none;
  submitted_at = none;
  approved_at = none;
  rejection_reason = none;
  draft_id = none;
  latest_payload = none;
}
serialize_state (some row) = record {
  status = row.status;
  updated_at = some row.updated_at;
  submitted_at = row.submitted_at;
  approved_at = if is_approved row.status then row.reviewed_at else none;
  rejection_reason = row.reject_reason;
  draft_id = some row.id;
  latest_payload = some record {
    credentials = or_else row.profile.credentials no_fields;
    compliance = or_else row.profile.compliance no_fields;
    documents = map serialize_document row.documents;
  };
}

abbrev pub cert_id : HostCert → ℕ
cert_id c = c.id

-- `where user_id = $1 limit 1`; the column is NOT NULL, so a token without a user id finds no row.
abbrev pub find_cert : UserId → List HostCert → Option HostCert
find_cert u = find (λ (c : HostCert). user_eq c.user_id u)

-- `update host_certifications set … where id = $1`
abbrev pub set_cert : ℕ → (HostCert → HostCert) → M (Unit {0})
set_cert id f = modify_db λ db. record db { certs = update cert_id id f db.certs }

abbrev pub insert_audit : (certification_id : ℕ) → UserId → AuditAction → M (Unit {0})
insert_audit id actor action = modify_db λ db. record db {
  cert_audits =
      record { certification_id = id; actor_id = actor; action = action } ∷ db.cert_audits;
}

-- `update experiences set host_cert_status = $1 where host_user_id = $2`
abbrev pub set_experiences : CertStatus → UserId → M (Unit {0})
set_experiences status u = modify_db λ db. record db {
  experiences =
      modify (λ (e : HostExperience). user_eq e.host_user_id u)
        (λ (e : HostExperience). record e { host_cert_status = some status }) db.experiences;
}

-- The settings `config.flags.hostCertAutoApprove` and `config.admin.apiKey`; a key that is not set
-- is `none`.
pub record CertSettings : Type 0 where
  pub auto_approve : Bool
  pub admin_key : Option ℕ

-- The field `tokenType` of what `requireAuth` returns; the code compares it with 'terra'.
pub data TokenType : Type 0 where
  access_token bearer_token terra_token : TokenType

abbrev pub is_terra_admin : TokenType → Role → Bool
is_terra_admin terra_token admin = true
is_terra_admin _ _ = false

abbrev pub is_admin_key : Option ℕ → Option ℕ → Bool
is_admin_key (some a) (some b) = a == b
is_admin_key _ _ = false

-- `header` is the trimmed header `x-admin-key`, `none` if it is empty.
unfoldable pub ensure_admin : CertSettings → TokenType → Role → (header : Option ℕ) → Bool
ensure_admin s token role header = is_admin_key s.admin_key header || is_terra_admin token role
