-- ===== src/Certs/Guards.antt =====
-- When a request may change the certifications.
use mathlib.Core.Option.{none-ne-some}
use terravoy_backend.Prelude.{
  ℕ, ◌≡◌, ◌⊎◌, true, false, Option, none, some, List, [], ◌∷◌, refl, sym, ap, ◌∙◌, arith,
  Bool-cases, Option-cases, inl, inr, All, ==_iff,
}
use terravoy_backend.Store.Rows.{
  UserId, uuid, missing, blank, malformed, user_eq_iff, Role, admin, host, traveler, other_role,
}
use terravoy_backend.Store.Table.{by_key}
use terravoy_backend.Store.Db.{Db, Error, http_error, invalid_document}
use terravoy_backend.Store.CertRows.{
  CertStatus, cert_none, cert_draft, cert_submitted, cert_reviewing, cert_approved, cert_rejected,
  HostCert, Document, Asset, kyc_scope, asset_active, TextId,
}
use terravoy_backend.Certs.State.{
  CertSettings, TokenType, access_token, bearer_token, terra_token, cert_id, find_cert,
  ensure_admin, is_admin_key, is_terra_admin,
}
use terravoy_backend.Certs.Validate.{
  has_license, find_asset, asset_error, document_error, check_each, documents_error,
  validate_documents, first_error,
}
use terravoy_backend.Certs.Draft.{is_editable, is_submitted}
use terravoy_backend.Certs.Review.{
  Reviewer, ReviewAction, mark_reviewing, approve, reject, blank_choice, unknown_choice, is_pending,
  cert_by_id, decide_review, handle_review_cert,
}
use terravoy_backend.Certs.Submit.{handle_submit}

-- A document that may be submitted: its asset is a private, active asset of the user for the
-- certification, and has no other object key.
pub record IsProof (u : UserId) (assets : List Asset) (d : Document) : Type 0 where
  pub asset : Asset
  pub found : find_asset d.media_asset_id assets ≡ some asset
  pub owner : asset.owner_user_id ≡ u
  pub scope : asset.scope ≡ some kyc_scope
  pub private : asset.is_private ≡ true
  pub active : asset.status ≡ asset_active
  pub key : (asset.object_key ≡ none) ⊎ (asset.object_key ≡ some d.object_key)

asset-IsProof :
    (u : UserId) (assets : List Asset) (d : Document) (a : Asset)
    → find_asset d.media_asset_id assets ≡ some a
    → asset_error u d (some a) ≡ none
    → IsProof u assets d
asset-IsProof u assets d a f e = record {
  asset = a;
  found = f;
  owner = ground (arith, user_eq_iff a.owner_user_id u);
  scope = ground arith;
  private = ground arith;
  active = ground arith;
  key = elim (Option-cases a.object_key) [ inl n ↦ inl n | inr (k, n) ↦ inr (ground arith) ];
}

first_none : (a b : Option Error) → first_error a b ≡ none → (a ≡ none) × (b ≡ none)
first_none none b e = (refl, e)
first_none (some a) b e = absurd (none-ne-some a (sym e))

document-IsProof :
    (u : UserId) (assets : List Asset) (d : Document)
    → document_error u assets d ≡ none
    → IsProof u assets d
unfolding document_error
document-IsProof u assets d e = elim (Option-cases (find_asset d.media_asset_id assets)) [
  | inl f ↦ absurd (none-ne-some (http_error invalid_document 422) (sym e ∙ ap (asset_error u d) f))
  | inr (a, f) ↦ asset-IsProof u assets d a f (sym (ap (asset_error u d) f) ∙ e)
]

All-IsProof :
    (u : UserId) (assets : List Asset) (docs : List Document)
    → check_each u assets docs ≡ none
    → All (IsProof u assets) docs
unfolding check_each
All-IsProof u assets [] e = tt
All-IsProof u assets (d ∷ docs) e = (
  document-IsProof u assets d
      (first_none (document_error u assets d) (check_each u assets docs) e).0,
  All-IsProof u assets docs (first_none (document_error u assets d) (check_each u assets docs) e).1,
)

-- A certification that may be submitted: there is a license, and every document is in order.
pub record IsComplete (u : UserId) (assets : List Asset) (docs : List Document) : Type 0 where
  pub license : has_license docs ≡ true
  pub proofs : All (IsProof u assets) docs

complete :
    (u : UserId) (assets : List Asset) (docs : List Document)
    → documents_error u assets docs ≡ none
    → IsComplete u assets docs
unfolding documents_error
complete u assets docs e = record {
  license = ground arith;
  proofs = All-IsProof u assets docs (ground arith);
}

-- A submission leaves the whole state as it was, unless the user has a certification that may be
-- edited (a draft or a rejected one, or a submitted one where the server approves by itself) with
-- a license among its documents, each of them a private active KYC asset of that user under the
-- same object key (where the asset has one).
pub submit_guard :
    (s : CertSettings) (u : UserId) (db : Db)
    → ((handle_submit s u db).0 ≡ db)
      ⊎ ((c : HostCert) × (find_cert u db.certs ≡ some c)
          × (is_editable s c.status ≡ true)
          × IsComplete u db.assets c.documents)
unfolding handle_submit validate_documents
submit_guard s u db = elim (Option-cases (find_cert u db.certs)) [
  | inl e ↦ inl (ground arith)
  | inr (c, e) ↦ elim (Bool-cases (is_editable s c.status)) [
    | inl t ↦ elim (Option-cases (documents_error u db.assets c.documents)) [
      | inl d ↦ inr (c, e, t, complete u db.assets c.documents d)
      | inr (x, d) ↦ inl (ground arith)
    ]
    | inr t ↦ inl (ground arith)
  ]
]

not_submitted : (st : CertStatus) → is_pending st ≡ false → is_submitted st ≡ false
not_submitted st h = ground arith

not_pending :
    (s : CertSettings) (who : Reviewer) (n : ℕ) (choice : ReviewAction) (reason : Option ℕ)
    (db : Db) (c : HostCert)
    → ensure_admin s who.token who.role who.admin_key ≡ true
    → by_key cert_id n db.certs ≡ some c
    → is_pending c.status ≡ false
    → (handle_review_cert s who (uuid n) choice reason db).0 ≡ db
unfolding handle_review_cert cert_by_id decide_review
not_pending s who n mark_reviewing reason db c k e t = ground (arith, not_submitted c.status t)
not_pending s who n approve reason db c k e t = ground arith
not_pending s who n reject reason db c k e t = ground arith
not_pending s who n blank_choice reason db c k e t = ground arith
not_pending s who n unknown_choice reason db c k e t = ground arith

-- The rights to review: the configured key in the header, or an administrator's token of type
-- 'terra'.
abbrev pub MayReview : CertSettings → Reviewer → Type 0
MayReview s who =
    ((k : ℕ) × (s.admin_key ≡ some k) × (who.admin_key ≡ some k))
    ⊎ ((who.token ≡ terra_token) × (who.role ≡ admin))

-- A certification that was sent in and is not decided.
abbrev pub IsUndecided : CertStatus → Type 0
IsUndecided st = (st ≡ cert_submitted) ⊎ (st ≡ cert_reviewing)

terra_admin :
    (t : TokenType) (r : Role) → is_terra_admin t r ≡ true → (t ≡ terra_token) × (r ≡ admin)
terra_admin terra_token admin e = (refl, refl)
terra_admin terra_token host e = cc
terra_admin terra_token traveler e = cc
terra_admin terra_token other_role e = cc
terra_admin access_token r e = cc
terra_admin bearer_token r e = cc

same_key : (a b : Option ℕ) → is_admin_key a b ≡ true → (k : ℕ) × (a ≡ some k) × (b ≡ some k)
same_key (some a) (some b) e = (a, refl, ap some (sym ((==_iff a b).0 e)))
same_key (some a) none e = cc
same_key none b e = cc

ensure_admin-MayReview :
    (s : CertSettings) (who : Reviewer)
    → ensure_admin s who.token who.role who.admin_key ≡ true
    → MayReview s who
unfolding ensure_admin
ensure_admin-MayReview s who e = elim (Bool-cases (is_admin_key s.admin_key who.admin_key)) [
  | inl k ↦ inl (same_key s.admin_key who.admin_key k)
  | inr k ↦ inr (terra_admin who.token who.role (ground arith))
]

pending-IsUndecided : (st : CertStatus) → is_pending st ≡ true → IsUndecided st
pending-IsUndecided cert_submitted e = inl refl
pending-IsUndecided cert_reviewing e = inr refl
pending-IsUndecided cert_draft e = cc
pending-IsUndecided cert_approved e = cc
pending-IsUndecided cert_rejected e = cc
pending-IsUndecided cert_none e = cc

-- A request to review a certification leaves the whole state as it was, unless it carries the
-- configured key of the administrators or is of the role admin with a token of type 'terra', its
-- path names a certification by a uuid, and that certification is submitted or in review.
pub review_guard :
    (s : CertSettings) (who : Reviewer) (id : TextId) (choice : ReviewAction) (reason : Option ℕ)
    (db : Db)
    → ((handle_review_cert s who id choice reason db).0 ≡ db)
      ⊎ ((n : ℕ) × (c : HostCert) × (id ≡ uuid n)
          × MayReview s who
          × (by_key cert_id n db.certs ≡ some c)
          × IsUndecided c.status)
unfolding handle_review_cert cert_by_id decide_review
review_guard s who (uuid n) choice reason db =
    elim (Bool-cases (ensure_admin s who.token who.role who.admin_key)) [
      | inl k ↦ elim (Option-cases (by_key cert_id n db.certs)) [
        | inl e ↦ inl (ground arith)
        | inr (c, e) ↦ elim (Bool-cases (is_pending c.status)) [
          | inl t ↦
              inr (n, c, refl, ensure_admin-MayReview s who k, e, pending-IsUndecided c.status t)
          | inr t ↦ inl (not_pending s who n choice reason db c k e t)
        ]
      ]
      | inr k ↦ inl (ground arith)
    ]
review_guard s who missing choice reason db = inl (ground arith)
review_guard s who blank choice reason db = inl (ground arith)
review_guard s who (malformed n) choice reason db = inl (ground arith)
