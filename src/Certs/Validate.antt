-- ===== src/Certs/Validate.antt =====
-- `validateDocuments`.
use terravoy_backend.Prelude.{
  ℕ, Bool, true, false, not, ◌&&◌, ◌||◌, ◌==◌, Option, none, some, List, [], ◌∷◌, if◌then◌else◌,
  find,
}
use terravoy_backend.Store.Rows.{UserId, uuid, user_eq}
use terravoy_backend.Store.Db.{
  M, http_error, exception, Error, missing_documents, invalid_document, forbidden, thrown, value,
  Outcome,
}
use terravoy_backend.Store.CertRows.{
  TextId, Document, Asset, AssetStatus, asset_active, Scope, kyc_scope,
}
use terravoy_backend.Certs.Documents.{license}

abbrev pub is_kyc : Option Scope → Bool
is_kyc (some kyc_scope) = true
is_kyc _ = false

abbrev pub is_active : AssetStatus → Bool
is_active asset_active = true
is_active _ = false

-- `asset.object_key && asset.object_key !== doc.object_key`
abbrev pub other_key : Option ℕ → ℕ → Bool
other_key none key = false
other_key (some k) key = not (k == key)

-- The row of `media_assets` with this id; uuids are written in lower case.
abbrev pub find_asset : TextId → List Asset → Option Asset
find_asset (uuid n) assets = find (λ (a : Asset). a.id == n) assets
find_asset _ assets = none

abbrev pub is_uuid : TextId → Bool
is_uuid (uuid n) = true
is_uuid _ = false

-- The type uuid of the column: any other text makes the query of the assets fail.
abbrev pub all_uuids : List Document → Bool
all_uuids [] = true
all_uuids (d ∷ docs) = is_uuid d.media_asset_id && all_uuids docs

abbrev pub has_license : List Document → Bool
has_license [] = false
has_license (d ∷ docs) = d.doc_type == license || has_license docs

-- The tests on one document, in their order; `none` where all pass.
abbrev pub asset_error : UserId → Document → Option Asset → Option Error
asset_error u d none = some (http_error invalid_document 422)
asset_error u d (some a) =
    if not (user_eq a.owner_user_id u)
    then some (http_error forbidden 403)
    else if not (is_kyc a.scope && a.is_private)
    then some (http_error invalid_document 422)
    else if not (is_active a.status)
    then some (http_error invalid_document 422)
    else if other_key a.object_key d.object_key
    then some (http_error invalid_document 422)
    else none

unfoldable pub document_error : UserId → List Asset → Document → Option Error
document_error u assets d = asset_error u d (find_asset d.media_asset_id assets)

abbrev pub first_error : Option Error → Option Error → Option Error
first_error none e = e
first_error (some a) e = some a

-- The loop: the first document that is refused throws.
unfoldable pub check_each : UserId → List Asset → List Document → Option Error
unfolding document_error
check_each u assets [] = none
check_each u assets (d ∷ docs) = first_error (document_error u assets d) (check_each u assets docs)

-- `!documents.length` and the required types: a list without a license is refused.
unfoldable pub documents_error : UserId → List Asset → List Document → Option Error
unfolding check_each
documents_error u assets docs =
    if not (has_license docs)
    then some (http_error missing_documents 422)
    else if not (all_uuids docs)
    then some exception
    else check_each u assets docs

abbrev or_thrown : Option Error → Outcome (Unit {0})
or_thrown none = value tt
or_thrown (some e) = thrown e

unfoldable pub validate_documents : UserId → List Document → M (Unit {0})
unfolding documents_error
validate_documents u docs db = (db, or_thrown (documents_error u db.assets docs))
