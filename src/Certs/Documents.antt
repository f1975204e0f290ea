-- ===== src/Certs/Documents.antt =====
-- `normalizeString`, `normalizeDocuments` and the documents of `serializeState`.
use terravoy_backend.Prelude.{ℕ, Option, none, some, List, [], ◌∷◌, or_else}
use terravoy_backend.Store.Rows.{missing, blank}
use terravoy_backend.Store.CertRows.{TextId, Document, DocumentView}

-- The texts that the code itself names.
abbrev pub license : ℕ
license = 1

abbrev pub document_name : ℕ
document_name = 2

abbrev pub octet_stream : ℕ
octet_stream = 3

-- A text of a request: missing or empty, only spaces, or one that is not empty after `trim`.
pub data Text : Type 0 where
  no_text spaces : Text
  text : ℕ → Text

-- A number of a request: missing or 0, one that `Number` makes NaN or infinite, or a number.
pub data Size : Type 0 where
  no_size not_finite : Size
  bytes : ℕ → Size

-- One entry of the array `documents`, with both spellings of its fields.
pub record RawDocument : Type 0 where
  pub media_asset_id : TextId
  pub camel_media_asset_id : TextId
  pub id : TextId
  pub object_key : Text
  pub camel_object_key : Text
  pub doc_type : Text
  pub camel_doc_type : Text
  pub category : Text
  pub name : Text
  pub file_name : Text
  pub size_bytes : Size
  pub size : Size
  pub mime : Text
  pub content_type : Text

-- `normalizeString`: the empty text is `none`.
abbrev pub normalize_string : Text → Option ℕ
normalize_string (text t) = some t
normalize_string _ = none

abbrev pub normalize_id : TextId → Option TextId
normalize_id missing = none
normalize_id blank = none
normalize_id t = some t

-- `a || b` on two fields of a request
abbrev pub or_text : Text → Text → Text
or_text no_text b = b
or_text a b = a

abbrev pub or_id : TextId → TextId → TextId
or_id missing b = b
or_id a b = a

abbrev pub or_size : Size → Size → Size
or_size no_size b = b
or_size a b = a

abbrev pub finite_or_0 : Size → ℕ
finite_or_0 (bytes n) = n
finite_or_0 _ = 0

abbrev pub complete_document :
    RawDocument → Option TextId → (object_key doc_type : Option ℕ) → Option Document
complete_document r (some id) (some key) (some type) = some record {
  media_asset_id = id;
  object_key = key;
  doc_type = type;
  name = normalize_string (or_text (or_text r.name r.file_name) (text document_name));
  size_bytes = finite_or_0 (or_size r.size_bytes r.size);
  mime = normalize_string (or_text r.mime r.content_type);
}
complete_document r _ _ _ = none

-- One round of the loop; `none` is a `continue`.
unfoldable pub normalize_document : RawDocument → Option Document
normalize_document r =
    complete_document r (normalize_id (or_id (or_id r.media_asset_id r.camel_media_asset_id) r.id))
      (normalize_string (or_text r.object_key r.camel_object_key))
      (normalize_string (or_text (or_text r.doc_type r.camel_doc_type) r.category))

abbrev pub push_some : Option Document → List Document → List Document
push_some none docs = docs
push_some (some d) docs = d ∷ docs

-- An item that is no object is `none`.
unfoldable pub normalize_item : Option RawDocument → Option Document
unfolding normalize_document
normalize_item none = none
normalize_item (some r) = normalize_document r

unfoldable pub normalize_each : List (Option RawDocument) → List Document
unfolding normalize_item
normalize_each [] = []
normalize_each (item ∷ items) = push_some (normalize_item item) (normalize_each items)

-- What is no array is `none`.
unfoldable pub normalize_documents : Option (List (Option RawDocument)) → List Document
normalize_documents none = []
normalize_documents (some items) = normalize_each items

-- One document of `latestPayload.documents`.
unfoldable pub serialize_document : Document → DocumentView
serialize_document d = record {
  id = d.media_asset_id;
  media_asset_id = d.media_asset_id;
  object_key = d.object_key;
  category = d.doc_type;
  name = or_else d.name document_name;
  size_bytes = d.size_bytes;
  content_type = or_else d.mime octet_stream;
}
