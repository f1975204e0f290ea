-- ===== src/Certs/RoundTrip.antt =====
-- The documents of a reply, sent back in the next draft.
use mathlib.Core.Option.{none-ne-some}
use terravoy_backend.Prelude.{
  ℕ, ◌≡◌, Option, none, some, List, [], ◌∷◌, map, or_else, refl, ap, ◌∙◌, arith, All,
}
use terravoy_backend.Store.Rows.{missing, blank, malformed, uuid}
use terravoy_backend.Store.CertRows.{TextId, Document, DocumentView}
use terravoy_backend.Certs.Documents.{
  RawDocument, no_text, text, Size, no_size, bytes, document_name, octet_stream, normalize_id,
  or_id, normalize_document, normalize_each, normalize_documents, normalize_item, push_some,
  complete_document, serialize_document, or_size, finite_or_0,
}

abbrev number_size : ℕ → Size
number_size Prim.Native.Nat.zero = no_size
number_size (Prim.Native.Nat.suc n) = bytes (Prim.Native.Nat.suc n)

-- The JSON of a document of a reply, read as an entry of the next request.
unfoldable pub sent_back : DocumentView → RawDocument
sent_back v = record {
  media_asset_id = missing;
  camel_media_asset_id = v.media_asset_id;
  id = v.id;
  object_key = no_text;
  camel_object_key = text v.object_key;
  doc_type = no_text;
  camel_doc_type = no_text;
  category = text v.category;
  name = text v.name;
  file_name = no_text;
  size_bytes = number_size v.size_bytes;
  size = no_size;
  mime = no_text;
  content_type = text v.content_type;
}

-- A document with the name and the type that a reply shows where it has none.
abbrev pub filled : Document → Document
filled d = record d {
  name = some (or_else d.name document_name);
  mime = some (or_else d.mime octet_stream);
}

-- The id of an asset that is not empty.
abbrev IsGiven : Document → Type 0
IsGiven d = normalize_id d.media_asset_id ≡ some d.media_asset_id

given_id : (t i : TextId) → normalize_id t ≡ some i → normalize_id i ≡ some i
given_id missing i h = ground arith
given_id blank i h = ground arith
given_id (uuid n) i h = ground arith
given_id (malformed n) i h = ground arith

same_size : (n : ℕ) → finite_or_0 (or_size (number_size n) no_size) ≡ n
same_size Prim.Native.Nat.zero = refl
same_size (Prim.Native.Nat.suc n) = refl

one_sent_back :
    (d : Document)
    → IsGiven d
    → normalize_document (sent_back (serialize_document d)) ≡ some (filled d)
unfolding normalize_document sent_back serialize_document
one_sent_back d h = ground (arith, same_size d.size_bytes)

All-sent_back :
    (docs : List Document)
    → All IsGiven docs
    → normalize_each (map (λ d. some (sent_back (serialize_document d))) docs) ≡ map filled docs
unfolding normalize_each normalize_item
All-sent_back [] h = refl
All-sent_back (d ∷ docs) (given, h) =
    ap (λ o. push_some o (normalize_each (map (λ d. some (sent_back (serialize_document d))) docs)))
      (one_sent_back d given)
    ∙ ap (λ ds. filled d ∷ ds) (All-sent_back docs h)

complete-IsGiven :
    (r : RawDocument) (i : Option TextId) (key type : Option ℕ) (d : Document)
    → ((t : TextId) → i ≡ some t → normalize_id t ≡ some t)
    → complete_document r i key type ≡ some d
    → IsGiven d
complete-IsGiven r (some t) (some key) (some type) d h e = ground (arith, h t refl)
complete-IsGiven r none key type d h e = ground arith
complete-IsGiven r (some t) none type d h e = ground arith
complete-IsGiven r (some t) (some key) none d h e = ground arith

normalized-IsGiven : (r : RawDocument) (d : Document) → normalize_document r ≡ some d → IsGiven d
unfolding normalize_document
normalized-IsGiven r d e =
    let raw = or_id (or_id r.media_asset_id r.camel_media_asset_id) r.id in
    complete-IsGiven r (normalize_id raw) _ _ d (λ t p. given_id raw t p) e

push-IsGiven :
    (o : Option Document) (docs : List Document)
    → ((d : Document) → o ≡ some d → IsGiven d)
    → All IsGiven docs
    → All IsGiven (push_some o docs)
push-IsGiven none docs h hs = hs
push-IsGiven (some d) docs h hs = (h d refl, hs)

item-IsGiven : (item : Option RawDocument) (d : Document) → normalize_item item ≡ some d → IsGiven d
unfolding normalize_item
item-IsGiven none d e = absurd (none-ne-some d e)
item-IsGiven (some r) d e = normalized-IsGiven r d e

All-IsGiven : (items : List (Option RawDocument)) → All IsGiven (normalize_each items)
unfolding normalize_each
All-IsGiven [] = tt
All-IsGiven (item ∷ items) =
    push-IsGiven (normalize_item item) (normalize_each items) (item-IsGiven item)
      (All-IsGiven items)

-- Whatever a client sends as the documents of a draft: when it sends back the documents that the
-- reply shows, the server stores the same ones again, in the same order, with the name 'document'
-- and the type 'application/octet-stream' where there was none.
pub draft_round_trip :
    (items : List (Option RawDocument))
    → let docs = normalize_documents (some items) in
      normalize_documents (some (map (λ d. some (sent_back (serialize_document d))) docs))
      ≡ map filled docs
unfolding normalize_documents
draft_round_trip items = All-sent_back (normalize_each items) (All-IsGiven items)
