-- ===== src/Tests/CertRuns.antt =====
-- The certification of one host.
use terravoy_backend.Prelude.{
  ◌≡◌, ◌≢◌, ◌⊎◌, true, refl, some, none, List, [], ◌∷◌, map, if◌then◌else◌, arith,
}
use terravoy_backend.Store.Rows.{uuid, missing}
use terravoy_backend.Store.Table.{by_key}
use terravoy_backend.Store.Db.{Db, empty_db, value, thrown, http_error, host_cert_required}
use terravoy_backend.Store.CertRows.{HostCert, cert_approved}
use terravoy_backend.Auth.Host.{
  cert_status, is_approved, require_approved_host, clear_approved_host_cache,
}
use terravoy_backend.Certs.Documents.{
  normalize_documents, normalize_each, normalize_item, normalize_document, serialize_document,
}
use terravoy_backend.Certs.State.{find_cert, cert_id, ensure_admin, normalize_profile}
use terravoy_backend.Certs.Validate.{
  validate_documents, documents_error, check_each, document_error,
}
use terravoy_backend.Certs.Draft.{first_draft, handle_save_draft, is_editable}
use terravoy_backend.Certs.Submit.{handle_submit}
use terravoy_backend.Certs.Review.{handle_review_cert, cert_by_id, decide_review, approve}
use terravoy_backend.Certs.Serve.{save_draft, submit, serve_cert, dispatch_cert}
use terravoy_backend.Certs.RoundTrip.{draft_round_trip, sent_back, filled}
use terravoy_backend.Certs.Step.{CertPath, CertStep}
use terravoy_backend.Certs.Register.{empty_db-IsRegister}
use terravoy_backend.Certs.Dispatched.{serve_cert_step}
use terravoy_backend.Certs.Guards.{submit_guard, IsComplete, MayReview, IsUndecided, review_guard}
use terravoy_backend.Certs.Runs.{
  CertEvent, request, assets_written, check_host, pass_time, handle_cert_event, run_certs,
  run-check, run-CertPath, run_approved,
}
use terravoy_backend.Tests.Samples.{
  license_asset, license_document, license_draft, host_draft, reviewer_nine, reviewed_by_hand,
  approves_itself, certification,
}

abbrev approval : List CertEvent
approval = assets_written (license_asset ∷ []) ∷ check_host (uuid 2) ∷ map request certification

run-approval :
    cert_status (uuid 2) (run_certs reviewed_by_hand approval empty_db).certs ≡ cert_approved
unfolding run_certs handle_cert_event require_approved_host serve_cert dispatch_cert
    handle_save_draft first_draft handle_submit validate_documents documents_error check_each
    document_error handle_review_cert cert_by_id decide_review ensure_admin
    clear_approved_host_cache normalize_documents normalize_each normalize_item normalize_document
    normalize_profile
run-approval = refl

some_user : uuid 2 ≢ missing
some_user = ground arith

run-check_example :
    (require_approved_host (uuid 2) (run_certs reviewed_by_hand approval empty_db)).1 ≡ (
      if is_approved (cert_status (uuid 2) (run_certs reviewed_by_hand approval empty_db).certs)
      then value tt
      else thrown (http_error host_cert_required 403))
run-check_example = run-check reviewed_by_hand approval (uuid 2) some_user

run-CertPath_example :
    CertPath true (cert_status (uuid 2) (run_certs approves_itself approval empty_db).certs) (
      cert_status
        (uuid 2)
        (run_certs approves_itself
          (request (submit (uuid 2)) ∷ [])
          (run_certs approves_itself approval empty_db)).certs)
run-CertPath_example =
    run-CertPath approves_itself approval (request (submit (uuid 2)) ∷ []) (uuid 2)

run_approved_example :
    cert_status
      (uuid 2)
      (run_certs reviewed_by_hand
        (request (save_draft (uuid 2) license_draft) ∷ pass_time 60000 ∷ [])
        (run_certs reviewed_by_hand approval empty_db)).certs
    ≡ cert_approved
run_approved_example =
    run_approved reviewed_by_hand approval
      (request (save_draft (uuid 2) license_draft) ∷ pass_time 60000 ∷ []) (uuid 2) run-approval

serve_cert_step_example :
    CertStep true empty_db
      (serve_cert approves_itself (save_draft (uuid 2) license_draft) empty_db).0
serve_cert_step_example =
    serve_cert_step approves_itself (save_draft (uuid 2) license_draft) empty_db empty_db-IsRegister

abbrev drafted : Db
drafted = record empty_db { certs = host_draft ∷ []; assets = license_asset ∷ []; next_cert = 2 }

submit_guard_example :
    ((handle_submit reviewed_by_hand (uuid 2) drafted).0 ≡ drafted)
    ⊎ ((c : HostCert) × (find_cert (uuid 2) drafted.certs ≡ some c)
        × (is_editable reviewed_by_hand c.status ≡ true)
        × IsComplete (uuid 2) drafted.assets c.documents)
submit_guard_example = submit_guard reviewed_by_hand (uuid 2) drafted

review_guard_example :
    ((handle_review_cert reviewed_by_hand reviewer_nine (uuid 1) approve none drafted).0 ≡ drafted)
    ⊎ ((n : _) × (c : HostCert) × (uuid 1 ≡ uuid n)
        × MayReview reviewed_by_hand reviewer_nine
        × (by_key cert_id n drafted.certs ≡ some c)
        × IsUndecided c.status)
review_guard_example = review_guard reviewed_by_hand reviewer_nine (uuid 1) approve none drafted

draft_round_trip_example :
    normalize_documents (
      some (
        map
          (λ d. some (sent_back (serialize_document d)))
          (normalize_documents (some (some license_document ∷ none ∷ [])))))
    ≡ map filled (normalize_documents (some (some license_document ∷ none ∷ [])))
draft_round_trip_example = draft_round_trip (some license_document ∷ none ∷ [])
