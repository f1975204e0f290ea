-- ===== src/System/CertSteps.antt =====
-- The routes of the certifications leave the orders and their log alone.
use terravoy_backend.Prelude.{ℕ, Bool, true, false, Option, none, some, List, arith}
use terravoy_backend.Store.Rows.{UserId, uuid, missing, blank, malformed}
use terravoy_backend.Store.Db.{Db, M}
use terravoy_backend.Store.CertRows.{
  HostCert, CertStatus, AuditAction, TextId, Document, CertProfile,
}
use terravoy_backend.Auth.Host.{clear_approved_host_cache}
use terravoy_backend.Orders.Steps.{Steps, Steps-Untouched, steps_rules, Steps-pure}
use terravoy_backend.Orders.Step.{OrderSteps}
use terravoy_backend.Certs.State.{CertSettings, set_cert, insert_audit, set_experiences}
use terravoy_backend.Certs.Validate.{validate_documents}
use terravoy_backend.Certs.Draft.{
  DraftBody, insert_cert, draft_branch, first_draft, next_draft, handle_save_draft,
}
use terravoy_backend.Certs.Submit.{auto_approve_row, handle_submit}
use terravoy_backend.Certs.Review.{
  Reviewer, ReviewAction, mark_reviewing, approve, reject, blank_choice, unknown_choice, cert_by_id,
  decide_review, handle_review_cert,
}
use terravoy_backend.Certs.Decide.{Decision, log_admin_audit, handle_decide}
use terravoy_backend.Certs.Serve.{
  CertRequest, turned_away, get_mine, save_draft, submit, list_certs, review_cert, admin_list,
  admin_get, admin_decide, dispatch_cert, serve_cert,
}
use terravoy_backend.Certs.Reads.{
  Reads, Reads-handle_get_mine, Reads-handle_list_certs, Reads-handle_admin_list,
  Reads-handle_get_cert,
}

Steps-set_cert : (id : ℕ) (f : HostCert → HostCert) → Steps (set_cert id f)
Steps-set_cert id f = Steps-Untouched (λ db. ground arith)

Steps-insert_audit : (id : ℕ) (u : UserId) (a : AuditAction) → Steps (insert_audit id u a)
Steps-insert_audit id u a = Steps-Untouched (λ db. ground arith)

Steps-set_experiences : (st : CertStatus) (u : UserId) → Steps (set_experiences st u)
Steps-set_experiences st u = Steps-Untouched (λ db. ground arith)

Steps-clear : (u : UserId) → Steps (clear_approved_host_cache u)
unfolding clear_approved_host_cache
Steps-clear u = Steps-Untouched (λ db. ground arith)

Steps-validate : (u : UserId) (docs : List Document) → Steps (validate_documents u docs)
unfolding validate_documents
Steps-validate u docs = Steps-Untouched (λ db. ground arith)

Steps-log_admin_audit :
    (admin reason : ℕ) (before after : HostCert) → Steps (log_admin_audit admin reason before after)
unfolding log_admin_audit
Steps-log_admin_audit admin reason before after = Steps-Untouched (λ db. ground arith)

Steps-insert_cert :
    (u : UserId) (p : CertProfile) (docs : List Document) → Steps (insert_cert u p docs)
Steps-insert_cert missing p docs = Steps-Untouched (λ db. ground arith)
Steps-insert_cert blank p docs = Steps-Untouched (λ db. ground arith)
Steps-insert_cert (uuid n) p docs = Steps-Untouched (λ db. ground arith)
Steps-insert_cert (malformed n) p docs = Steps-Untouched (λ db. ground arith)

Steps-Reads : {A : Type 0} {m : M A} → Reads m → Steps m
Steps-Reads r = Steps-Untouched (λ db. ground (arith, r.at db))

ruleset cert_rules = (
  steps_rules, Steps-set_cert, Steps-insert_audit, Steps-set_experiences, Steps-clear,
  Steps-validate, Steps-log_admin_audit, Steps-insert_cert,
)

Steps-cert_by_id : (id : TextId) → Steps (cert_by_id id)
unfolding cert_by_id
Steps-cert_by_id missing = Steps-Untouched (λ db. ground arith)
Steps-cert_by_id blank = Steps-Untouched (λ db. ground arith)
Steps-cert_by_id (uuid n) = Steps-Untouched (λ db. ground arith)
Steps-cert_by_id (malformed n) = Steps-Untouched (λ db. ground arith)

Steps-draft_branch :
    (s : CertSettings) (u : UserId) (body : DraftBody) (o : Option HostCert)
    → Steps (draft_branch s u body o)
unfolding first_draft next_draft
Steps-draft_branch s u body none = search cert_rules depth 30
Steps-draft_branch s u body (some c) = search cert_rules depth 30

Steps-handle_save_draft :
    (s : CertSettings) (u : UserId) (body : DraftBody) → Steps (handle_save_draft s u body)
unfolding handle_save_draft
Steps-handle_save_draft s u body = search (cert_rules, Steps-draft_branch) depth 30

Steps-auto : (b : Bool) (u : UserId) (c : HostCert) → Steps (auto_approve_row b u c)
Steps-auto false u c = Steps-pure c
Steps-auto true u c = search cert_rules depth 30

Steps-handle_submit : (s : CertSettings) (u : UserId) → Steps (handle_submit s u)
unfolding handle_submit
Steps-handle_submit s u = search (cert_rules, Steps-auto) depth 40

Steps-decide_review :
    (u : UserId) (choice : ReviewAction) (reason : Option ℕ) (c : HostCert)
    → Steps (decide_review u choice reason c)
unfolding decide_review
Steps-decide_review u mark_reviewing reason c = search cert_rules depth 30
Steps-decide_review u approve reason c = search cert_rules depth 30
Steps-decide_review u reject reason c = search cert_rules depth 30
Steps-decide_review u blank_choice reason c = Steps-Untouched (λ db. ground arith)
Steps-decide_review u unknown_choice reason c = Steps-Untouched (λ db. ground arith)

Steps-handle_review_cert :
    (s : CertSettings) (who : Reviewer) (id : TextId) (choice : ReviewAction) (reason : Option ℕ)
    → Steps (handle_review_cert s who id choice reason)
unfolding handle_review_cert
Steps-handle_review_cert s who id choice reason =
    search (cert_rules, Steps-cert_by_id, Steps-decide_review) depth 40

Steps-handle_decide :
    (admin : ℕ) (id : TextId) (d : Decision) (reason : Option ℕ)
    → Steps (handle_decide admin id d reason)
unfolding handle_decide
Steps-handle_decide admin id d reason = search (cert_rules, Steps-cert_by_id) depth 40

Steps-dispatch_cert : (s : CertSettings) (req : CertRequest) → Steps (dispatch_cert s req)
unfolding dispatch_cert
Steps-dispatch_cert s (turned_away code status) = Steps-pure _
Steps-dispatch_cert s (get_mine u) = Steps-Reads (Reads-handle_get_mine u)
Steps-dispatch_cert s (save_draft u body) = Steps-handle_save_draft s u body
Steps-dispatch_cert s (submit u) = Steps-handle_submit s u
Steps-dispatch_cert s (list_certs who status limit cursor) =
    Steps-Reads (Reads-handle_list_certs s who status limit cursor)
Steps-dispatch_cert s (review_cert who id choice reason) =
    Steps-handle_review_cert s who id choice reason
Steps-dispatch_cert s (admin_list filter p size) =
    Steps-Reads (Reads-handle_admin_list filter p size)
Steps-dispatch_cert s (admin_get id) = Steps-Reads (Reads-handle_get_cert id)
Steps-dispatch_cert s (admin_decide admin id d reason) = Steps-handle_decide admin id d reason

pub serve_cert_steps :
    (s : CertSettings) (req : CertRequest) (db : Db) → OrderSteps db (serve_cert s req db).0
unfolding serve_cert
serve_cert_steps s req db = (Steps-dispatch_cert s req).at db
