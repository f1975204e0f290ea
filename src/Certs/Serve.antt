-- ===== src/Certs/Serve.antt =====
-- The requests for certifications, with the `catch` of each route.
use terravoy_backend.Prelude.{ℕ, Option}
use terravoy_backend.Store.Rows.{UserId}
use terravoy_backend.Store.Db.{Db, M, Reply, ErrorCode, error, pure, to_reply}
use terravoy_backend.Store.CertRows.{CertStatus, TextId}
use terravoy_backend.Certs.State.{CertSettings}
use terravoy_backend.Certs.Draft.{DraftBody, handle_get_mine, handle_save_draft}
use terravoy_backend.Certs.Submit.{handle_submit}
use terravoy_backend.Certs.Review.{
  Reviewer, ReviewAction, QueryNumber, handle_review_cert, handle_list_certs,
}
use terravoy_backend.Certs.Decide.{
  Decision, ListFilter, PageNumber, handle_decide, handle_get_cert, handle_admin_list,
}

-- `admin` is the subject of a token with the permission that the route asks for. `turned_away` is
-- what `requireAuth` or `requirePermission` answered in place of the route.
pub data CertRequest : Type 0 where
  turned_away : ErrorCode → (status : ℕ) → CertRequest
  get_mine : UserId → CertRequest
  save_draft : UserId → DraftBody → CertRequest
  submit : UserId → CertRequest
  list_certs : Reviewer → CertStatus → (limit cursor : QueryNumber) → CertRequest
  review_cert : Reviewer → TextId → ReviewAction → (reason : Option ℕ) → CertRequest
  admin_list : ListFilter → (page page_size : PageNumber) → CertRequest
  admin_get : TextId → CertRequest
  admin_decide : (admin : ℕ) → TextId → Decision → (reason : Option ℕ) → CertRequest

unfoldable pub dispatch_cert : CertSettings → CertRequest → M Reply
dispatch_cert s (turned_away code status) = pure (error code status)
dispatch_cert s (get_mine u) = handle_get_mine u
dispatch_cert s (save_draft u body) = handle_save_draft s u body
dispatch_cert s (submit u) = handle_submit s u
dispatch_cert s (list_certs who status limit cursor) = handle_list_certs s who status limit cursor
dispatch_cert s (review_cert who id action reason) = handle_review_cert s who id action reason
dispatch_cert s (admin_list filter p size) = handle_admin_list filter p size
dispatch_cert s (admin_get id) = handle_get_cert id
dispatch_cert s (admin_decide admin id decision reason) = handle_decide admin id decision reason

unfoldable pub serve_cert : CertSettings → CertRequest → Db → Db × Reply
serve_cert s req db = let (db', r) = dispatch_cert s req db in (db', to_reply r)
