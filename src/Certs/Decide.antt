-- ===== src/Certs/Decide.antt =====
-- routes/adminHostCertifications.js: the console of the administrators.
use terravoy_backend.Prelude.{
  ℕ, ◌-◌, ◌*◌, Bool, true, false, not, leb, Option, some, ◌∷◌, length, take, select, if◌then◌else◌,
}
use terravoy_backend.Store.Rows.{missing, blank, uuid}
use terravoy_backend.Store.Db.{
  M, Reply, ok, error, cert_row, cert_page, not_found, invalid_status, invalid_request, exception,
  pure, gets, or_reply, reply_if, throw, modify_db, ◌>>=◌, ◌>>◌,
}
use terravoy_backend.Store.CertRows.{HostCert, CertStatus, cert_approved, cert_rejected, TextId}
use terravoy_backend.Auth.Host.{clear_approved_host_cache}
use terravoy_backend.Certs.State.{set_cert, set_experiences}
use terravoy_backend.Certs.Submit.{approved_by}
use terravoy_backend.Certs.Review.{is_pending, rejected_by, cert_by_id, min, drop}

-- `status` of the body, trimmed and in lower case.
pub data Decision : Type 0 where
  to_approved to_rejected other_decision : Decision

-- The one statement for both decisions.
abbrev pub decided : Decision → (now admin reason : ℕ) → HostCert → HostCert
decided to_approved now admin reason = approved_by now (uuid admin)
decided to_rejected now admin reason = rejected_by now (uuid admin) (some reason)
decided other_decision now admin reason = λ c. c

abbrev pub decision_status : Decision → CertStatus
decision_status to_approved = cert_approved
decision_status _ = cert_rejected

abbrev is_decision : Decision → Bool
is_decision other_decision = false
is_decision _ = true

abbrev is_empty_id : TextId → Bool
is_empty_id missing = true
is_empty_id blank = true
is_empty_id _ = false

-- `logAdminAudit`; the reason is there, or the route has answered before.
unfoldable pub log_admin_audit : (admin reason : ℕ) → (before after : HostCert) → M (Unit {0})
log_admin_audit admin reason before after = modify_db λ db. record db {
  admin_audits =
      record {
        admin_user_id = admin;
        resource_id = before.id;
        before = before;
        after = after;
        reason = reason;
      }
      ∷ db.admin_audits;
}

-- The PATCH route; `admin` is the subject of the token that `requirePermission` let pass.
unfoldable pub handle_decide : (admin : ℕ) → TextId → Decision → (reason : Option ℕ) → M Reply
unfolding cert_by_id log_admin_audit
handle_decide admin id decision reason = do
  reply_if (is_empty_id id) (error invalid_request 400)
  reply_if (not (is_decision decision)) (error invalid_request 400)
  why ← or_reply reason (error invalid_request 400)
  found ← cert_by_id id
  before ← or_reply found (error not_found 404)
  reply_if (not (is_pending before.status)) (error invalid_status 409)
  now ← gets (λ db. db.now)
  set_cert before.id (decided decision now admin why)
  set_experiences (decision_status decision) before.user_id
  log_admin_audit admin why before (decided decision now admin why before)
  clear_approved_host_cache before.user_id
  pure (ok (cert_row (decided decision now admin why before)) 200)

unfoldable pub handle_get_cert : TextId → M Reply
unfolding cert_by_id
handle_get_cert id = do
  reply_if (is_empty_id id) (error invalid_request 400)
  found ← cert_by_id id
  row ← or_reply found (error not_found 404)
  pure (ok (cert_row row) 200)

-- `page` and `pageSize`: missing, not a number, below 0, or a number.
pub data PageNumber : Type 0 where
  no_page bad_page negative_page : PageNumber
  page_number : ℕ → PageNumber

abbrev pub max : ℕ → ℕ → ℕ
max a b = if leb a b then b else a

-- `Math.max(1, Number(… || default))`; what is not a number makes the query fail.
abbrev pub at_least_one : PageNumber → ℕ → M ℕ
at_least_one no_page n = pure n
at_least_one negative_page n = pure 1
at_least_one (page_number p) n = pure (max 1 p)
at_least_one bad_page n = throw exception

-- The filter on the status; `list_all` is the empty one, `other_list` one that is not allowed.
pub data ListFilter : Type 0 where
  list_all list_pending list_approved list_rejected other_list : ListFilter

abbrev pub in_list : ListFilter → CertStatus → Bool
in_list list_all s = true
in_list list_pending s = is_pending s
in_list list_approved cert_approved = true
in_list list_rejected cert_rejected = true
in_list _ _ = false

abbrev is_allowed : ListFilter → Bool
is_allowed other_list = false
is_allowed _ = true

unfoldable pub handle_admin_list : ListFilter → (page page_size : PageNumber) → M Reply
handle_admin_list filter page page_size = do
  reply_if (not (is_allowed filter)) (error invalid_request 400)
  p ← at_least_one page 1
  size ← at_least_one page_size 20
  let most = min size 100
  rows ← gets (λ db. select (λ (c : HostCert). in_list filter c.status) db.certs)
  pure (ok (cert_page (take most (drop ((p - 1) * most) rows)) p most (length rows)) 200)
