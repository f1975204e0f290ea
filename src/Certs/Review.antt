-- ===== src/Certs/Review.antt =====
-- The routes `GET /v1/admin/host-certifications` and
-- `POST /v1/admin/host-certifications/:id/review`.
use terravoy_backend.Prelude.{
  ℕ, ◌+◌, Bool, true, false, not, ◌||◌, ◌==◌, leb, Option, none, some, List, [], ◌∷◌, length, take,
  select, if◌then◌else◌, is_some,
}
use terravoy_backend.Store.Rows.{UserId, missing, uuid, Role}
use terravoy_backend.Store.Table.{by_key}
use terravoy_backend.Store.Db.{
  M, Reply, ok, error, cert_state, cert_list, not_found, forbidden, invalid_status, invalid_request,
  exception, pure, gets, reply, or_reply, reply_if, throw, ◌>>=◌, ◌>>◌,
}
use terravoy_backend.Store.CertRows.{
  HostCert, CertStatus, cert_draft, cert_submitted, cert_reviewing, cert_approved, cert_rejected,
  set_reviewing, approved, rejected, TextId,
}
use terravoy_backend.Auth.Host.{clear_approved_host_cache}
use terravoy_backend.Certs.State.{
  CertSettings, TokenType, cert_id, set_cert, insert_audit, set_experiences, serialize_state,
  ensure_admin,
}
use terravoy_backend.Certs.Draft.{is_submitted}
use terravoy_backend.Certs.Submit.{approved_by}

-- `DECISION_ALLOWED_STATUSES`, and `PENDING_STATUSES` of adminHostCertifications.js
abbrev pub is_pending : CertStatus → Bool
is_pending cert_submitted = true
is_pending cert_reviewing = true
is_pending _ = false

-- Who asks: what `requireAuth` returns, and the trimmed header `x-admin-key`.
pub record Reviewer : Type 0 where
  pub user_id : UserId
  pub role : Role
  pub token : TokenType
  pub admin_key : Option ℕ

-- `action` of the body, trimmed and in lower case.
pub data ReviewAction : Type 0 where
  blank_choice unknown_choice : ReviewAction
  mark_reviewing approve reject : ReviewAction

abbrev pub marked : (now : ℕ) → HostCert → HostCert
marked now c = record c { status = cert_reviewing; updated_at = now }

abbrev pub rejected_by : (now : ℕ) → UserId → (reason : Option ℕ) → HostCert → HostCert
rejected_by now u reason c = record c {
  status = cert_rejected;
  reviewed_at = some now;
  reviewer_id = u;
  reject_reason = reason;
  updated_at = now;
}

-- `where id = $1` on a text of the path: one that is no uuid makes the query fail.
unfoldable pub cert_by_id : TextId → M (Option HostCert)
cert_by_id (uuid n) = gets (λ db. by_key cert_id n db.certs)
cert_by_id _ = throw exception

-- The chain of tests on the action: the row that is replied.
unfoldable pub decide_review : UserId → ReviewAction → (reason : Option ℕ) → HostCert → M HostCert
decide_review u mark_reviewing reason existing = do
  reply_if (not (is_submitted existing.status)) (error invalid_status 409)
  now ← gets (λ db. db.now)
  set_cert existing.id (marked now)
  insert_audit existing.id u set_reviewing
  set_experiences cert_reviewing existing.user_id
  pure (marked now existing)
decide_review u approve reason existing = do
  reply_if (not (is_pending existing.status)) (error invalid_status 409)
  now ← gets (λ db. db.now)
  set_cert existing.id (approved_by now u)
  insert_audit existing.id u approved
  set_experiences cert_approved existing.user_id
  pure (approved_by now u existing)
decide_review u reject reason existing = do
  reply_if (not (is_pending existing.status)) (error invalid_status 409)
  reply_if (not (is_some reason)) (error invalid_request 400)
  now ← gets (λ db. db.now)
  set_cert existing.id (rejected_by now u reason)
  insert_audit existing.id u rejected
  set_experiences cert_rejected existing.user_id
  pure (rejected_by now u reason existing)
decide_review u blank_choice reason existing = reply (error invalid_request 400)
decide_review u unknown_choice reason existing = reply (error invalid_request 400)

abbrev is_missing : TextId → Bool
is_missing missing = true
is_missing _ = false

abbrev is_blank : ReviewAction → Bool
is_blank blank_choice = true
is_blank _ = false

unfoldable pub handle_review_cert :
    CertSettings → Reviewer → TextId → ReviewAction → (reason : Option ℕ) → M Reply
unfolding cert_by_id decide_review
handle_review_cert s who id action reason = do
  reply_if (not (ensure_admin s who.token who.role who.admin_key)) (error forbidden 403)
  reply_if (is_missing id || is_blank action) (error invalid_request 400)
  found ← cert_by_id id
  existing ← or_reply found (error not_found 404)
  row ← decide_review who.user_id action reason existing
  clear_approved_host_cache existing.user_id
  pure (ok (cert_state (serialize_state (some row))) 200)

-- A number of the query string; what SQL refuses as a limit or an offset is `refused_number`.
pub data QueryNumber : Type 0 where
  no_number refused_number : QueryNumber
  number : ℕ → QueryNumber

-- `Number(… || default)`
abbrev pub number_or : QueryNumber → ℕ → M ℕ
number_or no_number n = pure n
number_or (number n) m = pure n
number_or refused_number m = throw exception

abbrev pub min : ℕ → ℕ → ℕ
min a b = if leb a b then a else b

abbrev pub drop : ℕ → List HostCert → List HostCert
drop Prim.Native.Nat.zero xs = xs
drop (Prim.Native.Nat.suc n) [] = []
drop (Prim.Native.Nat.suc n) (x ∷ xs) = drop n xs

-- `order by submitted_at desc nulls last`; rows that are equal here keep the order of the table,
-- newest first, which is `created_at desc`.
abbrev pub comes_before : HostCert → HostCert → Bool
comes_before a b = later a.submitted_at b.submitted_at
  where
    later : Option ℕ → Option ℕ → Bool
    later x none = true
    later none (some y) = false
    later (some x) (some y) = leb y x

abbrev insert_sorted : HostCert → List HostCert → List HostCert
insert_sorted c [] = c ∷ []
insert_sorted c (d ∷ ds) =
    let rest = insert_sorted c ds in if comes_before c d then c ∷ d ∷ ds else d ∷ rest

abbrev pub by_submission : List HostCert → List HostCert
by_submission [] = []
by_submission (c ∷ cs) = insert_sorted c (by_submission cs)

abbrev pub same_status : CertStatus → CertStatus → Bool
same_status cert_draft cert_draft = true
same_status cert_submitted cert_submitted = true
same_status cert_reviewing cert_reviewing = true
same_status cert_approved cert_approved = true
same_status cert_rejected cert_rejected = true
same_status _ _ = false

-- `status` is what the query names, 'submitted' if nothing; `cert_none` is any other text.
unfoldable pub handle_list_certs :
    CertSettings → Reviewer → CertStatus → (limit cursor : QueryNumber) → M Reply
handle_list_certs s who status limit cursor = do
  reply_if (not (ensure_admin s who.token who.role who.admin_key)) (error forbidden 403)
  asked ← number_or limit 20
  offset ← number_or cursor 0
  let most = min asked 100
  rows ← gets (λ db. take most (
      drop offset
        (by_submission (select (λ (c : HostCert). same_status c.status status) db.certs))))
  pure (
      ok (cert_list rows most offset (if length rows == most then some (offset + most) else none))
        200)
