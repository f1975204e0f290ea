-- ===== src/Match/Cancel.antt =====
-- The routes `POST /functions/v1/match-cancel`, `match-attach-conversation` and `match-get-partner`.
use terravoy_backend.Prelude.{
  ℕ, Bool, ◌||◌, ◌==◌, Option, none, some, if◌then◌else◌, first_some, or_else,
}
use terravoy_backend.Store.Rows.{missing}
use terravoy_backend.Store.CertRows.{TextId}
use terravoy_backend.Store.Table.{by_key, update}
use terravoy_backend.Store.Db.{
  M, Reply, ok, error, match_state, match_session, invalid_request, not_found, pure, gets, or_reply,
  reply_if, modify_db, ◌>>=◌, ◌>>◌,
}
use terravoy_backend.Store.MatchRows.{
  Person, MatchSession, cancelled, state_waiting, state_matched, state_of,
}
use terravoy_backend.Auth.Authorize.{Actor, authorize, match_cancel, no_resource}
use terravoy_backend.Auth.Profile.{ensure_profile}
use terravoy_backend.Match.Pair.{person_id}
use terravoy_backend.Match.Statements.{cancel_match, cancel_active_match_requests}
use terravoy_backend.Match.Session.{active_request, session_id}
use terravoy_backend.Match.Start.{id_of}
use terravoy_backend.Match.Poll.{is_missing, as_request_id, own_request}

abbrev pub cancel_reply : Option ℕ → Reply
cancel_reply id = ok (match_state (state_of cancelled) id none none none) 200

-- Without a request id the actor's own waiting request is cancelled.
unfoldable pub cancel_target : Actor → TextId → (me : ℕ) → M Reply
unfolding own_request cancel_match cancel_active_match_requests
cancel_target actor missing me = do
  authorize actor.role me match_cancel no_resource
  active ← gets (λ db. id_of (active_request me db))
  cancel_active_match_requests me
  pure (cancel_reply active)
cancel_target actor request me = do
  id ← as_request_id request
  own_request actor match_cancel id me
  cancel_match id
  pure (cancel_reply (some id))

unfoldable pub handle_match_cancel : Actor → TextId → M Reply
handle_match_cancel actor request = do
  me ← ensure_profile actor.user_id
  cancel_target actor request me

-- `case when $3 then $2 else coalesce(thread_id, $2) end`
abbrev pub attached : (force : Bool) → ℕ → MatchSession → MatchSession
attached force thread s = record s {
  thread_id = if force then some thread else first_some s.thread_id (some thread);
}

-- The route tests neither the role of the actor nor whose session it is.
unfoldable pub handle_match_attach : (session thread : TextId) → (force : Bool) → M Reply
handle_match_attach session thread force = do
  reply_if (is_missing session || is_missing thread) (error invalid_request 400)
  id ← as_request_id session
  t ← as_request_id thread
  modify_db
      λ db. record db { match_sessions = update session_id id (attached force t) db.match_sessions }
  row ← gets (λ db. by_key session_id id db.match_sessions)
  pure (ok (match_session row) 200)

abbrev pub partner_reply : MatchSession → Option Person → Reply
partner_reply s none =
    ok (match_state state_waiting (some s.request_a_id) (some s.id) none s.thread_id) 200
partner_reply s (some p) =
    ok (match_state state_matched (some s.request_a_id) (some s.id) (some p.id) s.thread_id) 200

-- `fetchOtherProfile`: the row of the other profile, which the foreign key keeps in the table.
unfoldable pub handle_match_get_partner : (session : TextId) → (self_profile : Option ℕ) → M Reply
handle_match_get_partner session self_profile = do
  reply_if (is_missing session) (error invalid_request 400)
  id ← as_request_id session
  found ← gets (λ db. by_key session_id id db.match_sessions)
  s ← or_reply found (error not_found 404)
  let me = or_else self_profile s.profile_a_id
  other ← gets (λ db.
      by_key person_id (if s.profile_a_id == me then s.profile_b_id else s.profile_a_id) db.people)
  pure (partner_reply s other)
