-- ===== src/Match/Poll.antt =====
-- The routes `POST /functions/v1/match-poll` and `match-heartbeat`.
use terravoy_backend.Prelude.{ℕ, Bool, true, false, not, ◌==◌, Option, none, some}
use terravoy_backend.Store.Rows.{uuid, missing}
use terravoy_backend.Store.CertRows.{TextId}
use terravoy_backend.Store.Table.{by_key}
use terravoy_backend.Store.Db.{
  M, Reply, ok, error, match_state, invalid_request_id, not_found, exception, pure, throw, gets,
  or_reply, reply_if, ◌>>=◌, ◌>>◌,
}
use terravoy_backend.Store.MatchRows.{
  MatchRequest, MatchSession, RequestStatus, waiting, cancelled, expired, state_waiting,
  state_matched, state_of,
}
use terravoy_backend.Auth.Authorize.{
  Actor, Action, Resource, authorize, match_poll, match_heartbeat, no_resource,
}
use terravoy_backend.Auth.Profile.{ensure_profile}
use terravoy_backend.Match.Pair.{request_id}
use terravoy_backend.Match.Statements.{touch_match_request}
use terravoy_backend.Match.Session.{
  Im, active_request, session_by_request, ensure_thread, other_profile,
}

abbrev pub is_missing : TextId → Bool
is_missing missing = true
is_missing _ = false

-- A request id that is a uuid; with any other text the first query fails.
abbrev pub as_request_id : TextId → M ℕ
as_request_id (uuid n) = pure n
as_request_id _ = throw exception

abbrev pub owned_by : Option MatchRequest → Resource
owned_by none = no_resource
owned_by (some r) = record no_resource { owner_profile_id = some r.profile_id }

-- The request that the path of both routes names, if it is the actor's.
unfoldable pub own_request : Actor → Action → ℕ → (me : ℕ) → M MatchRequest
own_request actor action id me = do
  owner ← gets (λ db. by_key request_id id db.match_requests)
  authorize actor.role me action (owned_by owner)
  or_reply owner (error not_found 404)

-- `touch_match_request` returns one row of nulls where it touches nothing, so the branches for a
-- request that was not touched are never taken.
unfoldable pub touch_waiting : RequestStatus → (id me : ℕ) → M (Unit {0})
unfolding touch_match_request
touch_waiting waiting id me = touch_match_request id me
touch_waiting _ id me = pure tt

-- Another request of the actor is waiting.
abbrev pub superseded : Option MatchRequest → ℕ → Bool
superseded none id = false
superseded (some r) id = not (r.id == id)

abbrev pub is_ended : RequestStatus → Bool
is_ended cancelled = true
is_ended expired = true
is_ended _ = false

abbrev pub poll_reply : ℕ → MatchSession → Option ℕ → Option ℕ → Reply
poll_reply id s none thread = ok (match_state state_waiting (some id) (some s.id) none none) 200
poll_reply id s (some peer) none =
    ok (match_state state_waiting (some id) (some s.id) (some peer) none) 200
poll_reply id s (some peer) (some thread) =
    ok (match_state state_matched (some id) (some s.id) (some peer) (some thread)) 200

unfoldable pub answer_poll : Im → (id me : ℕ) → Option MatchSession → M Reply
unfolding ensure_thread other_profile
answer_poll im id me none = pure (ok (match_state state_waiting (some id) none none none) 200)
answer_poll im id me (some s) = do
  row ← ensure_thread im s
  pure (poll_reply id row (other_profile row me) row.thread_id)

unfoldable pub handle_match_poll : Im → Actor → TextId → M Reply
unfolding own_request
handle_match_poll im actor request = do
  reply_if (is_missing request) (error invalid_request_id 400)
  me ← ensure_profile actor.user_id
  id ← as_request_id request
  owner ← own_request actor match_poll id me
  touch_waiting owner.status id me
  active ← gets (λ db. active_request me db)
  reply_if (superseded active id)
      (ok (match_state (state_of cancelled) (some id) none none none) 200)
  reply_if (is_ended owner.status)
      (ok (match_state (state_of owner.status) (some id) none none none) 200)
  session ← gets (λ db. session_by_request id db)
  answer_poll im id me session

abbrev pub heartbeat_reply : ℕ → Option ℕ → MatchSession → Option ℕ → Reply
heartbeat_reply id (some thread) s (some peer) =
    ok (match_state state_matched (some id) (some s.id) (some peer) (some thread)) 200
heartbeat_reply id _ s _ = ok (match_state state_waiting (some id) (some s.id) none none) 200

unfoldable pub answer_heartbeat : Im → (id me : ℕ) → Option MatchSession → M Reply
unfolding ensure_thread other_profile
answer_heartbeat im id me none = pure (ok (match_state state_waiting (some id) none none none) 200)
answer_heartbeat im id me (some s) = do
  row ← ensure_thread im s
  pure (heartbeat_reply id row.thread_id row (other_profile row me))

unfoldable pub handle_match_heartbeat : Im → Actor → TextId → M Reply
unfolding own_request touch_match_request
handle_match_heartbeat im actor request = do
  reply_if (is_missing request) (error invalid_request_id 400)
  me ← ensure_profile actor.user_id
  id ← as_request_id request
  owner ← own_request actor match_heartbeat id me
  touch_match_request id me
  session ← gets (λ db. session_by_request id db)
  answer_heartbeat im id me session
