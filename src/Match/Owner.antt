-- ===== src/Match/Owner.antt =====
-- Requests of other users.
use terravoy_backend.Prelude.{ℕ, ◌≡◌, ◌≢◌, ◌∷◌, if◌then◌else◌, some, arith}
use terravoy_backend.Store.Rows.{uuid, Role}
use terravoy_backend.Store.Table.{by_key}
use terravoy_backend.Store.Db.{Db, http_error, forbidden, thrown}
use terravoy_backend.Store.MatchRows.{MatchRequest}
use terravoy_backend.Auth.Authorize.{Actor, authorize, denies}
use terravoy_backend.Auth.Profile.{contains, ensure_profile}
use terravoy_backend.Match.Pair.{request_id}
use terravoy_backend.Match.Session.{Im}
use terravoy_backend.Match.Poll.{own_request, handle_match_poll, handle_match_heartbeat}
use terravoy_backend.Match.Cancel.{cancel_target, handle_match_cancel}

abbrev pub user : ℕ → Role → Actor
user me role = record { user_id = uuid me; role = role }

-- The state with the profile of a user who asks.
abbrev pub with_profile : ℕ → Db → Db
with_profile me db = record db {
  profiles = if contains db.profiles me then db.profiles else me ∷ db.profiles;
}

module _ (im : Im) (me n : ℕ) (role : Role) (db : Db) (r : MatchRequest)
    (found : by_key request_id n db.match_requests ≡ some r) (other : r.profile_id ≢ me) where
  poll_denied :
      handle_match_poll im (user me role) (uuid n) db
      ≡ (with_profile me db, thrown (http_error forbidden 403))
  unfolding handle_match_poll own_request ensure_profile authorize denies
  poll_denied = ground arith

  heartbeat_denied :
      handle_match_heartbeat im (user me role) (uuid n) db
      ≡ (with_profile me db, thrown (http_error forbidden 403))
  unfolding handle_match_heartbeat own_request ensure_profile authorize denies
  heartbeat_denied = ground arith

  cancel_denied :
      handle_match_cancel (user me role) (uuid n) db
      ≡ (with_profile me db, thrown (http_error forbidden 403))
  unfolding handle_match_cancel cancel_target own_request ensure_profile authorize denies
  cancel_denied = ground arith

  -- A user who polls, keeps alive or cancels the request of another profile is refused with
  -- FORBIDDEN (403), whatever the role, and the whole state is as before, but that the profile of
  -- the user is inserted if there is none.
  pub others_denied :
      (handle_match_poll im (user me role) (uuid n) db
        ≡ (with_profile me db, thrown (http_error forbidden 403)))
      × (handle_match_heartbeat im (user me role) (uuid n) db
          ≡ (with_profile me db, thrown (http_error forbidden 403)))
      × (handle_match_cancel (user me role) (uuid n) db
          ≡ (with_profile me db, thrown (http_error forbidden 403)))
  others_denied = (poll_denied, heartbeat_denied, cancel_denied)
