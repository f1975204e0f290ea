-- ===== src/Match/Serve.antt =====
-- The requests for matches, with the `catch` of each route, and the events of a run.
use terravoy_backend.Prelude.{ℕ, ◌+◌, Bool, Option, none, some, List, [], ◌∷◌}
use terravoy_backend.Store.CertRows.{TextId}
use terravoy_backend.Store.Db.{Db, M, Reply, error, unauthorized, to_reply}
use terravoy_backend.Store.MatchRows.{Person, TripCard}
use terravoy_backend.Auth.Authorize.{Actor}
use terravoy_backend.Match.Session.{Im}
use terravoy_backend.Match.Start.{StartBody, handle_match_start}
use terravoy_backend.Match.Poll.{handle_match_poll, handle_match_heartbeat}
use terravoy_backend.Match.Cancel.{
  handle_match_cancel, handle_match_attach, handle_match_get_partner,
}
use terravoy_backend.Match.Worker.{run_once}

pub data MatchCall : Type 0 where
  start_call : StartBody → MatchCall
  poll_call heartbeat_call cancel_call : TextId → MatchCall
  attach_call : (session thread : TextId) → (force : Bool) → MatchCall
  partner_call : (session : TextId) → (self_profile : Option ℕ) → MatchCall

unfoldable pub dispatch_match : Im → Actor → MatchCall → M Reply
dispatch_match im a (start_call body) = handle_match_start im a body
dispatch_match im a (poll_call id) = handle_match_poll im a id
dispatch_match im a (heartbeat_call id) = handle_match_heartbeat im a id
dispatch_match im a (cancel_call id) = handle_match_cancel a id
dispatch_match im a (attach_call session thread force) = handle_match_attach session thread force
dispatch_match im a (partner_call session me) = handle_match_get_partner session me

-- Without a valid token there is no actor.
unfoldable pub serve_match : Im → Option Actor → MatchCall → Db → Db × Reply
unfolding dispatch_match
serve_match im none call db = (db, error unauthorized 401)
serve_match im (some a) call db = let (db', r) = dispatch_match im a call db in (db', to_reply r)

-- `people_written` and `trips_written` are what other routes leave in `profiles` and `trip_cards`.
pub data MatchEvent : Type 0 where
  match_call : Option Actor → MatchCall → MatchEvent
  worker_round : (limit : ℕ) → MatchEvent
  pass_time : (ms : ℕ) → MatchEvent
  people_written : List Person → MatchEvent
  trips_written : List TripCard → MatchEvent

unfoldable pub handle_match_event : Im → MatchEvent → Db → Db
unfolding serve_match
handle_match_event im (match_call who call) db = (serve_match im who call db).0
handle_match_event im (worker_round limit) db = run_once limit db
handle_match_event im (pass_time ms) db = record db { now = db.now + ms }
handle_match_event im (people_written people) db = record db { people = people }
handle_match_event im (trips_written trips) db = record db { trip_cards = trips }

unfoldable pub run_match : Im → List MatchEvent → Db → Db
unfolding handle_match_event
run_match im [] db = db
run_match im (e ∷ es) db = run_match im es (handle_match_event im e db)
