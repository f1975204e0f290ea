-- ===== src/Match/Runs.antt =====
-- Every sequence of events keeps the tables of the matches sound.
use terravoy_backend.Prelude.{ℕ, ◌≡◌, false, Option, none, some, List, [], ◌∷◌, take, select, arith}
use terravoy_backend.Store.Table.{by_key}
use terravoy_backend.Store.Db.{Db, empty_db}
use terravoy_backend.Store.MatchRows.{MatchRequest}
use terravoy_backend.Auth.Authorize.{Actor}
use terravoy_backend.Match.Pair.{is_waiting, is_fresh, request_id}
use terravoy_backend.Match.Session.{Im}
use terravoy_backend.Match.Worker.{match_each, run_once, by_last_seen}
use terravoy_backend.Match.Serve.{
  MatchCall, start_call, poll_call, heartbeat_call, cancel_call, attach_call, partner_call,
  dispatch_match, serve_match, MatchEvent, match_call, worker_round, pass_time, people_written,
  trips_written, handle_match_event, run_match,
}
use terravoy_backend.Match.Table.{waiting_of}
use terravoy_backend.Match.Sound.{IsPaired}
use terravoy_backend.Match.Found.{try_match-IsPaired}
use terravoy_backend.Match.Keeps.{Keeps}
use terravoy_backend.Match.Handled.{
  Keeps-match_start, Keeps-match_poll, Keeps-match_heartbeat, Keeps-match_cancel,
  Keeps-match_attach, Keeps-match_get_partner,
}

Keeps-dispatch :
    (start : Db) (im : Im) (a : Actor) (call : MatchCall)
    → Keeps (IsPaired start) (dispatch_match im a call)
unfolding dispatch_match
Keeps-dispatch start im a (start_call body) = Keeps-match_start start im a body
Keeps-dispatch start im a (poll_call id) = Keeps-match_poll start im a id
Keeps-dispatch start im a (heartbeat_call id) = Keeps-match_heartbeat start im a id
Keeps-dispatch start im a (cancel_call id) = Keeps-match_cancel start a id
Keeps-dispatch start im a (attach_call id thread force) = Keeps-match_attach start id thread force
Keeps-dispatch start im a (partner_call id me) = Keeps-match_get_partner start id me

module _ {start : Db} where
  served-IsPaired :
      (im : Im) (who : Option Actor) (call : MatchCall) (db : Db)
      → IsPaired start db
      → IsPaired start (serve_match im who call db).0
  unfolding serve_match
  served-IsPaired im none call db h = h
  served-IsPaired im (some a) call db h = (Keeps-dispatch start im a call).at db h

  each-IsPaired :
      (rs : List MatchRequest) (db : Db) → IsPaired start db → IsPaired start (match_each rs db)
  unfolding match_each
  each-IsPaired [] db h = h
  each-IsPaired (r ∷ rs) db h = each-IsPaired rs _ (try_match-IsPaired h r.id)

  event-IsPaired :
      (im : Im) (e : MatchEvent) (db : Db)
      → IsPaired start db
      → IsPaired start (handle_match_event im e db)
  unfolding handle_match_event run_once
  event-IsPaired im (match_call who call) db h = served-IsPaired im who call db h
  event-IsPaired im (worker_round limit) db h =
      each-IsPaired (take limit (by_last_seen (select (is_fresh db.now) db.match_requests))) db h
  event-IsPaired im (pass_time ms) db h = record {
    ids = h.ids;
    one = h.one;
    pairs = h.pairs;
    ended = h.ended;
  }
  event-IsPaired im (people_written people) db h = record {
    ids = h.ids;
    one = h.one;
    pairs = h.pairs;
    ended = h.ended;
  }
  event-IsPaired im (trips_written trips) db h = record {
    ids = h.ids;
    one = h.one;
    pairs = h.pairs;
    ended = h.ended;
  }

  pub run-IsPaired' :
      (im : Im) (es : List MatchEvent) (db : Db)
      → IsPaired start db
      → IsPaired start (run_match im es db)
  unfolding run_match
  run-IsPaired' im [] db h = h
  run-IsPaired' im (e ∷ es) db h =
      run-IsPaired' im es (handle_match_event im e db) (event-IsPaired im e db h)

-- A database that is sound is so from itself on.
from_here : {start db : Db} → IsPaired start db → IsPaired db db
from_here h = record { ids = h.ids; one = h.one; pairs = h.pairs; ended = λ id r e n. e }

pub empty_db-IsPaired : IsPaired empty_db empty_db
unfolding waiting_of
empty_db-IsPaired = record { ids = tt; one = λ p. omega arith; pairs = tt; ended = λ id r e n. e }

-- After any sequence of requests, rounds of the worker and pauses from the empty database: a
-- profile has at most one waiting request, the ids of requests fall along the table (which has the
-- newest first), and every session joins two requests of different
-- profiles, both of which are matched.
pub run-IsPaired : (im : Im) (es : List MatchEvent) → IsPaired empty_db (run_match im es empty_db)
run-IsPaired im es = run-IsPaired' im es empty_db empty_db-IsPaired

-- A request that is no longer waiting (matched, cancelled or expired) stays the same row, whatever
-- events come.
pub run_ended :
    (im : Im) (before later : List MatchEvent) (id : ℕ) (r : MatchRequest)
    → by_key request_id id (run_match im before empty_db).match_requests ≡ some r
    → is_waiting r.status ≡ false
    → by_key request_id id (run_match im later (run_match im before empty_db)).match_requests
      ≡ some r
run_ended im before later id r found n =
    (run-IsPaired' im later (run_match im before empty_db)
        (from_here (run-IsPaired im before))).ended
      id r found n
