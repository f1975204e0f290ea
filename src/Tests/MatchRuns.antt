-- ===== src/Tests/MatchRuns.antt =====
-- Two travellers to the same city.
use terravoy_backend.Prelude.{ℕ, ◌≡◌, ◌≢◌, true, false, some, none, List, [], ◌∷◌, refl, arith}
use terravoy_backend.Store.Rows.{uuid, traveler}
use terravoy_backend.Store.Table.{by_key}
use terravoy_backend.Store.Db.{Db, empty_db, value, thrown, http_error, forbidden}
use terravoy_backend.Store.MatchRows.{
  Person, TripCard, MatchRequest, MatchSession, Preferences, RawPreferences,
}
use terravoy_backend.Auth.Authorize.{authorize, denies}
use terravoy_backend.Auth.Profile.{ensure_profile}
use terravoy_backend.Payments.Gateway.{answered}
use terravoy_backend.Match.Pair.{
  Traveller, request_id, is_waiting, fits, partner, latest, fits_joined, accepts, trips_meet,
}
use terravoy_backend.Match.Statements.{
  try_match, start_match, start_with, search_for, pair_found, pair_up, expire_stale, new_request,
  cancel_active_match_requests, new_session,
}
use terravoy_backend.Match.Session.{
  Im, profile_complete, fetch_prefs_for_match, upsert_prefs_for_match, ensure_thread, other_profile,
}
use terravoy_backend.Match.Start.{
  StartBody, applied, start_statement, answer_start, handle_match_start,
}
use terravoy_backend.Match.Poll.{handle_match_poll, handle_match_heartbeat}
use terravoy_backend.Match.Cancel.{handle_match_cancel}
use terravoy_backend.Match.Worker.{run_once}
use terravoy_backend.Match.Serve.{
  MatchEvent, match_call, start_call, poll_call, worker_round, people_written, trips_written,
  handle_match_event, run_match, serve_match, dispatch_match,
}
use terravoy_backend.Match.Table.{here, there}
use terravoy_backend.Match.Compatible.{IsCompatible, fits-IsCompatible}
use terravoy_backend.Match.Sound.{IsPaired}
use terravoy_backend.Match.Runs.{run-IsPaired, run_ended}
use terravoy_backend.Match.Partner.{IsPairing, try_match_pairs, try_match_finds}
use terravoy_backend.Match.Owner.{user, with_profile, others_denied}

abbrev person : ℕ → Person
person n = record {
  id = n;
  is_completed = true;
  gender = some 5;
  age = some 30;
  first_language = some 1;
  second_language = some 2;
  home_city = some 3;
}

abbrev trip : ℕ → TripCard
trip n = record { id = n; destination_city = 8; start_date = 100; end_date = 110 }

abbrev grown_up : Preferences
grown_up = record {
  gender = none;
  age_min = some 18;
  age_max = none;
  languages = none;
  city_scope = 1;
}

abbrev open_prefs : RawPreferences
open_prefs = record {
  gender = none;
  age_min = some 18;
  age_max = none;
  languages = none;
  city_scope = none;
}

-- Requests 1 and 2 of the profiles 1 and 2 wait.
abbrev first_request : MatchRequest
first_request = new_request 0 1 1 11 grown_up

abbrev second_request : MatchRequest
second_request = new_request 0 2 2 12 grown_up

abbrev two_waiting : Db
two_waiting = record empty_db {
  people = person 1 ∷ person 2 ∷ [];
  trip_cards = trip 11 ∷ trip 12 ∷ [];
  match_requests = second_request ∷ first_request ∷ [];
  next_request = 3;
}

abbrev first_traveller : Traveller
first_traveller = record { request = first_request; trip = trip 11; person = person 1 }

abbrev second_traveller : Traveller
second_traveller = record { request = second_request; trip = trip 12; person = person 2 }

compatible : IsCompatible 0 second_traveller first_traveller
unfolding fits accepts trips_meet
compatible = fits-IsCompatible 0 second_traveller first_traveller refl

try_match_finds_example : (s : MatchSession) × ((try_match 2 two_waiting).1 ≡ value (some s))
unfolding expire_stale
try_match_finds_example =
    try_match_finds 2 two_waiting second_traveller first_traveller first_request refl (there here)
      refl compatible

finds_first :
    (try_match 2 two_waiting).1 ≡ value (some (new_session 1 second_request first_request))
unfolding try_match search_for pair_found pair_up expire_stale partner latest fits_joined fits
    accepts trips_meet
finds_first = refl

try_match_pairs_example :
    IsPairing 2 (expire_stale two_waiting).0 (new_session 1 second_request first_request)
try_match_pairs_example =
    try_match_pairs 2 two_waiting (new_session 1 second_request first_request) finds_first

one_not_two : first_request.profile_id ≢ 2
one_not_two = ground arith

others_denied_example :
    (handle_match_poll (λ s a b. answered none) (user 2 traveler) (uuid 1) two_waiting
      ≡ (with_profile 2 two_waiting, thrown (http_error forbidden 403)))
    × (handle_match_heartbeat (λ s a b. answered none) (user 2 traveler) (uuid 1) two_waiting
        ≡ (with_profile 2 two_waiting, thrown (http_error forbidden 403)))
    × (handle_match_cancel (user 2 traveler) (uuid 1) two_waiting
        ≡ (with_profile 2 two_waiting, thrown (http_error forbidden 403)))
others_denied_example =
    others_denied (λ s a b. answered none) 2 1 traveler two_waiting first_request refl one_not_two

-- The messaging service makes a thread for every session.
abbrev easy_im : Im
easy_im = λ s a b. answered (some 70)

abbrev start_body : ℕ → StartBody
start_body n = record {
  trip_card_id = uuid n;
  gender = none;
  age_min = none;
  age_max = none;
  languages = none;
  city_scope = none;
  preferences = some open_prefs;
}

abbrev meeting : List MatchEvent
meeting =
    people_written (person 1 ∷ person 2 ∷ [])
    ∷ trips_written (trip 11 ∷ trip 12 ∷ [])
    ∷ match_call (some (user 1 traveler)) (start_call (start_body 11))
    ∷ match_call (some (user 1 traveler)) (start_call (start_body 11))
    ∷ match_call (some (user 2 traveler)) (start_call (start_body 12))
    ∷ worker_round 50
    ∷ []

run-IsPaired_example : IsPaired empty_db (run_match easy_im meeting empty_db)
run-IsPaired_example = run-IsPaired easy_im meeting

-- The first request was replaced by the second one of the same traveller.
first_replaced :
    (r : MatchRequest) × (by_key request_id 1 (run_match easy_im meeting empty_db).match_requests
      ≡ some r)
    × (is_waiting r.status ≡ false)
unfolding run_match handle_match_event serve_match dispatch_match handle_match_start ensure_profile
    authorize denies profile_complete fetch_prefs_for_match upsert_prefs_for_match applied
    start_statement answer_start start_match start_with try_match search_for pair_found pair_up
    expire_stale cancel_active_match_requests partner latest fits_joined fits accepts trips_meet
    ensure_thread other_profile run_once
first_replaced = (_, refl, refl)

run_ended_example :
    by_key request_id 1
      (run_match easy_im
        (match_call (some (user 1 traveler)) (poll_call (uuid 1)) ∷ [])
        (run_match easy_im meeting empty_db)).match_requests
    ≡ some first_replaced.0
run_ended_example =
    run_ended easy_im meeting (match_call (some (user 1 traveler)) (poll_call (uuid 1)) ∷ []) 1
      first_replaced.0 first_replaced.1 first_replaced.2
