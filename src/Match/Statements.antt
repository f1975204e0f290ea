-- ===== src/Match/Statements.antt =====
-- `touch_match_request`, `cancel_active_match_requests`, `cancel_match`, `try_match` and
-- `start_match` of db/migrations/0004_match_request_freshness.sql and 0006_try_match_setof_up.sql.
use terravoy_backend.Prelude.{
  ℕ, ◌+◌, Bool, ◌&&◌, ◌||◌, ◌==◌, ltb, Option, none, some, List, ◌∷◌, find, modify,
}
use terravoy_backend.Store.Table.{by_key}
use terravoy_backend.Store.Db.{Db, M, exception, throw, value, modify_db}
use terravoy_backend.Store.MatchRows.{
  Person, TripCard, MatchRequest, MatchSession, Preferences, waiting, matched, cancelled, expired,
  session_pending,
}
use terravoy_backend.Match.Pair.{is_waiting, is_fresh, trip_id, Traveller, joined, partner}

-- `interval '60 seconds'`
abbrev pub fresh_ms : ℕ
fresh_ms = 60000

abbrev pub cancel_row : (now : ℕ) → MatchRequest → MatchRequest
cancel_row now r = record r { status = cancelled; cancelled_at = some now }

abbrev pub expire_row : (now : ℕ) → MatchRequest → MatchRequest
expire_row now r = record r { status = expired; expired_at = some now }

abbrev pub match_row : (now : ℕ) → MatchRequest → MatchRequest
match_row now r = record r { status = matched; matched_at = some now }

abbrev pub touch_row : (now : ℕ) → MatchRequest → MatchRequest
touch_row now r = record r { last_seen_at = now; expires_at = now + fresh_ms }

-- Each statement changes the rows that pass its test.
abbrev pub set_requests :
    (Db → MatchRequest → Bool) → (Db → MatchRequest → MatchRequest) → M (Unit {0})
set_requests test f =
    modify_db λ db. record db { match_requests = modify (test db) (f db) db.match_requests }

unfoldable pub touch_match_request : (id profile_id : ℕ) → M (Unit {0})
touch_match_request id me =
    set_requests (λ db r. r.id == id && (r.profile_id == me && is_fresh db.now r))
      (λ db. touch_row db.now)

unfoldable pub cancel_active_match_requests : (profile_id : ℕ) → M (Unit {0})
cancel_active_match_requests me =
    set_requests (λ db r. r.profile_id == me && is_waiting r.status) (λ db. cancel_row db.now)

unfoldable pub cancel_match : (id : ℕ) → M (Unit {0})
cancel_match id = set_requests (λ db r. r.id == id && is_waiting r.status) (λ db. cancel_row db.now)

-- Stale waiting requests expire.
unfoldable pub expire_stale : M (Unit {0})
expire_stale =
    set_requests (λ db r. is_waiting r.status && ltb r.expires_at db.now) (λ db. expire_row db.now)

abbrev pub new_session : (id : ℕ) → MatchRequest → MatchRequest → MatchSession
new_session id a b = record {
  id = id;
  profile_a_id = a.profile_id;
  profile_b_id = b.profile_id;
  request_a_id = a.id;
  request_b_id = b.id;
  trip_card_a_id = a.trip_card_id;
  trip_card_b_id = b.trip_card_id;
  status = session_pending;
  thread_id = none;
}

-- The session is inserted, and both requests are matched.
unfoldable pub pair_up : MatchRequest → MatchRequest → M (Option MatchSession)
pair_up a b db =
    let session = new_session db.next_session a b in
    (
      record db {
        match_sessions = session ∷ db.match_sessions;
        next_session = db.next_session + 1;
        match_requests =
            modify (λ (r : MatchRequest). r.id == a.id || r.id == b.id) (match_row db.now)
              db.match_requests;
      },
      value (some session),
    )

unfoldable pub pair_found : MatchRequest → Option MatchRequest → M (Option MatchSession)
unfolding pair_up
pair_found a none db = (db, value none)
pair_found a (some b) db = pair_up a b db

unfoldable pub search_for : Option Traveller → M (Option MatchSession)
unfolding partner
search_for none db = (db, value none)
search_for (some a) db =
    pair_found a.request (partner db.now db.trip_cards db.people a db.match_requests) db

abbrev pub joined_row : List TripCard → List Person → Option MatchRequest → Option Traveller
joined_row trips people none = none
joined_row trips people (some r) = joined trips people r

-- The request, if it is still fresh, with its trip and its profile.
abbrev pub fresh_request : ℕ → Db → Option Traveller
fresh_request id db =
    joined_row db.trip_cards db.people
      (find (λ (r : MatchRequest). r.id == id && is_fresh db.now r) db.match_requests)

abbrev pub search_from : ℕ → M (Option MatchSession)
search_from id db = search_for (fresh_request id db) db

unfoldable pub try_match : ℕ → M (Option MatchSession)
unfolding expire_stale
try_match id db = search_from id (expire_stale db).0

abbrev pub new_request : (now id profile_id trip_card_id : ℕ) → Preferences → MatchRequest
new_request now id me trip wants = record {
  id = id;
  profile_id = me;
  trip_card_id = trip;
  wants = wants;
  status = waiting;
  created_at = now;
  last_seen_at = now;
  expires_at = now + fresh_ms;
  cancelled_at = none;
  expired_at = none;
  matched_at = none;
}

abbrev pub insert_request : (profile_id trip_card_id : ℕ) → Preferences → Db → Db
insert_request me trip wants db = record db {
  match_requests = new_request db.now db.next_request me trip wants ∷ db.match_requests;
  next_request = db.next_request + 1;
}

unfoldable pub start_with :
    (profile_id : ℕ) → Option TripCard → Preferences → M (Option MatchSession)
unfolding cancel_active_match_requests try_match
start_with me none wants db = throw exception db
start_with me (some t) wants db =
    try_match db.next_request (insert_request me t.id wants (cancel_active_match_requests me db).0)

-- One statement: where the trip card is not there, its foreign key undoes all of it.
unfoldable pub start_match : (profile_id trip_card_id : ℕ) → Preferences → M (Option MatchSession)
start_match me trip wants db = start_with me (by_key trip_id trip db.trip_cards) wants db
