-- ===== src/Match/Session.antt =====
-- The helpers of routes/match.js on profiles, requests and sessions. The thread of two users comes
-- from the messaging service (`ensureMatchThread` of services/imApi.js), which is outside the
-- server, so it is a parameter.
use terravoy_backend.Prelude.{
  ℕ, Bool, false, ◌&&◌, ◌||◌, ◌==◌, leb, Option, none, some, List, [], ◌∷◌, if◌then◌else◌, find,
  is_some,
}
use terravoy_backend.Store.Rows.{UserId, user_eq}
use terravoy_backend.Store.Table.{update}
use terravoy_backend.Store.Db.{Db, M, pure, gets, modify_db, ◌>>=◌, ◌>>◌}
use terravoy_backend.Store.MatchRows.{
  Person, MatchRequest, MatchSession, RawPreferences, PreferencesRow,
}
use terravoy_backend.Payments.Gateway.{Answer, from_answer}
use terravoy_backend.Match.Pair.{is_waiting}

-- The thread for a session and its two members, none, or an exception.
abbrev pub Im : Type 0
Im = (session member_a member_b : ℕ) → Answer (Option ℕ)

abbrev pub session_id : MatchSession → ℕ
session_id s = s.id

abbrev pub is_adult : Option ℕ → Bool
is_adult none = false
is_adult (some a) = leb 18 a && leb a 120

-- `computeProfileCompletion(profile).isCompleted`
unfoldable pub profile_complete : Person → Bool
profile_complete p =
    is_some p.gender
    && (is_adult p.age
        && (is_some p.first_language && (is_some p.second_language && is_some p.home_city)))

-- `getActiveRequest`, `getLatestRequest` and `getSessionByRequest`
abbrev pub active_request : (profile_id : ℕ) → Db → Option MatchRequest
active_request me db =
    find (λ (r : MatchRequest). r.profile_id == me && is_waiting r.status) db.match_requests

abbrev pub latest_request : (profile_id : ℕ) → Db → Option MatchRequest
latest_request me db = find (λ (r : MatchRequest). r.profile_id == me) db.match_requests

abbrev pub session_by_request : (request_id : ℕ) → Db → Option MatchSession
session_by_request id db =
    find (λ (s : MatchSession). s.request_a_id == id || s.request_b_id == id) db.match_sessions

-- `update match_sessions set thread_id = $1 where id = $2`
abbrev pub set_thread : (session_id thread_id : ℕ) → M (Unit {0})
set_thread id thread = modify_db λ db. record db {
  match_sessions =
      update session_id id (λ (s : MatchSession). record s { thread_id = some thread })
        db.match_sessions;
}

abbrev pub attach : MatchSession → Option ℕ → M MatchSession
attach s none = pure s
attach s (some thread) = do set_thread s.id thread; pure (record s { thread_id = some thread })

abbrev pub thread_or : Im → MatchSession → Option ℕ → M MatchSession
thread_or im s (some t) = pure s
thread_or im s none = do
  thread ← from_answer (im s.id s.profile_a_id s.profile_b_id)
  attach s thread

-- `ensureThreadForSession`, with the row that it leaves in `sessionRow`. A profile id is its user
-- id, and both are there.
unfoldable pub ensure_thread : Im → MatchSession → M MatchSession
ensure_thread im s = thread_or im s s.thread_id

-- The other profile of the session, `none` if it is the same one.
unfoldable pub other_profile : MatchSession → (me : ℕ) → Option ℕ
other_profile s me =
    let other = if s.profile_a_id == me then s.profile_b_id else s.profile_a_id in
    if other == me then none else some other

-- `isSessionForRequest`
abbrev pub is_session_for : MatchSession → ℕ → Bool
is_session_for s id = s.request_a_id == id || s.request_b_id == id

-- The preferences that a user has stored, and those that are written over them.
abbrev pub no_preferences : RawPreferences
no_preferences = record {
  gender = none;
  age_min = none;
  age_max = none;
  languages = none;
  city_scope = none;
}

abbrev pub stored : Option PreferencesRow → RawPreferences
stored none = no_preferences
stored (some r) = r.match_preferences

unfoldable pub fetch_prefs_for_match : UserId → M RawPreferences
fetch_prefs_for_match u =
    gets λ db. stored (find (λ (r : PreferencesRow). user_eq r.user_id u) db.preferences)

abbrev pub upsert : UserId → RawPreferences → List PreferencesRow → List PreferencesRow
upsert u prefs [] = record { user_id = u; match_preferences = prefs } ∷ []
upsert u prefs (r ∷ rs) =
    let rest = upsert u prefs rs in
    if user_eq r.user_id u then record r { match_preferences = prefs } ∷ rs else r ∷ rest

unfoldable pub upsert_prefs_for_match : UserId → RawPreferences → M (Unit {0})
upsert_prefs_for_match u prefs =
    modify_db λ db. record db { preferences = upsert u prefs db.preferences }
