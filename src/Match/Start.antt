-- ===== src/Match/Start.antt =====
-- The route `POST /functions/v1/match-start`.
use terravoy_backend.Prelude.{ℕ, Bool, true, false, not, Option, none, some, if◌then◌else◌, or_else}
use terravoy_backend.Store.Rows.{UserId, uuid, missing}
use terravoy_backend.Store.CertRows.{TextId}
use terravoy_backend.Store.Table.{by_key, update}
use terravoy_backend.Store.Db.{
  Db, M, Reply, ok, error, match_state, invalid_request, exception, pure, throw, gets, reply_if,
  modify_db, ◌>>=◌, ◌>>◌,
}
use terravoy_backend.Store.MatchRows.{
  Person, MatchRequest, MatchSession, Preferences, RawPreferences, state_incomplete, state_waiting,
  state_matched,
}
use terravoy_backend.Auth.Authorize.{Actor, authorize, match_start, no_resource}
use terravoy_backend.Auth.Profile.{ensure_profile}
use terravoy_backend.Match.Pair.{person_id}
use terravoy_backend.Match.Statements.{start_match}
use terravoy_backend.Match.Session.{
  Im, profile_complete, active_request, latest_request, ensure_thread, other_profile,
  is_session_for, fetch_prefs_for_match, upsert_prefs_for_match,
}

-- A field that the body has is `some`, with what it normalizes to. `preferences` is `none` if it is
-- missing or has no keys.
pub record StartBody : Type 0 where
  pub trip_card_id : TextId
  pub gender : Option (Option ℕ)
  pub age_min : Option (Option ℕ)
  pub age_max : Option (Option ℕ)
  pub languages : Option (Option ℕ)
  pub city_scope : Option (Option ℕ)
  pub preferences : Option RawPreferences

-- The text 'Strict'.
abbrev pub strict : ℕ
strict = 1

-- `appliedPreferences`
unfoldable pub applied : StartBody → RawPreferences → Preferences
applied body prefs = record {
  gender = or_else body.gender prefs.gender;
  age_min = or_else body.age_min prefs.age_min;
  age_max = or_else body.age_max prefs.age_max;
  languages = or_else body.languages prefs.languages;
  city_scope = or_else (or_else body.city_scope prefs.city_scope) strict;
}

abbrev pub effective_prefs : UserId → Option RawPreferences → M RawPreferences
effective_prefs u none = fetch_prefs_for_match u
effective_prefs u (some prefs) = do upsert_prefs_for_match u prefs; pure prefs

-- The profile that `ensureProfile` has left; a new one has no columns yet.
abbrev pub new_person : ℕ → Person
new_person me = record {
  id = me;
  is_completed = false;
  gender = none;
  age = none;
  first_language = none;
  second_language = none;
  home_city = none;
}

abbrev pub fetch_profile : ℕ → Db → Person
fetch_profile me db = or_else (by_key person_id me db.people) (new_person me)

-- `update profiles set is_completed = $1 where id = $2`, which changes nothing where it is so.
abbrev pub set_completed : ℕ → Bool → M (Unit {0})
set_completed me b = modify_db λ db. record db {
  people = update person_id me (λ (p : Person). record p { is_completed = b }) db.people;
}

abbrev pub waiting_reply : (me : ℕ) → Option ℕ → M Reply
waiting_reply me latest = do
  active ← gets (λ db. active_request me db)
  pure (
      ok
        (match_state state_waiting (elim active [ some r ↦ some r.id | none ↦ latest ]) none none
          none)
        200)

-- The reply 'matched' wants the peer, the thread and a session of this very request.
abbrev pub matched_reply : (me : ℕ) → Option ℕ → MatchSession → Option ℕ → Option ℕ → M Reply
matched_reply me latest s (some peer) (some thread) =
    let id = or_else latest s.request_a_id in
    let other = waiting_reply me latest in
    if is_session_for s id
    then pure (ok (match_state state_matched (some id) (some s.id) (some peer) (some thread)) 200)
    else other
matched_reply me latest s _ _ = waiting_reply me latest

unfoldable pub answer_start : Im → (me : ℕ) → Option ℕ → Option MatchSession → M Reply
unfolding ensure_thread other_profile
answer_start im me latest none = waiting_reply me latest
answer_start im me latest (some s) = do
  row ← ensure_thread im s
  matched_reply me latest row (other_profile row me) row.thread_id

-- A text that is no uuid makes the statement fail.
unfoldable pub start_statement : ℕ → TextId → Preferences → M (Option MatchSession)
unfolding start_match
start_statement me (uuid trip) wants = start_match me trip wants
start_statement me _ wants = throw exception

abbrev pub is_missing : TextId → Bool
is_missing missing = true
is_missing _ = false

abbrev pub id_of : Option MatchRequest → Option ℕ
id_of none = none
id_of (some r) = some r.id

unfoldable pub handle_match_start : Im → Actor → StartBody → M Reply
unfolding profile_complete fetch_prefs_for_match upsert_prefs_for_match applied
handle_match_start im actor body = do
  reply_if (is_missing body.trip_card_id) (error invalid_request 400)
  me ← ensure_profile actor.user_id
  authorize actor.role me match_start no_resource
  profile ← gets (λ db. fetch_profile me db)
  set_completed me (profile_complete profile)
  reply_if (not (profile_complete profile))
      (ok (match_state state_incomplete none none none none) 200)
  prefs ← effective_prefs actor.user_id body.preferences
  session ← start_statement me body.trip_card_id (applied body prefs)
  latest ← gets (λ db. id_of (latest_request me db))
  answer_start im me latest session
