-- ===== src/Store/MatchRows.antt =====
-- The rows that routes/match.js, workers/match_worker.js and the functions of
-- db/migrations/0004_match_request_freshness.sql and 0006_try_match_setof_up.sql read and write.
-- Texts are numbers, as in `Store/Rows.antt`; the texts of a profile have no spaces around them.
use terravoy_backend.Prelude.{ℕ, Bool, Option}
use terravoy_backend.Store.Rows.{UserId}

-- The columns of `profiles` that matching reads; a text that is null or blank is `none`.
pub record Person : Type 0 where
  pub id : ℕ
  pub is_completed : Bool
  pub gender : Option ℕ
  pub age : Option ℕ
  pub first_language : Option ℕ
  pub second_language : Option ℕ
  pub home_city : Option ℕ

-- The dates of a trip are in order.
pub record TripCard : Type 0 where
  pub id : ℕ
  pub destination_city : ℕ
  pub start_date : ℕ
  pub end_date : ℕ

pub data RequestStatus : Type 0 where
  waiting matched cancelled expired : RequestStatus

-- What a request prefers, normalized: a text or list that is missing is `none`.
pub record Preferences : Type 0 where
  pub gender : Option ℕ
  pub age_min : Option ℕ
  pub age_max : Option ℕ
  pub languages : Option ℕ
  pub city_scope : ℕ

pub record MatchRequest : Type 0 where
  pub id : ℕ
  pub profile_id : ℕ
  pub trip_card_id : ℕ
  pub wants : Preferences
  pub status : RequestStatus
  pub created_at : ℕ
  pub last_seen_at : ℕ
  pub expires_at : ℕ
  pub cancelled_at : Option ℕ
  pub expired_at : Option ℕ
  pub matched_at : Option ℕ

pub data SessionStatus : Type 0 where
  session_pending session_matched : SessionStatus

pub record MatchSession : Type 0 where
  pub id : ℕ
  pub profile_a_id : ℕ
  pub profile_b_id : ℕ
  pub request_a_id : ℕ
  pub request_b_id : ℕ
  pub trip_card_a_id : ℕ
  pub trip_card_b_id : ℕ
  pub status : SessionStatus
  pub thread_id : Option ℕ

-- A field of stored or sent preferences that may be missing.
pub record RawPreferences : Type 0 where
  pub gender : Option ℕ
  pub age_min : Option ℕ
  pub age_max : Option ℕ
  pub languages : Option ℕ
  pub city_scope : Option ℕ

-- A row of `user_preferences`.
pub record PreferencesRow : Type 0 where
  pub user_id : UserId
  pub match_preferences : RawPreferences

-- The field `status` of the replies.
pub data MatchState : Type 0 where
  state_incomplete state_waiting state_matched : MatchState
  state_of : RequestStatus → MatchState
