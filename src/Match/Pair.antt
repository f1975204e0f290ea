-- ===== src/Match/Pair.antt =====
-- The search of `try_match` in db/migrations/0006_try_match_setof_up.sql: which waiting request
-- fits another one.
use terravoy_backend.Prelude.{
  ℕ, Bool, true, false, not, ◌&&◌, ◌||◌, ◌==◌, leb, ltb, Option, none, some, List, [], ◌∷◌,
  if◌then◌else◌, select, is_value,
}
use terravoy_backend.Store.Table.{by_key}
use terravoy_backend.Store.MatchRows.{
  Person, TripCard, MatchRequest, Preferences, RequestStatus, waiting,
}

abbrev pub person_id : Person → ℕ
person_id p = p.id

abbrev pub trip_id : TripCard → ℕ
trip_id t = t.id

abbrev pub request_id : MatchRequest → ℕ
request_id r = r.id

abbrev pub is_waiting : RequestStatus → Bool
is_waiting waiting = true
is_waiting _ = false

-- `status = 'waiting' and expires_at >= now()`
abbrev pub is_fresh : (now : ℕ) → MatchRequest → Bool
is_fresh now r = is_waiting r.status && leb now r.expires_at

-- The text 'any'.
abbrev pub any_gender : ℕ
any_gender = 1

-- `wanted is null or wanted = 'any' or wanted = gender`
abbrev pub gender_fits : Option ℕ → Option ℕ → Bool
gender_fits none gender = true
gender_fits (some w) gender = w == any_gender || is_value gender w

-- `wanted is null or age is null or age >= wanted`, and `age <= wanted`
abbrev pub min_fits : Option ℕ → Option ℕ → Bool
min_fits (some w) (some a) = leb w a
min_fits _ _ = true

abbrev pub max_fits : Option ℕ → Option ℕ → Bool
max_fits (some w) (some a) = leb a w
max_fits _ _ = true

-- What one request prefers fits the other person.
unfoldable pub accepts : Preferences → Person → Bool
accepts wants p =
    gender_fits wants.gender p.gender
    && (min_fits wants.age_min p.age && max_fits wants.age_max p.age)

-- The same city, and dates that overlap, both ends included.
unfoldable pub trips_meet : TripCard → TripCard → Bool
trips_meet a b =
    a.destination_city == b.destination_city
    && (leb a.start_date b.end_date && leb b.start_date a.end_date)

-- A request with the rows that it is joined with.
pub record Traveller : Type 0 where
  pub request : MatchRequest
  pub trip : TripCard
  pub person : Person

-- The conditions on `mr` for the request `a`.
unfoldable pub fits : (now : ℕ) → Traveller → Traveller → Bool
unfolding accepts trips_meet
fits now a b =
    is_fresh now b.request
    && (not (b.request.id == a.request.id)
        && (not (b.request.profile_id == a.request.profile_id)
            && (trips_meet b.trip a.trip
                && (accepts a.request.wants b.person && accepts b.request.wants a.person))))

abbrev pub travels : MatchRequest → Option TripCard → Option Person → Option Traveller
travels r (some t) (some p) = some record { request = r; trip = t; person = p }
travels r _ _ = none

-- The join with `trip_cards` and `profiles`.
abbrev pub joined : List TripCard → List Person → MatchRequest → Option Traveller
joined trips people r =
    travels r (by_key trip_id r.trip_card_id trips) (by_key person_id r.profile_id people)

abbrev pub keep : Bool → MatchRequest → List MatchRequest → List MatchRequest
keep true r rs = r ∷ rs
keep false r rs = rs

unfoldable pub fits_joined : (now : ℕ) → Traveller → Option Traveller → Bool
unfolding fits
fits_joined now a none = false
fits_joined now a (some b) = fits now a b

-- `order by last_seen_at desc, created_at desc limit 1`; of two that were seen at the same time the
-- table has the later one first.
abbrev pub later_of : MatchRequest → Option MatchRequest → Option MatchRequest
later_of r none = some r
later_of r (some q) = if ltb r.last_seen_at q.last_seen_at then some q else some r

unfoldable pub latest : List MatchRequest → Option MatchRequest
latest [] = none
latest (r ∷ rs) = later_of r (latest rs)

unfoldable pub partner :
    (now : ℕ) → List TripCard → List Person → Traveller → List MatchRequest → Option MatchRequest
unfolding fits latest
partner now trips people a rs = latest (select (λ r. fits_joined now a (joined trips people r)) rs)
