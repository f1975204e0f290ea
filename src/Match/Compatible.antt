-- ===== src/Match/Compatible.antt =====
-- The conditions of `try_match` as a relation between two travellers.
use terravoy_backend.Prelude.{ℕ, ◌≤◌, ◌≡◌, ◌≢◌, refl, true, Option, none, some, arith}
use terravoy_backend.Store.MatchRows.{Person, Preferences, RequestStatus, waiting}
use terravoy_backend.Match.Pair.{
  Traveller, accepts, trips_meet, fits, is_waiting, any_gender, gender_fits, min_fits, max_fits,
}

-- The person has the wanted gender, unless any will do, and an age, if known, within the bounds.
pub record IsWelcome (wants : Preferences) (p : Person) : Type 0 where
  pub gender : (w : ℕ) → wants.gender ≡ some w → w ≢ any_gender → p.gender ≡ some w
  pub old_enough : (w a : ℕ) → wants.age_min ≡ some w → p.age ≡ some a → w ≤ a
  pub young_enough : (w a : ℕ) → wants.age_max ≡ some w → p.age ≡ some a → a ≤ w

-- The request `b` waits, is fresh, is another profile's, goes to the same city on a common day, and
-- each of the two is welcome to the other.
pub record IsCompatible (now : ℕ) (a b : Traveller) : Type 0 where
  pub waits : b.request.status ≡ waiting
  pub fresh : now ≤ b.request.expires_at
  pub other_request : b.request.id ≢ a.request.id
  pub other_profile : b.request.profile_id ≢ a.request.profile_id
  pub same_city : b.trip.destination_city ≡ a.trip.destination_city
  pub starts_before : b.trip.start_date ≤ a.trip.end_date
  pub ends_after : a.trip.start_date ≤ b.trip.end_date
  pub b_welcome : IsWelcome a.request.wants b.person
  pub a_welcome : IsWelcome b.request.wants a.person

accepts-IsWelcome : (wants : Preferences) (p : Person) → accepts wants p ≡ true → IsWelcome wants p
unfolding accepts
accepts-IsWelcome wants p h = record {
  gender = λ w e n. ground arith;
  old_enough = λ w a e k. ground arith;
  young_enough = λ w a e k. ground arith;
}

waiting_status : (s : RequestStatus) → is_waiting s ≡ true → s ≡ waiting
waiting_status s h = ground arith

pub fits-IsCompatible : (now : ℕ) (a b : Traveller) → fits now a b ≡ true → IsCompatible now a b
unfolding fits trips_meet
fits-IsCompatible now a b h = record {
  waits = waiting_status b.request.status (ground arith);
  fresh = ground arith;
  other_request = λ e. ground arith;
  other_profile = λ e. ground arith;
  same_city = ground arith;
  starts_before = ground arith;
  ends_after = ground arith;
  b_welcome = accepts-IsWelcome a.request.wants b.person (ground arith);
  a_welcome = accepts-IsWelcome b.request.wants a.person (ground arith);
}

gender_welcome :
    (w g : Option ℕ) → ((v : ℕ) → w ≡ some v → v ≢ any_gender → g ≡ some v) → gender_fits w g ≡ true
gender_welcome none g h = ground arith
gender_welcome (some v) g h = ground (arith, h v refl)

min_welcome : (w a : Option ℕ) → ((v x : ℕ) → w ≡ some v → a ≡ some x → v ≤ x) → min_fits w a ≡ true
min_welcome none a h = ground arith
min_welcome (some v) none h = ground arith
min_welcome (some v) (some x) h = ground (arith, h v x refl refl)

max_welcome : (w a : Option ℕ) → ((v x : ℕ) → w ≡ some v → a ≡ some x → x ≤ v) → max_fits w a ≡ true
max_welcome none a h = ground arith
max_welcome (some v) none h = ground arith
max_welcome (some v) (some x) h = ground (arith, h v x refl refl)

IsWelcome-accepts : (wants : Preferences) (p : Person) → IsWelcome wants p → accepts wants p ≡ true
unfolding accepts
IsWelcome-accepts wants p h = ground (
  arith,
  gender_welcome wants.gender p.gender h.gender,
  min_welcome wants.age_min p.age h.old_enough,
  max_welcome wants.age_max p.age h.young_enough,
)

pub IsCompatible-fits : (now : ℕ) (a b : Traveller) → IsCompatible now a b → fits now a b ≡ true
unfolding fits trips_meet
IsCompatible-fits now a b h =
    let b_ok = IsWelcome-accepts a.request.wants b.person h.b_welcome in
    let a_ok = IsWelcome-accepts b.request.wants a.person h.a_welcome in
    let w = h.waits in
    let f = h.fresh in
    let r = h.other_request in
    let p = h.other_profile in
    let c = h.same_city in let s = h.starts_before in let e = h.ends_after in ground arith
