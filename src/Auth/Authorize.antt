-- ===== src/Auth/Authorize.antt =====
-- server/src/services/authorize.js
use terravoy_backend.Prelude.{
  ℕ, Bool, true, false, Option, none, some, not, ◌||◌, ◌&&◌, ◌==◌, if◌then◌else◌, is_some,
}
use terravoy_backend.Store.Rows.{Role, traveler, host, UserId}
use terravoy_backend.Store.Db.{M, http_error, forbidden, pure, throw}

-- What `requireAuth` returns; the handlers add `profileId`.
pub record Actor : Type 0 where
  pub user_id : UserId
  pub role : Role

pub data Action : Type 0 where
  match_start match_poll match_cancel match_heartbeat : Action
  orders_create orders_accept orders_reject orders_cancel orders_mark_paid orders_review : Action
  orders_start orders_end orders_detail orders_list_traveler orders_list_host : Action
  payments_create payments_confirm payments_refund : Action

pub record Resource : Type 0 where
  pub owner_profile_id : Option ℕ
  pub host_id : Option ℕ
  pub traveler_id : Option ℕ

abbrev pub no_resource : Resource
no_resource = record { owner_profile_id = none; host_id = none; traveler_id = none }

abbrev pub is_traveler : Role → Bool
is_traveler traveler = true
is_traveler _ = false

abbrev pub is_host : Role → Bool
is_host host = true
is_host _ = false

-- `id && id !== actor.profileId`
abbrev other_than : Option ℕ → ℕ → Bool
other_than none profile_id = false
other_than (some a) profile_id = not (a == profile_id)

-- Both sides of the order are known, and the actor is neither.
abbrev outsider : Resource → ℕ → Bool
outsider r profile_id =
    is_some r.host_id
    && is_some r.traveler_id
    && (other_than r.host_id profile_id && other_than r.traveler_id profile_id)

-- Whether `authorize` calls `deny`. `payments:refund` has no case, so it takes the default.
unfoldable pub denies : Role → ℕ → Action → Resource → Bool
denies role me match_start r = not (is_traveler role) || other_than r.owner_profile_id me
denies role me match_poll r = not (is_traveler role) || other_than r.owner_profile_id me
denies role me match_cancel r = not (is_traveler role) || other_than r.owner_profile_id me
denies role me match_heartbeat r = not (is_traveler role) || other_than r.owner_profile_id me
denies role me orders_create r = not (is_traveler role)
denies role me orders_accept r = not (is_host role) || other_than r.host_id me
denies role me orders_reject r = not (is_host role) || other_than r.host_id me
denies role me orders_cancel r = not (is_traveler role) || other_than r.traveler_id me
denies role me orders_mark_paid r = not (is_traveler role) || other_than r.traveler_id me
denies role me orders_review r = not (is_traveler role) && not (is_host role) || outsider r me
denies role me orders_start r = outsider r me
denies role me orders_end r = outsider r me
denies role me orders_detail r = false
denies role me orders_list_traveler r = false
denies role me orders_list_host r = false
denies role me payments_create r = not (is_traveler role) || other_than r.traveler_id me
denies role me payments_confirm r = not (is_traveler role) || other_than r.traveler_id me
denies role me payments_refund r = false

unfoldable pub authorize : Role → ℕ → Action → Resource → M (Unit {0})
unfolding denies
authorize role me action r =
    if denies role me action r then throw (http_error forbidden 403) else pure tt
