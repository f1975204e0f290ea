-- ===== src/Auth/Profile.antt =====
-- `requireUserId` and `ensureProfile` of routes/orders.js and routes/payments.js, with the function
-- `ensure_profile_v2` of db/migrations/0032_remove_leancloud_user_id.sql that they call.
use terravoy_backend.Prelude.{ℕ, Bool, false, List, [], ◌∷◌, ◌==◌, ◌||◌, if◌then◌else◌}
use terravoy_backend.Store.Db.{M, http_error, exception, user_id_required, throw, value}
use terravoy_backend.Store.Rows.{UserId, missing, blank, malformed, uuid}

abbrev pub contains : List ℕ → ℕ → Bool
contains [] a = false
contains (x ∷ xs) a = x == a || contains xs a

-- The uuid of the user is the id of the profile, which is inserted if it is not there.
abbrev insert_profile : ℕ → List ℕ → List ℕ
insert_profile u ps = if contains ps u then ps else u ∷ ps

-- A blank id is a 400; one that the database cannot cast to a uuid raises in SQL.
unfoldable pub ensure_profile : UserId → M ℕ
ensure_profile missing = throw (http_error user_id_required 400)
ensure_profile blank = throw (http_error user_id_required 400)
ensure_profile (malformed u) = throw exception
ensure_profile (uuid u) = λ db. (record db { profiles = insert_profile u db.profiles }, value u)
