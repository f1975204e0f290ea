-- ===== src/Limiter.antt =====
-- server/src/utils/rateLimiter.js: `SlidingWindowRateLimiter`.
pub mod Window
pub mod Reference
pub mod Bound
use terravoy_backend.Prelude.{
  ℕ, ◌+◌, ◌-◌, ◌/◌, Bool, true, false, Option, none, some, List, [], ◌∷◌, ◌++◌, ◌==◌, if◌then◌else◌,
  leb, ltb, length,
}

-- What `check` returns. The seconds to wait are `NaN`, which is `none`, where `max` is 0 and the
-- key has no hits.
pub data Verdict : Type 0 where
  allowed : Verdict
  denied : (retry_after_seconds : Option ℕ) → Verdict

-- `windowMs`, `max` and `hits`; a key that the map lacks has no hits.
pub record Limiter : Type 0 where
  pub window_ms : ℕ
  pub max : ℕ
  pub hits : ℕ → List ℕ

-- The loop over the timestamps, oldest first, and the slice: `timestamp <= now - windowMs`.
unfoldable pub drop_expired : (window now : ℕ) → List ℕ → List ℕ
drop_expired window now [] = []
drop_expired window now (t ∷ ts) =
    let rest = drop_expired window now ts in if leb (t + window) now then rest else t ∷ ts

-- `Math.ceil(Math.max(0, active[0] + windowMs - now) / 1000)`
unfoldable pub wait_for : (window now : ℕ) → List ℕ → Option ℕ
wait_for window now [] = none
wait_for window now (t ∷ ts) = some ((t + window - now + 999) / 1000)

-- `check` on the timestamps of one key.
unfoldable pub check_hits : (window max now : ℕ) → List ℕ → Verdict × List ℕ
check_hits window max now ts =
    let active = drop_expired window now ts in
    if ltb (length active) max
    then (allowed, active ++ (now ∷ []))
    else (denied (wait_for window now active), ts)

abbrev pub set_hits : ℕ → List ℕ → (ℕ → List ℕ) → ℕ → List ℕ
set_hits key ts hits k = if key == k then ts else hits k

unfoldable pub check : Limiter → (key now : ℕ) → Verdict × Limiter
unfolding check_hits
check l key now =
    let (v, ts) = check_hits l.window_ms l.max now (l.hits key) in
    (v, record l { hits = set_hits key ts l.hits })

-- Calls one after the other, each with its key and its time.
unfoldable pub check_all : Limiter → List (ℕ × ℕ) → List Verdict
check_all l [] = []
check_all l ((key, now) ∷ calls) = let (v, l') = check l key now in v ∷ check_all l' calls

abbrev pub new_limiter : (window max : ℕ) → Limiter
new_limiter window max = record { window_ms = window; max = max; hits = λ key. [] }

abbrev pub is_allowed : Verdict → Bool
is_allowed allowed = true
is_allowed (denied s) = false
