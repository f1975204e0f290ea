-- ===== src/Tests/LimiterRuns.antt =====
-- A limiter of two calls in sixty milliseconds.
use terravoy_backend.Prelude.{
  ℕ, ◌≡◌, ◌≤◌, refl, some, List, [], ◌∷◌, length, select, map, All, arith,
}
use terravoy_backend.Limiter.{
  allowed, denied, check_all, check, check_hits, drop_expired, wait_for, new_limiter, is_allowed,
}
use terravoy_backend.Limiter.Window.{counts}
use terravoy_backend.Limiter.Reference.{Ascending, admits_all, check_all-admits_all}
use terravoy_backend.Limiter.Bound.{admitted, admitted_bound}

-- Keys and times.
abbrev calls : List (ℕ × ℕ)
calls = (1, 5) ∷ (1, 10) ∷ (2, 20) ∷ (1, 30) ∷ (1, 65) ∷ []

calls-Ascending : Ascending 0 calls
calls-Ascending = (omega arith, (omega arith, (omega arith, (omega arith, (omega arith, tt)))))

calls-before : All (λ (c : ℕ × ℕ). c.1 ≤ 66) calls
calls-before = (omega arith, (omega arith, (omega arith, (omega arith, (omega arith, tt)))))

verdicts :
    check_all (new_limiter 60 2) calls
    ≡ allowed ∷ allowed ∷ allowed ∷ denied (some 1) ∷ allowed ∷ []
unfolding check_all check check_hits drop_expired wait_for
verdicts = refl

check_all-admits_all_example :
    map is_allowed (check_all (new_limiter 60 2) calls) ≡ admits_all 60 2 (λ key. []) calls
check_all-admits_all_example = check_all-admits_all 60 2 calls calls-Ascending

admitted_bound_example :
    length (select (counts 60 66) (admitted (new_limiter 60 2) (λ k. []) calls 1)) ≤ 2
admitted_bound_example = admitted_bound 60 2 calls 1 66 calls-Ascending calls-before
