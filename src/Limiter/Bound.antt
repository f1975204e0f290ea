-- ===== src/Limiter/Bound.antt =====
-- How many calls `check` of utils/rateLimiter.js admits in one window.
use terravoy_backend.Prelude.{
  ℕ, ◌+◌, ◌≤◌, ◌≡◌, refl, sym, true, inl, inr, List, [], ◌∷◌, ◌++◌, ltb, length, select, All, arith,
  Bool-cases, ◌==◌, ltb→lt, suc,
}
use terravoy_backend.Limiter.{Limiter, drop_expired, check, set_hits, new_limiter, is_allowed}
use terravoy_backend.Limiter.Window.{counts, Stands}
use terravoy_backend.Limiter.Reference.{
  remember, Ascending, check_hits_allowed, check_hits_denied, Stands-set, Stands-same,
}

-- The times of the admitted calls of each key, by the verdicts of the limiter.
unfoldable pub admitted : Limiter → (ℕ → List ℕ) → List (ℕ × ℕ) → ℕ → List ℕ
admitted l history [] = history
admitted l history ((key, now) ∷ calls) =
    let (v, l') = check l key now in admitted l' (remember (is_allowed v) key now history) calls

length-append : (xs : List ℕ) (n : ℕ) → length (xs ++ (n ∷ [])) ≡ suc (length xs)
length-append [] n = refl
length-append (x ∷ xs) n = omega (arith, length-append xs n)

-- Later, fewer old hits count.
counts_later :
    (w a b : ℕ) (ts : List ℕ)
    → a ≤ b
    → length (select (counts w b) ts) ≤ length (select (counts w a) ts)
counts_later w a b [] le = omega arith
counts_later w a b (t ∷ ts) le = ground (arith, counts_later w a b ts le)

Bounded : (w max last : ℕ) → List ℕ → Type 0
Bounded w max last history = (now : ℕ) → last ≤ now → length (select (counts w now) history) ≤ max

counts_append :
    (w t n : ℕ) (ts : List ℕ)
    → length (select (counts w t) (ts ++ (n ∷ []))) ≤ length (select (counts w t) ts) + 1
counts_append w t n [] = ground arith
counts_append w t n (x ∷ xs) = ground (arith, counts_append w t n xs)

Bounded-hit :
    (w max now : ℕ) (history : List ℕ)
    → ltb (length (select (counts w now) history)) max ≡ true
    → Bounded w max now (history ++ (now ∷ []))
unfolding Bounded
Bounded-hit w max now history h t le = omega (
  arith,
  counts_append w t now history,
  counts_later w now t history le,
  ltb→lt (length (select (counts w now) history)) max h,
)

Bounded-set :
    (w max last now key : ℕ) (history : ℕ → List ℕ)
    → last ≤ now
    → ltb (length (select (counts w now) (history key))) max ≡ true
    → ((k : ℕ) → Bounded w max last (history k))
    → (k : ℕ) → Bounded w max now (set_hits key (history key ++ (now ∷ [])) history k)
unfolding Bounded
Bounded-set w max last now key history le h b k = elim (Bool-cases (key == k)) [
  | inl e ↦ rw e (Bounded-hit w max now (history key) h)
  | inr e ↦ rw e (λ t l. b k t (omega arith))
]

admitted-Bounded :
    (w max last : ℕ) (hits history : ℕ → List ℕ) (calls : List (ℕ × ℕ)) (k now : ℕ)
    → Ascending last calls
    → All (λ c. c.1 ≤ now) calls
    → last ≤ now
    → ((k : ℕ) → Stands w last (hits k) (history k))
    → ((k : ℕ) → Bounded w max last (history k))
    → length (
        select
          (counts w now)
          (admitted (record { window_ms = w; max = max; hits = hits }) history calls k))
      ≤ max
unfolding admitted check Bounded
admitted-Bounded w max last hits history [] k now a r le s b = b k now le
admitted-Bounded w max last hits history ((key, t) ∷ calls) k now (lt, a) (r₀, r) le s b =
    elim (Bool-cases (ltb (length (drop_expired w t (hits key))) max)) [
      | inl e ↦ rw (check_hits_allowed w max t (hits key) e) (
          admitted-Bounded w max t (set_hits key (drop_expired w t (hits key) ++ (t ∷ [])) hits)
            (set_hits key (history key ++ (t ∷ [])) history) calls k now a r r₀
            (Stands-set w last t key hits history lt s)
            (Bounded-set w max last t key history lt (rw (sym ((s key).same t lt)) e) b))
      | inr e ↦ rw (check_hits_denied w max t (hits key) e) (
          admitted-Bounded w max t (set_hits key (hits key) hits) history calls k now a r r₀
            (Stands-same w last t key hits history lt s) (λ j u l. b j u (omega arith)))
    ]

-- On calls whose times never go back, no window holds more admitted calls of a key than the
-- limiter's maximum: at any time from the last call on, at most `max` of the calls of that key that
-- were allowed are less than `window` milliseconds old.
pub admitted_bound :
    (window max : ℕ) (calls : List (ℕ × ℕ)) (key now : ℕ)
    → Ascending 0 calls
    → All (λ c. c.1 ≤ now) calls
    → length (select (counts window now) (admitted (new_limiter window max) (λ k. []) calls key))
      ≤ max
unfolding drop_expired Bounded
admitted_bound window max calls key now a r =
    admitted-Bounded window max 0 (λ k. []) (λ k. []) calls key now a r (omega arith)
      (λ k. record { old = tt; same = λ t h. refl }) (λ k t h. omega arith)
