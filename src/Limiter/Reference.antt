-- ===== src/Limiter/Reference.antt =====
-- A limiter that keeps every admitted hit, and `check` of utils/rateLimiter.js beside it.
use mathlib.Core.Path.{subst}
use terravoy_backend.Prelude.{
  ℕ, ◌≤◌, ◌≡◌, refl, sym, ap, Bool, true, false, inl, inr, List, [], ◌∷◌, ◌++◌, ltb, map, length,
  select, Bool-cases, ◌==◌, ==_iff,
}
use terravoy_backend.Limiter.{
  allowed, denied, drop_expired, check_hits, check, wait_for, check_all, set_hits, new_limiter,
  is_allowed,
}
use terravoy_backend.Limiter.Window.{counts, Stands, Stands-later, Stands-hit}

-- Fewer than `max` hits of the window have been admitted.
abbrev pub admits : (window max now : ℕ) → List ℕ → Bool
admits window max now history = ltb (length (select (counts window now) history)) max

-- The history after a call: the call is remembered if it was admitted.
abbrev pub remember : Bool → (key now : ℕ) → (ℕ → List ℕ) → ℕ → List ℕ
remember true key now history = set_hits key (history key ++ (now ∷ [])) history
remember false key now history = history

-- The decisions on a list of calls, from the whole history.
unfoldable pub admits_all : (window max : ℕ) → (ℕ → List ℕ) → List (ℕ × ℕ) → List Bool
admits_all window max history [] = []
admits_all window max history ((key, now) ∷ calls) =
    let ok = admits window max now (history key) in
    ok ∷ admits_all window max (remember ok key now history) calls

-- The clock does not go back.
abbrev pub Ascending : (last : ℕ) → List (ℕ × ℕ) → Type 0
Ascending last [] = Unit
Ascending last ((key, now) ∷ calls) = (last ≤ now) × Ascending now calls

module _ (w max now : ℕ) (ts : List ℕ) where
  pub check_hits_allowed :
      ltb (length (drop_expired w now ts)) max ≡ true
      → check_hits w max now ts ≡ (allowed, drop_expired w now ts ++ (now ∷ []))
  unfolding check_hits
  check_hits_allowed h = rw h refl

  pub check_hits_denied :
      ltb (length (drop_expired w now ts)) max ≡ false
      → check_hits w max now ts ≡ (denied (wait_for w now (drop_expired w now ts)), ts)
  unfolding check_hits
  check_hits_denied h = rw h refl

-- After a hit of one key, every key's hits stand for its history.
pub Stands-set :
    (w last now key : ℕ) (hits history : ℕ → List ℕ)
    → last ≤ now
    → ((k : ℕ) → Stands w last (hits k) (history k))
    → (k : ℕ)
    → Stands w now
        (set_hits key (drop_expired w now (hits key) ++ (now ∷ [])) hits k)
        (set_hits key (history key ++ (now ∷ [])) history k)
Stands-set w last now key hits history le s k = elim (Bool-cases (key == k)) [
  | inl e ↦ rw e (Stands-hit w last now (hits key) (history key) le (s key))
  | inr e ↦ rw e (Stands-later w last now (hits k) (history k) le (s k))
]

-- A call that is denied changes no hits.
pub Stands-same :
    (w last now key : ℕ) (hits history : ℕ → List ℕ)
    → last ≤ now
    → ((k : ℕ) → Stands w last (hits k) (history k))
    → (k : ℕ) → Stands w now (set_hits key (hits key) hits k) (history k)
Stands-same w last now key hits history le s k = elim (Bool-cases (key == k)) [
  | inl e ↦ rw e (
      subst (λ x. Stands w now (hits key) (history x)) ((==_iff key k).0 e)
        (Stands-later w last now (hits key) (history key) le (s key)))
  | inr e ↦ rw e (Stands-later w last now (hits k) (history k) le (s k))
]

decisions :
    (w max last : ℕ) (hits history : ℕ → List ℕ) (calls : List (ℕ × ℕ))
    → Ascending last calls
    → ((k : ℕ) → Stands w last (hits k) (history k))
    → map is_allowed (check_all (record { window_ms = w; max = max; hits = hits }) calls)
      ≡ admits_all w max history calls
unfolding check_all check admits_all
decisions w max last hits history [] a s = refl
decisions w max last hits history ((key, now) ∷ calls) (le, a) s =
    elim (Bool-cases (ltb (length (drop_expired w now (hits key))) max)) [
      | inl e ↦
          rw (check_hits_allowed w max now (hits key) e, sym ((s key).same now le), e)
            (ap (λ x. true ∷ x)
              (decisions w max now (set_hits key (drop_expired w now (hits key) ++ (now ∷ [])) hits)
                (set_hits key (history key ++ (now ∷ [])) history) calls a
                (Stands-set w last now key hits history le s)))
      | inr e ↦
          rw (check_hits_denied w max now (hits key) e, sym ((s key).same now le), e)
            (ap (λ x. false ∷ x)
              (decisions w max now (set_hits key (hits key) hits) history calls a
                (Stands-same w last now key hits history le s)))
    ]

-- On calls whose times never go back, the limiter, which drops old hits of a key as it goes,
-- decides each call as one that remembers every admitted hit of each key: a call is allowed
-- exactly if fewer than `max` calls of its key were admitted in the window that ends now.
pub check_all-admits_all :
    (window max : ℕ) (calls : List (ℕ × ℕ))
    → Ascending 0 calls
    → map is_allowed (check_all (new_limiter window max) calls)
      ≡ admits_all window max (λ key. []) calls
unfolding drop_expired
check_all-admits_all window max calls a =
    decisions window max 0 (λ key. []) (λ key. []) calls a
      (λ k. record { old = tt; same = λ now h. refl })
