-- ===== src/Limiter/Window.antt =====
-- `check` of utils/rateLimiter.js against a limiter that forgets nothing.
use terravoy_backend.Prelude.{
  ℕ, ◌+◌, ◌≤◌, ◌≡◌, refl, ◌∙◌, Bool, List, [], ◌∷◌, ◌++◌, ltb, select, All, arith,
}
use terravoy_backend.Limiter.{drop_expired}

-- Whether a hit still counts at a time.
abbrev pub counts : (window now t : ℕ) → Bool
counts window now t = ltb now (t + window)

-- The hits that an older time already dropped are dropped by a newer one.
drop-drop :
    (w now now' : ℕ) (ts : List ℕ)
    → now ≤ now'
    → drop_expired w now' (drop_expired w now ts) ≡ drop_expired w now' ts
unfolding drop_expired
drop-drop w now now' [] le = refl
drop-drop w now now' (t ∷ ts) le = ground (arith, drop-drop w now now' ts le)

drop-All :
    (w now bound : ℕ) (ts : List ℕ)
    → All (λ t. t ≤ bound) ts
    → All (λ t. t ≤ bound) (drop_expired w now ts)
unfolding drop_expired
drop-All w now bound [] h = tt
drop-All w now bound (t ∷ ts) h = ground (arith, drop-All w now bound ts h.1)

All-append :
    (bound : ℕ) (ts : List ℕ) → All (λ t. t ≤ bound) ts → All (λ t. t ≤ bound) (ts ++ (bound ∷ []))
All-append bound [] h = (omega arith, tt)
All-append bound (t ∷ ts) h = (h.0, All-append bound ts h.1)

All-later : (a b : ℕ) (ts : List ℕ) → a ≤ b → All (λ t. t ≤ a) ts → All (λ t. t ≤ b) ts
All-later a b [] le h = tt
All-later a b (t ∷ ts) le h = (omega (arith, h.0), All-later a b ts le h.1)

pub select-append :
    (p : ℕ → Bool) (xs : List ℕ) (n : ℕ)
    → select p (xs ++ (n ∷ [])) ≡ select p xs ++ select p (n ∷ [])
select-append p [] n = refl
select-append p (x ∷ xs) n = ground (arith, select-append p xs n)

-- A hit that is no older than the others is dropped last.
drop-append :
    (w now n : ℕ) (ts : List ℕ)
    → All (λ t. t ≤ n) ts
    → drop_expired w now (ts ++ (n ∷ [])) ≡ drop_expired w now ts ++ select (counts w now) (n ∷ [])
unfolding drop_expired
drop-append w now n [] h = ground arith
drop-append w now n (t ∷ ts) h = ground (arith, h.0, drop-append w now n ts h.1)

-- The stored hits stand for the whole history, from the time `last` on.
pub record Stands (w last : ℕ) (ts history : List ℕ) : Type 0 where
  pub old : All (λ t. t ≤ last) ts
  pub same : (now : ℕ) → last ≤ now → drop_expired w now ts ≡ select (counts w now) history

pub Stands-later :
    (w last now : ℕ) (ts history : List ℕ)
    → last ≤ now
    → Stands w last ts history
    → Stands w now ts history
Stands-later w last now ts history le s = record {
  old = All-later last now ts le s.old;
  same = λ t h. s.same t (omega arith);
}

pub Stands-hit :
    (w last now : ℕ) (ts history : List ℕ)
    → last ≤ now
    → Stands w last ts history
    → Stands w now (drop_expired w now ts ++ (now ∷ [])) (history ++ (now ∷ []))
Stands-hit w last now ts history le s =
    let old = drop-All w now now ts (All-later last now ts le s.old) in
    record {
      old = All-append now (drop_expired w now ts) old;
      same = λ t h.
          drop-append w t now (drop_expired w now ts) old
          ∙ rw
              (
                drop-drop w now t ts h,
                s.same t (omega arith),
                select-append (counts w t) history now,
              )
              refl;
    }
