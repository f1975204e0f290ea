-- ===== src/Match/Table.antt =====
-- The table `match_requests` as a list: which rows it has, how many of a profile are waiting, and
-- what a statement does that changes waiting rows only.
use mathlib.Core.Option
use mathlib.Core.Path.{subst}
use mathlib.Core.Bool.{false≢true}
use mathlib.Core.Option.{none-ne-some}
use terravoy_backend.Prelude.{
  ℕ, ◌+◌, ◌≤◌, ◌<◌, ◌≡◌, Option, Bool, true, false, ◌&&◌, ◌==◌, none, some, List, [], ◌∷◌,
  if◌then◌else◌, sym, ap, ◌∙◌, arith, Bool-cases, inl, inr, find, select, modify, find-modify,
  ==_refl, ltb,
}
use terravoy_backend.Store.Table.{by_key}
use terravoy_backend.Store.MatchRows.{MatchRequest}
use terravoy_backend.Match.Pair.{is_waiting, request_id, latest, later_of}

pub data Has (r : MatchRequest) : List MatchRequest → Type 0 where
  here : {rs : List MatchRequest} → Has r (r ∷ rs)
  there : {q : MatchRequest} {rs : List MatchRequest} → Has r rs → Has r (q ∷ rs)

-- The ids fall along the list, from below `n`.
abbrev pub Descending : ℕ → List MatchRequest → Type 0
Descending n [] = Unit
Descending n (r ∷ rs) = (r.id < n) × Descending r.id rs

-- How many requests of a profile are waiting.
unfoldable pub waiting_of : (profile_id : ℕ) → List MatchRequest → ℕ
waiting_of p [] = 0
waiting_of p (r ∷ rs) =
    (if r.profile_id == p && is_waiting r.status then 1 else 0) + waiting_of p rs

pub Has-below :
    (n : ℕ) (rs : List MatchRequest) (r : MatchRequest) → Descending n rs → Has r rs → r.id < n
Has-below n [] r d h = elim h [ ]
Has-below n (q ∷ rs) r (lt, d) here = lt
Has-below n (q ∷ rs) r (lt, d) (there h) = omega (arith, Has-below q.id rs r d h)

-- A row of the list is the one that is found under its id.
pub Has-found :
    (n : ℕ) (rs : List MatchRequest) (r : MatchRequest)
    → Descending n rs
    → Has r rs
    → by_key request_id r.id rs ≡ some r
Has-found n [] r d h = elim h [ ]
Has-found n (q ∷ rs) r (lt, d) here = ground (arith, ==_refl r.id)
Has-found n (q ∷ rs) r (lt, d) (there h) =
    ground (arith, Has-below q.id rs r d h, Has-found q.id rs r d h)

pub find-Has :
    (p : MatchRequest → Bool) (rs : List MatchRequest) (r : MatchRequest)
    → find p rs ≡ some r
    → Has r rs
find-Has p [] r e = absurd (none-ne-some r e)
find-Has p (q ∷ rs) r e = elim (Bool-cases (p q)) [
  | inl t ↦
      let same : q ≡ r =
        Option.some_inj.0 (sym (ap (λ b. if b then some q else find p rs) t) ∙ e) in
      subst (λ x. Has r (x ∷ rs)) (sym same) here
  | inr t ↦ there (find-Has p rs r (sym (ap (λ b. if b then some q else find p rs) t) ∙ e))
]

same_head : (q r : MatchRequest) (rs : List MatchRequest) → q ≡ r → Has r (q ∷ rs)
same_head q r rs e = subst (λ x. Has r (x ∷ rs)) (sym e) here

Has-first :
    (p : MatchRequest → Bool) (q r : MatchRequest) (rs : List MatchRequest)
    → p q ≡ true
    → (Has r rs → p r ≡ true)
    → Has r (q ∷ rs)
    → p r ≡ true
Has-first p q r rs t k here = t
Has-first p q r rs t k (there h) = k h

Has-kept :
    (q r : MatchRequest) (rs ss : List MatchRequest)
    → (Has r rs → Has r ss)
    → Has r (q ∷ rs)
    → Has r (q ∷ ss)
Has-kept q r rs ss k here = here
Has-kept q r rs ss k (there h) = there (k h)

pub select-Has :
    (p : MatchRequest → Bool) (rs : List MatchRequest) (r : MatchRequest)
    → Has r (select p rs)
    → Has r rs
select-Has p [] r h = elim h [ ]
select-Has p (q ∷ rs) r h = elim (Bool-cases (p q)) [
  | inl t ↦
      Has-kept q r (select p rs) rs (select-Has p rs r)
        (subst (λ b. Has r (if b then q ∷ select p rs else select p rs)) t h)
  | inr t ↦
      there
        (select-Has p rs r (subst (λ b. Has r (if b then q ∷ select p rs else select p rs)) t h))
]

pub select-holds :
    (p : MatchRequest → Bool) (rs : List MatchRequest) (r : MatchRequest)
    → Has r (select p rs)
    → p r ≡ true
select-holds p [] r h = elim h [ ]
select-holds p (q ∷ rs) r h = elim (Bool-cases (p q)) [
  | inl t ↦
      Has-first p q r (select p rs) t (select-holds p rs r)
        (subst (λ b. Has r (if b then q ∷ select p rs else select p rs)) t h)
  | inr t ↦
      select-holds p rs r (subst (λ b. Has r (if b then q ∷ select p rs else select p rs)) t h)
]

later_of-Has :
    (q r : MatchRequest) (rs : List MatchRequest) (o : Option MatchRequest)
    → ((x : MatchRequest) → o ≡ some x → Has x rs)
    → later_of q o ≡ some r
    → Has r (q ∷ rs)
later_of-Has q r rs none k e = same_head q r rs (Option.some_inj.0 e)
later_of-Has q r rs (some x) k e = elim (Bool-cases (ltb q.last_seen_at x.last_seen_at)) [
  | inl t ↦ there (k r (sym (ap (λ b. if b then some x else some q) t) ∙ e))
  | inr t ↦
      same_head q r rs (Option.some_inj.0 (sym (ap (λ b. if b then some x else some q) t) ∙ e))
]

pub latest-Has : (rs : List MatchRequest) (r : MatchRequest) → latest rs ≡ some r → Has r rs
unfolding latest
latest-Has [] r e = absurd (none-ne-some r e)
latest-Has (q ∷ rs) r e = later_of-Has q r rs (latest rs) (latest-Has rs) e

-- A statement that changes waiting rows only, and neither their id nor their profile.
pub record OnlyWaiting (rs : List MatchRequest) (t : MatchRequest → Bool)
    (f : MatchRequest → MatchRequest) : Type 0 where
  pub same_id : (r : MatchRequest) → (f r).id ≡ r.id
  pub same_profile : (r : MatchRequest) → (f r).profile_id ≡ r.profile_id
  pub waits : (r : MatchRequest) → Has r rs → t r ≡ true → is_waiting r.status ≡ true

rest :
    {q : MatchRequest} {rs : List MatchRequest} {t : MatchRequest → Bool}
    {f : MatchRequest → MatchRequest}
    → OnlyWaiting (q ∷ rs) t f
    → OnlyWaiting rs t f
rest w = record {
  same_id = w.same_id;
  same_profile = w.same_profile;
  waits = λ r h. w.waits r (there h);
}

module _ (t : MatchRequest → Bool) (f : MatchRequest → MatchRequest) where
  pub modify-Descending :
      (n : ℕ) (rs : List MatchRequest)
      → OnlyWaiting rs t f
      → Descending n rs
      → Descending n (modify t f rs)
  modify-Descending n [] w d = tt
  modify-Descending n (r ∷ rs) w (lt, d) =
      let same : (if t r then f r else r).id ≡ r.id = ground (arith, w.same_id r) in
      (
        subst (λ i. i < n) (sym same) lt,
        subst (λ i. Descending i (modify t f rs)) (sym same) (modify-Descending r.id rs (rest w) d),
      )

  pub modify-waiting_of :
      (p : ℕ) (rs : List MatchRequest)
      → OnlyWaiting rs t f
      → waiting_of p (modify t f rs) ≤ waiting_of p rs
  unfolding waiting_of
  modify-waiting_of p [] w = omega arith
  modify-waiting_of p (r ∷ rs) w =
      ground (arith, modify-waiting_of p rs (rest w), w.same_profile r, w.waits r here)

  -- A row that is not waiting is found as it was.
  pub modify-found :
      (rs : List MatchRequest) (id : ℕ) (r : MatchRequest)
      → OnlyWaiting rs t f
      → by_key request_id id rs ≡ some r
      → is_waiting r.status ≡ false
      → by_key request_id id (modify t f rs) ≡ some r
  modify-found rs id r w e n =
      find-modify t (λ (q : MatchRequest). q.id == id) f rs (λ q. ap (λ i. i == id) (w.same_id q))
      ∙ (ap (Option.map change) e ∙ ap some unchanged)
    where
      change : MatchRequest → MatchRequest
      change q = if t q then f q else q

      unchanged : change r ≡ r
      unchanged = elim (Bool-cases (t r)) [
        | inl on ↦ absurd (false≢true (sym n ∙ w.waits r (find-Has (λ q. q.id == id) rs r e) on))
        | inr off ↦ ap (λ b. if b then f r else r) off
      ]
