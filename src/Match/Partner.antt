-- ===== src/Match/Partner.antt =====
-- Whom `try_match` pairs a request with.
use mathlib.Core.Option
use mathlib.Core.Option.{none-ne-some}
use mathlib.Core.Path.{subst}
use terravoy_backend.Prelude.{
  ℕ, ◌≤◌, ◌≡◌, Bool, true, Option, none, some, List, [], ◌∷◌, refl, sym, ap, ◌∙◌, arith, Bool-cases,
  inl, inr, select, ltb, if◌then◌else◌,
}
use terravoy_backend.Store.Db.{Db, Outcome, value}
use terravoy_backend.Store.MatchRows.{MatchRequest, MatchSession}
use terravoy_backend.Match.Pair.{Traveller, joined, partner, fits_joined, latest, later_of}
use terravoy_backend.Match.Statements.{
  new_session, expire_stale, pair_up, pair_found, search_for, fresh_request, try_match,
}
use terravoy_backend.Match.Table.{Has, here, there}
use terravoy_backend.Match.Compatible.{IsCompatible, fits-IsCompatible, IsCompatible-fits}
use terravoy_backend.Match.Found.{partner-fits, joined_request}

select-kept :
    (p : MatchRequest → Bool) (rs : List MatchRequest) (r : MatchRequest)
    → Has r rs
    → p r ≡ true
    → Has r (select p rs)
select-kept p [] r h t = elim h [ ]
select-kept p (_ ∷ rs) q here t =
    subst (λ b. Has q (if b then q ∷ select p rs else select p rs)) (sym t) here
select-kept p (q ∷ rs) r (there h) t = elim (Bool-cases (p q)) [
  | inl e ↦
      subst (λ b. Has r (if b then q ∷ select p rs else select p rs)) (sym e)
        (there (select-kept p rs r h t))
  | inr e ↦
      subst (λ b. Has r (if b then q ∷ select p rs else select p rs)) (sym e)
        (select-kept p rs r h t)
]

-- The later of a row and of one found so far is there, and neither is seen after it.
later_of-max :
    (q : MatchRequest) (o : Option MatchRequest)
    → (x : MatchRequest) × (later_of q o ≡ some x)
      × (q.last_seen_at ≤ x.last_seen_at)
      × ((y : MatchRequest) → o ≡ some y → y.last_seen_at ≤ x.last_seen_at)
later_of-max q none = (q, refl, omega arith, λ y e. absurd (none-ne-some y e))
later_of-max q (some y) = elim (Bool-cases (ltb q.last_seen_at y.last_seen_at)) [
  | inl t ↦ (y, ground arith, ground arith, λ z e. ground arith)
  | inr t ↦ (q, ground arith, ground arith, λ z e. ground arith)
]

-- A list with a row has a latest one, and no row is seen after it.
latest-max :
    (rs : List MatchRequest) (r : MatchRequest)
    → Has r rs
    → (x : MatchRequest) × (latest rs ≡ some x) × (r.last_seen_at ≤ x.last_seen_at)
unfolding latest
latest-max [] r h = elim h [ ]
latest-max (_ ∷ rs) q here = let (x, e, le, k) = later_of-max q (latest rs) in (x, e, le)
latest-max (q ∷ rs) r (there h) =
    let (y, e, le) = latest-max rs r h in
    let (x, e', le', k) = later_of-max q (latest rs) in let last = k y e in (x, e', omega arith)

partner_found :
    (db : Db) (a b : Traveller) (r : MatchRequest)
    → Has r db.match_requests
    → joined db.trip_cards db.people r ≡ some b
    → IsCompatible db.now a b
    → (x : MatchRequest) × (partner db.now db.trip_cards db.people a db.match_requests ≡ some x)
      × (r.last_seen_at ≤ x.last_seen_at)
unfolding partner fits_joined
partner_found db a b r k j c =
    let test = λ (q : MatchRequest). fits_joined db.now a (joined db.trip_cards db.people q) in
    let ok = ap (fits_joined db.now a) j ∙ IsCompatible-fits db.now a b c in
    latest-max (select test db.match_requests) r (select-kept test db.match_requests r k ok)

session_of : Outcome (Option MatchSession) → Option MatchSession
session_of (value o) = o
session_of _ = none

-- What a search that found a session has found: the request with its trip and its profile, a row of
-- the table with its own that is compatible, and of all such rows one that was seen last.
pub record IsPairing (id : ℕ) (db : Db) (s : MatchSession) : Type 0 where
  pub a : Traveller
  pub found_a : fresh_request id db ≡ some a
  pub b : Traveller
  pub row_b : Has b.request db.match_requests
  pub joined_b : joined db.trip_cards db.people b.request ≡ some b
  pub compatible : IsCompatible db.now a b
  pub made : s ≡ new_session db.next_session a.request b.request
  pub seen_last :
      (r : MatchRequest) (t : Traveller)
      → Has r db.match_requests
      → joined db.trip_cards db.people r ≡ some t
      → IsCompatible db.now a t
      → r.last_seen_at ≤ b.request.last_seen_at

module _ (id : ℕ) (db : Db) (s : MatchSession) where
  paired_with :
      (a : Traveller) (o : Option MatchRequest)
      → fresh_request id db ≡ some a
      → partner db.now db.trip_cards db.people a db.match_requests ≡ o
      → (pair_found a.request o db).1 ≡ value (some s)
      → IsPairing id db s
  unfolding pair_found pair_up session_of
  paired_with a none found p e = absurd (none-ne-some s (ap session_of e))
  paired_with a (some r) found p e =
      let (row, (b, j, f)) = partner-fits db a r p in
      let same = joined_request db.trip_cards db.people r b j in
      record {
        a = a;
        found_a = found;
        b = b;
        row_b = subst (λ x. Has x db.match_requests) (sym same) row;
        joined_b = ap (joined db.trip_cards db.people) same ∙ j;
        compatible = fits-IsCompatible db.now a b f;
        made =
            sym (Option.some_inj.0 (ap session_of e))
            ∙ ap (new_session db.next_session a.request) (sym same);
        seen_last = λ q t k jq c.
            let (x, px, le) = partner_found db a t q k jq c in
            let first : x ≡ b.request = Option.some_inj.0 (sym px ∙ p) ∙ sym same in
            subst (λ (y : MatchRequest). q.last_seen_at ≤ y.last_seen_at) first le;
      }

  searched :
      (o : Option Traveller)
      → fresh_request id db ≡ o
      → (search_for o db).1 ≡ value (some s)
      → IsPairing id db s
  unfolding search_for session_of
  searched none found e = absurd (none-ne-some s (ap session_of e))
  searched (some a) found e = paired_with a _ found refl e

found_with :
    (a : MatchRequest) (o : Option MatchRequest) (x : MatchRequest) (db : Db)
    → o ≡ some x
    → (pair_found a o db).1 ≡ value (some (new_session db.next_session a x))
unfolding pair_found pair_up
found_with a none x db e = absurd (none-ne-some x e)
found_with a (some r) x db e =
    ap (λ y. value (some (new_session db.next_session a y))) (Option.some_inj.0 e)

search_finds :
    (o : Option Traveller) (a : Traveller) (x : MatchRequest) (db : Db)
    → o ≡ some a
    → partner db.now db.trip_cards db.people a db.match_requests ≡ some x
    → (search_for o db).1 ≡ value (some (new_session db.next_session a.request x))
unfolding search_for
search_finds none a x db e p = absurd (none-ne-some a e)
search_finds (some c) a x db e p =
    let same : c ≡ a = Option.some_inj.0 e in
    subst
      (λ (y : Traveller).
        (search_for (some y) db).1 ≡ value (some (new_session db.next_session a.request x)))
      (sym same) (found_with a.request _ x db p)

-- When `try_match` returns a session, it joins the request it was called for, fresh and waiting once
-- the stale ones have expired, with a compatible request: one that waits, is fresh, of another
-- profile, to the same city on a common day, each of the two being welcome to the other by gender
-- and age. None that is compatible was seen later than the one it took.
pub try_match_pairs :
    (id : ℕ) (db : Db) (s : MatchSession)
    → (try_match id db).1 ≡ value (some s)
    → IsPairing id (expire_stale db).0 s
unfolding try_match
try_match_pairs id db s e = searched id (expire_stale db).0 s _ refl e

-- `try_match` finds a session for a request that is fresh and waiting once the stale ones have
-- expired, and whose trip and profile are there, if the table then has a compatible request.
pub try_match_finds :
    (id : ℕ) (db : Db) (a b : Traveller) (r : MatchRequest)
    → fresh_request id (expire_stale db).0 ≡ some a
    → Has r (expire_stale db).0.match_requests
    → joined (expire_stale db).0.trip_cards (expire_stale db).0.people r ≡ some b
    → IsCompatible (expire_stale db).0.now a b
    → (s : MatchSession) × ((try_match id db).1 ≡ value (some s))
unfolding try_match
try_match_finds id db a b r found k j c =
    let db' = (expire_stale db).0 in
    let (x, p, le) = partner_found db' a b r k j c in
    (new_session db'.next_session a.request x, search_finds (fresh_request id db') a x db' found p)
