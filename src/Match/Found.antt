-- ===== src/Match/Found.antt =====
-- What `try_match` finds, and how it leaves the tables.
use mathlib.Core.Option
use mathlib.Core.Option.{none-ne-some}
use mathlib.Core.Bool.{false≢true}
use mathlib.Core.Path.{subst}
use terravoy_backend.Prelude.{
  ℕ, ◌≡◌, true, Option, none, some, List, refl, sym, ap, ◌∙◌, arith, ◌==◌, ◌&&◌, ==_iff, find,
  find-holds, select,
}
use terravoy_backend.Store.Table.{by_key}
use terravoy_backend.Store.Db.{Db}
use terravoy_backend.Store.MatchRows.{MatchRequest, TripCard, Person, Preferences}
use terravoy_backend.Match.Pair.{
  is_waiting, is_fresh, Traveller, joined, partner, fits, fits_joined, trip_id, travels,
}
use terravoy_backend.Match.Statements.{
  pair_found, search_for, search_from, fresh_request, joined_row, try_match, start_with,
  start_match, cancel_active_match_requests,
}
use terravoy_backend.Match.Table.{Has, find-Has, select-Has, select-holds, latest-Has}
use terravoy_backend.Match.Compatible.{IsCompatible, fits-IsCompatible}
use terravoy_backend.Match.Sound.{
  IsPaired, cancelled-IsPaired, expired-IsPaired, inserted-IsPaired, none_waiting,
}
use terravoy_backend.Match.Search.{IsCouple, pair_up-IsPaired}

travels_request :
    (r : MatchRequest) (t : Option TripCard) (p : Option Person) (x : Traveller)
    → travels r t p ≡ some x
    → x.request ≡ r
travels_request r (some t) (some p) x e =
    sym (ap (λ (y : Traveller). y.request) (Option.some_inj.0 e))
travels_request r none p x e = absurd (none-ne-some x e)
travels_request r (some t) none x e = absurd (none-ne-some x e)

pub joined_request :
    (trips : List TripCard) (people : List Person) (r : MatchRequest) (x : Traveller)
    → joined trips people r ≡ some x
    → x.request ≡ r
joined_request trips people r x e = travels_request r _ _ x e

fits-some :
    (now : ℕ) (a : Traveller) (o : Option Traveller)
    → fits_joined now a o ≡ true
    → (b : Traveller) × (o ≡ some b) × (fits now a b ≡ true)
unfolding fits_joined
fits-some now a none e = absurd (false≢true e)
fits-some now a (some b) e = (b, refl, e)

-- The partner is a row of the table that fits.
pub partner-fits :
    (db : Db) (a : Traveller) (r : MatchRequest)
    → partner db.now db.trip_cards db.people a db.match_requests ≡ some r
    → Has r db.match_requests
      × ((b : Traveller) × (joined db.trip_cards db.people r ≡ some b) × (fits db.now a b ≡ true))
unfolding partner
partner-fits db a r e =
    let test = λ (q : MatchRequest). fits_joined db.now a (joined db.trip_cards db.people q) in
    let k = latest-Has (select test db.match_requests) r e in
    (
      select-Has test db.match_requests r k,
      fits-some db.now a (joined db.trip_cards db.people r)
          (select-holds test db.match_requests r k),
    )

-- The request that is searched for is a fresh row of the table.
pub fresh_row :
    (id : ℕ) (db : Db) (a : Traveller) (o : Option MatchRequest)
    → find (λ (r : MatchRequest). r.id == id && is_fresh db.now r) db.match_requests ≡ o
    → joined_row db.trip_cards db.people o ≡ some a
    → Has a.request db.match_requests × (is_waiting a.request.status ≡ true) × (a.request.id ≡ id)
fresh_row id db a none e k = absurd (none-ne-some a k)
fresh_row id db a (some r) e k =
    let test = λ (r : MatchRequest). r.id == id && is_fresh db.now r in
    let same = joined_request db.trip_cards db.people r a k in
    let holds = find-holds test db.match_requests r e in
    (
      subst (λ x. Has x db.match_requests) (sym same) (find-Has test db.match_requests r e),
      ap (λ (x : MatchRequest). is_waiting x.status) same ∙ (ground arith),
      ap (λ (x : MatchRequest). x.id) same ∙ (==_iff r.id id).0 (ground arith),
    )

-- Where a partner is found, the two are a couple.
couple :
    (id : ℕ) (db : Db) (a b : Traveller) (r : MatchRequest)
    → fresh_request id db ≡ some a
    → Has r db.match_requests
    → joined db.trip_cards db.people r ≡ some b
    → IsCompatible db.now a b
    → IsCouple db.match_requests a.request r
couple id db a b r e k j c =
    let (has, waits, same) = fresh_row id db a _ refl e in
    let row = joined_request db.trip_cards db.people r b j in
    record {
      has_a = has;
      waits_a = waits;
      has_b = k;
      waits_b = ap (λ (x : MatchRequest). is_waiting x.status) (sym row) ∙ ap is_waiting c.waits;
      different = λ p. c.other_profile (ap (λ (x : MatchRequest). x.profile_id) row ∙ sym p);
    }

module _ {start db : Db} (h : IsPaired start db) where
  search_with :
      (id : ℕ) (a : Traveller) (o : Option MatchRequest)
      → fresh_request id db ≡ some a
      → partner db.now db.trip_cards db.people a db.match_requests ≡ o
      → IsPaired start (pair_found a.request o db).0
  unfolding pair_found
  search_with id a none e p = h
  search_with id a (some r) e p =
      let (k, (b, j, f)) = partner-fits db a r p in
      pair_up-IsPaired h a.request r (couple id db a b r e k j (fits-IsCompatible db.now a b f))

  search_both :
      (id : ℕ) (o : Option Traveller) → fresh_request id db ≡ o → IsPaired start (search_for o db).0
  unfolding search_for
  search_both id none e = h
  search_both id (some a) e = search_with id a _ e refl

  search-IsPaired : (id : ℕ) → IsPaired start (search_from id db).0
  search-IsPaired id = search_both id _ refl

pub try_match-IsPaired :
    {start db : Db} → IsPaired start db → (id : ℕ) → IsPaired start (try_match id db).0
unfolding try_match
try_match-IsPaired h id = search-IsPaired (expired-IsPaired h) id

pub start_match-IsPaired :
    {start db : Db}
    → IsPaired start db
    → (me trip : ℕ) (wants : Preferences) → IsPaired start (start_match me trip wants db).0
unfolding start_match start_with cancel_active_match_requests
start_match-IsPaired {start} {db} h me trip wants = go (by_key trip_id trip db.trip_cards)
  where
    go : (o : Option TripCard) → IsPaired start (start_with me o wants db).0
    go none = h
    go (some t) =
        try_match-IsPaired
          (inserted-IsPaired (cancelled-IsPaired h me) me t.id wants
            (none_waiting db.now me db.match_requests))
          db.next_request
