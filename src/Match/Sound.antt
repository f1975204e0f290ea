-- ===== src/Match/Sound.antt =====
-- The tables of the matches, as every statement leaves them.
use terravoy_backend.Prelude.{
  ℕ, ◌≤◌, ◌≡◌, ◌≢◌, Bool, false, ◌&&◌, ◌==◌, some, List, [], ◌∷◌, refl, ap, arith, modify, All, ltb,
  find-holds,
}
use terravoy_backend.Store.Table.{by_key}
use terravoy_backend.Store.Db.{Db}
use terravoy_backend.Store.MatchRows.{MatchRequest, MatchSession, matched, Preferences}
use terravoy_backend.Match.Pair.{is_waiting, is_fresh, request_id}
use terravoy_backend.Match.Statements.{
  cancel_row, expire_row, touch_row, new_request, touch_match_request, cancel_active_match_requests,
  cancel_match, expire_stale, insert_request,
}
use terravoy_backend.Match.Table.{
  Descending, waiting_of, Has-below, find-Has, OnlyWaiting, modify-Descending, modify-waiting_of,
  modify-found,
}

-- A session joins two requests of different profiles that are both matched.
pub record IsPair (rs : List MatchRequest) (s : MatchSession) : Type 0 where
  pub different : s.profile_a_id ≢ s.profile_b_id
  pub a : MatchRequest
  pub found_a : by_key request_id s.request_a_id rs ≡ some a
  pub matched_a : a.status ≡ matched
  pub profile_a : a.profile_id ≡ s.profile_a_id
  pub b : MatchRequest
  pub found_b : by_key request_id s.request_b_id rs ≡ some b
  pub matched_b : b.status ≡ matched
  pub profile_b : b.profile_id ≡ s.profile_b_id

-- What holds of the tables at any time after `start`: ids fall along the table, a profile has at
-- most one waiting request, every session is a pair, and a request that was no longer waiting at
-- the start is still the same row.
pub record IsPaired (start db : Db) : Type 0 where
  pub ids : Descending db.next_request db.match_requests
  pub one : (p : ℕ) → waiting_of p db.match_requests ≤ 1
  pub pairs : All (IsPair db.match_requests) db.match_sessions
  pub ended :
      (id : ℕ) (r : MatchRequest)
      → by_key request_id id start.match_requests ≡ some r
      → is_waiting r.status ≡ false
      → by_key request_id id db.match_requests ≡ some r

-- Pairs stay pairs where the rows that are not waiting stay.
abbrev pub Stay : List MatchRequest → List MatchRequest → Type 0
Stay rs ss =
    (id : ℕ) (r : MatchRequest)
    → by_key request_id id rs ≡ some r
    → is_waiting r.status ≡ false
    → by_key request_id id ss ≡ some r

pub matched_idle : (r : MatchRequest) → r.status ≡ matched → is_waiting r.status ≡ false
matched_idle r e = ap is_waiting e

IsPair-Stay :
    (rs ss : List MatchRequest) (s : MatchSession) → Stay rs ss → IsPair rs s → IsPair ss s
IsPair-Stay rs ss s k p = record {
  different = p.different;
  a = p.a;
  found_a = k s.request_a_id p.a p.found_a (matched_idle p.a p.matched_a);
  matched_a = p.matched_a;
  profile_a = p.profile_a;
  b = p.b;
  found_b = k s.request_b_id p.b p.found_b (matched_idle p.b p.matched_b);
  matched_b = p.matched_b;
  profile_b = p.profile_b;
}

pub All-IsPair :
    (rs ss : List MatchRequest) (sessions : List MatchSession)
    → Stay rs ss
    → All (IsPair rs) sessions
    → All (IsPair ss) sessions
All-IsPair rs ss [] k h = tt
All-IsPair rs ss (s ∷ sessions) k (p, h) = (IsPair-Stay rs ss s k p, All-IsPair rs ss sessions k h)

module _ {start db : Db} (h : IsPaired start db) where
  -- A statement on waiting rows.
  pub modified :
      (t : MatchRequest → Bool) (f : MatchRequest → MatchRequest)
      → OnlyWaiting db.match_requests t f
      → IsPaired start (record db { match_requests = modify t f db.match_requests })
  modified t f w =
      let stay : Stay db.match_requests (modify t f db.match_requests) =
        λ id r e n. modify-found t f db.match_requests id r w e n in
      record {
        ids = modify-Descending t f db.next_request db.match_requests w h.ids;
        one = λ p. omega (arith, modify-waiting_of t f p db.match_requests w, h.one p);
        pairs =
            All-IsPair db.match_requests (modify t f db.match_requests) db.match_sessions stay
              h.pairs;
        ended = λ id r e n. stay id r (h.ended id r e n) n;
      }

  pub cancelled-IsPaired : (me : ℕ) → IsPaired start (cancel_active_match_requests me db).0
  unfolding cancel_active_match_requests
  cancelled-IsPaired me =
      modified (λ r. r.profile_id == me && is_waiting r.status) (cancel_row db.now)
        record { same_id = λ r. refl; same_profile = λ r. refl; waits = λ r k e. ground arith }

  pub touched-IsPaired : (id me : ℕ) → IsPaired start (touch_match_request id me db).0
  unfolding touch_match_request
  touched-IsPaired id me =
      modified (λ r. r.id == id && (r.profile_id == me && is_fresh db.now r)) (touch_row db.now)
        record { same_id = λ r. refl; same_profile = λ r. refl; waits = λ r k e. ground arith }

  pub cancel_match-IsPaired : (id : ℕ) → IsPaired start (cancel_match id db).0
  unfolding cancel_match
  cancel_match-IsPaired id =
      modified (λ r. r.id == id && is_waiting r.status) (cancel_row db.now)
        record { same_id = λ r. refl; same_profile = λ r. refl; waits = λ r k e. ground arith }

  pub expired-IsPaired : IsPaired start (expire_stale db).0
  unfolding expire_stale
  expired-IsPaired =
      modified (λ r. is_waiting r.status && ltb r.expires_at db.now) (expire_row db.now)
        record { same_id = λ r. refl; same_profile = λ r. refl; waits = λ r k e. ground arith }

  -- A new request of a profile that has none waiting.
  pub inserted-IsPaired :
      (me trip : ℕ) (wants : Preferences)
      → waiting_of me db.match_requests ≡ 0
      → IsPaired start (insert_request me trip wants db)
  unfolding waiting_of
  inserted-IsPaired me trip wants none_waiting =
      let new = new_request db.now db.next_request me trip wants in
      let stay : Stay db.match_requests (new ∷ db.match_requests) = λ id r e n. ground (
        arith,
        Has-below db.next_request db.match_requests r h.ids
            (find-Has (λ (q : MatchRequest). q.id == id) db.match_requests r e),
        find-holds (λ (q : MatchRequest). q.id == id) db.match_requests r e,
      ) in
      record {
        ids = (omega arith, h.ids);
        one = λ p. ground (arith, h.one p);
        pairs =
            All-IsPair db.match_requests (new ∷ db.match_requests) db.match_sessions stay h.pairs;
        ended = λ id r e n. stay id r (h.ended id r e n) n;
      }

-- After the cancellation, no request of the profile is waiting.
pub none_waiting :
    (now me : ℕ) (rs : List MatchRequest)
    → waiting_of me (
        modify
          (λ (r : MatchRequest). r.profile_id == me && is_waiting r.status)
          (cancel_row now)
          rs)
      ≡ 0
unfolding waiting_of
none_waiting now me [] = refl
none_waiting now me (r ∷ rs) = ground (arith, none_waiting now me rs)
