-- ===== src/Match/Search.antt =====
-- What `try_match` and `start_match` find, and how they leave the tables.
use mathlib.Core.Option
use mathlib.Core.Option.{none-ne-some}
use terravoy_backend.Prelude.{
  ◌≡◌, ◌≢◌, Bool, true, ◌||◌, ◌==◌, some, List, if◌then◌else◌, refl, sym, ap, ◌∙◌, arith,
  Bool-cases, inl, inr, modify, ==_iff, ==_refl, find-modify,
}
use terravoy_backend.Store.Table.{by_key}
use terravoy_backend.Store.Db.{Db}
use terravoy_backend.Store.MatchRows.{MatchRequest}
use terravoy_backend.Match.Pair.{is_waiting, request_id}
use terravoy_backend.Match.Statements.{match_row, pair_up}
use terravoy_backend.Match.Table.{Has, Has-found, OnlyWaiting}
use terravoy_backend.Match.Sound.{IsPaired, modified}

-- Two different waiting rows of the table, of different profiles.
pub record IsCouple (rs : List MatchRequest) (a b : MatchRequest) : Type 0 where
  pub has_a : Has a rs
  pub waits_a : is_waiting a.status ≡ true
  pub has_b : Has b rs
  pub waits_b : is_waiting b.status ≡ true
  pub different : a.profile_id ≢ b.profile_id

module _ {start db : Db} (h : IsPaired start db) (a b : MatchRequest)
    (c : IsCouple db.match_requests a b) where
  found :
      (x : MatchRequest)
      → Has x db.match_requests
      → by_key request_id x.id db.match_requests ≡ some x
  found x k = Has-found db.next_request db.match_requests x h.ids k

  same_row :
      (x r : MatchRequest) → Has x db.match_requests → Has r db.match_requests → r.id ≡ x.id → r ≡ x
  same_row x r kx kr e =
      Option.some_inj.0
        (sym (found r kr) ∙ (ap (λ i. by_key request_id i db.match_requests) e ∙ found x kx))

  in_couple : (r : MatchRequest) → Bool
  in_couple r = r.id == a.id || r.id == b.id

  matches_waiting : OnlyWaiting db.match_requests in_couple (match_row db.now)
  unfolding in_couple
  matches_waiting = record {
    same_id = λ r. refl;
    same_profile = λ r. refl;
    waits = λ r k e. elim (Bool-cases (r.id == a.id)) [
      | inl t ↦
          ap (λ (x : MatchRequest). is_waiting x.status)
            (same_row a r c.has_a k ((==_iff r.id a.id).0 t))
          ∙ c.waits_a
      | inr t ↦
          ap (λ (x : MatchRequest). is_waiting x.status)
            (same_row b r c.has_b k ((==_iff r.id b.id).0 (ground arith)))
          ∙ c.waits_b
    ];
  }

  now_matched :
      (x : MatchRequest)
      → Has x db.match_requests
      → in_couple x ≡ true
      → by_key request_id x.id (modify in_couple (match_row db.now) db.match_requests)
        ≡ some (match_row db.now x)
  now_matched x k e =
      find-modify in_couple (λ (q : MatchRequest). q.id == x.id) (match_row db.now)
        db.match_requests (λ q. refl)
      ∙ (ap (Option.map (λ q. if in_couple q then match_row db.now q else q)) (found x k)
          ∙ ap (λ t. some (if t then match_row db.now x else x)) e)

  pub pair_up-IsPaired : IsPaired start (pair_up a b db).0
  unfolding pair_up in_couple
  pair_up-IsPaired =
      let step = modified h in_couple (match_row db.now) matches_waiting in
      record {
        ids = step.ids;
        one = step.one;
        pairs = (
          record {
            different = c.different;
            a = match_row db.now a;
            found_a = now_matched a c.has_a (ground (arith, ==_refl a.id));
            matched_a = refl;
            profile_a = refl;
            b = match_row db.now b;
            found_b = now_matched b c.has_b (ground (arith, ==_refl b.id));
            matched_b = refl;
            profile_b = refl;
          },
          step.pairs,
        );
        ended = step.ended;
      }
