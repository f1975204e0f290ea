-- ===== src/Match/Worker.antt =====
-- `runOnce` of workers/match_worker.js. The query of `fetchExternalUserIds` names the column
-- `user_id` of `profiles`, which the table does not have, so it raises, and what the worker would do
-- with its result is never reached: of each round only `try_match` and the exceptions remain.
use terravoy_backend.Prelude.{ℕ, leb, List, [], ◌∷◌, if◌then◌else◌, select, take}
use terravoy_backend.Store.Db.{Db, M, gets}
use terravoy_backend.Store.MatchRows.{MatchRequest}
use terravoy_backend.Match.Pair.{is_fresh}
use terravoy_backend.Match.Statements.{try_match}

abbrev pub insert_seen : MatchRequest → List MatchRequest → List MatchRequest
insert_seen r [] = r ∷ []
insert_seen r (q ∷ qs) =
    let rest = insert_seen r qs in
    if leb q.last_seen_at r.last_seen_at then r ∷ q ∷ qs else q ∷ rest

-- `order by last_seen_at desc, created_at desc`
abbrev pub by_last_seen : List MatchRequest → List MatchRequest
by_last_seen [] = []
by_last_seen (r ∷ rs) = insert_seen r (by_last_seen rs)

-- `fetchWaitingRequests`
unfoldable pub fetch_waiting_requests : (limit : ℕ) → M (List MatchRequest)
fetch_waiting_requests limit =
    gets λ db. take limit (by_last_seen (select (is_fresh db.now) db.match_requests))

-- The first loop; `catch` goes on with the next request.
unfoldable pub match_each : List MatchRequest → Db → Db
match_each [] db = db
match_each (r ∷ rs) db = match_each rs (try_match r.id db).0

-- The second loop, over the sessions without a thread, changes nothing.
unfoldable pub run_once : (limit : ℕ) → Db → Db
unfolding fetch_waiting_requests match_each
run_once limit db =
    match_each (take limit (by_last_seen (select (is_fresh db.now) db.match_requests))) db
