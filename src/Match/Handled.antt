-- ===== src/Match/Handled.antt =====
-- Every event keeps the tables of the matches sound.
use mathlib.Core.Path.{subst}
use terravoy_backend.Prelude.{
  ℕ, Bool, ◌==◌, Option, none, some, List, [], ◌∷◌, sym, All, modify, or_else, if◌then◌else◌,
  Bool-cases, inl, inr,
}
use terravoy_backend.Store.Rows.{UserId, Role, uuid, missing, blank, malformed}
use terravoy_backend.Store.CertRows.{TextId}
use terravoy_backend.Store.Table.{update}
use terravoy_backend.Store.Db.{Db, throw, pure, ok, match_state, modify_db, http_error, forbidden}
use terravoy_backend.Store.MatchRows.{
  state_matched, MatchRequest, MatchSession, Preferences, RawPreferences, RequestStatus, waiting,
  matched, cancelled, expired,
}
use terravoy_backend.Auth.Authorize.{Actor, Action, Resource, authorize, denies}
use terravoy_backend.Auth.Profile.{ensure_profile}
use terravoy_backend.Match.Statements.{
  touch_match_request, cancel_match, cancel_active_match_requests,
}
use terravoy_backend.Match.Session.{
  Im, session_id, set_thread, attach, thread_or, ensure_thread, fetch_prefs_for_match,
  upsert_prefs_for_match, is_session_for,
}
use terravoy_backend.Match.Start.{
  StartBody, set_completed, effective_prefs, start_statement, waiting_reply, matched_reply,
  answer_start, handle_match_start,
}
use terravoy_backend.Match.Poll.{
  as_request_id, own_request, touch_waiting, answer_poll, answer_heartbeat, handle_match_poll,
  handle_match_heartbeat,
}
use terravoy_backend.Match.Cancel.{
  attached, cancel_target, handle_match_cancel, handle_match_attach, handle_match_get_partner,
}
use terravoy_backend.Match.Keeps.{Keeps, Keeps-pure, keeps_rules}
use terravoy_backend.Match.Sound.{
  IsPair, IsPaired, touched-IsPaired, cancel_match-IsPaired, cancelled-IsPaired,
}
use terravoy_backend.Match.Found.{start_match-IsPaired}

-- A session whose thread changes is still the same pair.
IsPair-thread :
    (rs : List MatchRequest) (s : MatchSession) (t : Option ℕ)
    → IsPair rs s
    → IsPair rs (record s { thread_id = t })
IsPair-thread rs s t p = record {
  different = p.different;
  a = p.a;
  found_a = p.found_a;
  matched_a = p.matched_a;
  profile_a = p.profile_a;
  b = p.b;
  found_b = p.found_b;
  matched_b = p.matched_b;
  profile_b = p.profile_b;
}

threaded :
    (rs : List MatchRequest) (test : MatchSession → Bool) (f : MatchSession → Option ℕ)
    (sessions : List MatchSession)
    → All (IsPair rs) sessions
    → All (IsPair rs) (modify test (λ s. record s { thread_id = f s }) sessions)
threaded rs test f [] h = tt
threaded rs test f (s ∷ sessions) (p, h) = (
  elim (Bool-cases (test s)) [
    | inl t ↦
        subst (λ b. IsPair rs (if b then record s { thread_id = f s } else s)) (sym t)
          (IsPair-thread rs s (f s) p)
    | inr t ↦ subst (λ b. IsPair rs (if b then record s { thread_id = f s } else s)) (sym t) p
  ],
  threaded rs test f sessions h,
)

module _ (start : Db) where
  abbrev Sound : Db → Type 0
  Sound = IsPaired start

  Keeps-set_thread : (id thread : ℕ) → Keeps Sound (set_thread id thread)
  Keeps-set_thread id thread = record {
    at = λ db h. record {
      ids = h.ids;
      one = h.one;
      ended = h.ended;
      pairs =
          threaded db.match_requests (λ (s : MatchSession). s.id == id) (λ s. some thread)
            db.match_sessions h.pairs;
    };
  }

  keeps_attached :
      (id : ℕ) (force : Bool) (thread : ℕ) (db : Db)
      → Sound db
      → Sound (record db {
        match_sessions = update session_id id (attached force thread) db.match_sessions;
      })
  keeps_attached id force thread db h = record {
    ids = h.ids;
    one = h.one;
    ended = h.ended;
    pairs =
        threaded db.match_requests (λ (s : MatchSession). s.id == id)
          (λ s. (attached force thread s).thread_id) db.match_sessions h.pairs;
  }

  Keeps-ensure_profile : (u : UserId) → Keeps Sound (ensure_profile u)
  unfolding ensure_profile
  Keeps-ensure_profile missing = record { at = λ db h. h }
  Keeps-ensure_profile blank = record { at = λ db h. h }
  Keeps-ensure_profile (malformed n) = record { at = λ db h. h }
  Keeps-ensure_profile (uuid n) = record {
    at = λ db h. record { ids = h.ids; one = h.one; ended = h.ended; pairs = h.pairs };
  }

  Keeps-authorize :
      (role : Role) (me : ℕ) (act : Action) (r : Resource) → Keeps Sound (authorize role me act r)
  unfolding authorize
  Keeps-authorize role me act r = record {
    at = λ db h. elim (Bool-cases (denies role me act r)) [
      | inl t ↦
          subst (λ b. Sound ((if b then throw (http_error forbidden 403) else pure tt) db).0)
            (sym t) h
      | inr t ↦
          subst (λ b. Sound ((if b then throw (http_error forbidden 403) else pure tt) db).0)
            (sym t) h
    ];
  }

  Keeps-set_completed : (me : ℕ) (b : Bool) → Keeps Sound (set_completed me b)
  Keeps-set_completed me b = record {
    at = λ db h. record { ids = h.ids; one = h.one; ended = h.ended; pairs = h.pairs };
  }

  Keeps-fetch_prefs : (u : UserId) → Keeps Sound (fetch_prefs_for_match u)
  unfolding fetch_prefs_for_match
  Keeps-fetch_prefs u = record { at = λ db h. h }

  Keeps-upsert_prefs : (u : UserId) (p : RawPreferences) → Keeps Sound (upsert_prefs_for_match u p)
  unfolding upsert_prefs_for_match
  Keeps-upsert_prefs u p = record {
    at = λ db h. record { ids = h.ids; one = h.one; ended = h.ended; pairs = h.pairs };
  }

  Keeps-touch : (id me : ℕ) → Keeps Sound (touch_match_request id me)
  Keeps-touch id me = record { at = λ db h. touched-IsPaired h id me }

  Keeps-cancel_match : (id : ℕ) → Keeps Sound (cancel_match id)
  Keeps-cancel_match id = record { at = λ db h. cancel_match-IsPaired h id }

  Keeps-cancel_active : (me : ℕ) → Keeps Sound (cancel_active_match_requests me)
  Keeps-cancel_active me = record { at = λ db h. cancelled-IsPaired h me }

  Keeps-start_statement :
      (me : ℕ) (id : TextId) (wants : Preferences) → Keeps Sound (start_statement me id wants)
  unfolding start_statement
  Keeps-start_statement me (uuid n) wants = record {
    at = λ db h. start_match-IsPaired h me n wants;
  }
  Keeps-start_statement me missing wants = record { at = λ db h. h }
  Keeps-start_statement me blank wants = record { at = λ db h. h }
  Keeps-start_statement me (malformed n) wants = record { at = λ db h. h }

  Keeps-as_request_id : (id : TextId) → Keeps Sound (as_request_id id)
  Keeps-as_request_id (uuid n) = record { at = λ db h. h }
  Keeps-as_request_id missing = record { at = λ db h. h }
  Keeps-as_request_id blank = record { at = λ db h. h }
  Keeps-as_request_id (malformed n) = record { at = λ db h. h }

  ruleset match_rules = (
    keeps_rules, Keeps-set_thread, Keeps-ensure_profile, Keeps-authorize, Keeps-set_completed,
    Keeps-fetch_prefs, Keeps-upsert_prefs, Keeps-touch, Keeps-cancel_match, Keeps-cancel_active,
    Keeps-start_statement, Keeps-as_request_id,
  )

  Keeps-attach : (s : MatchSession) (o : Option ℕ) → Keeps Sound (attach s o)
  Keeps-attach s none = Keeps-pure s
  Keeps-attach s (some t) = search match_rules depth 20

  Keeps-ensure_thread : (im : Im) (s : MatchSession) → Keeps Sound (ensure_thread im s)
  unfolding ensure_thread
  Keeps-ensure_thread im s = go s.thread_id
    where
      go : (o : Option ℕ) → Keeps Sound (thread_or im s o)
      go (some t) = Keeps-pure s
      go none = search (match_rules, Keeps-attach) depth 20

  ruleset session_rules = (match_rules, Keeps-ensure_thread)

  Keeps-waiting_reply : (me : ℕ) (latest : Option ℕ) → Keeps Sound (waiting_reply me latest)
  Keeps-waiting_reply me latest = search match_rules depth 20

  Keeps-matched_reply :
      (me : ℕ) (latest : Option ℕ) (s : MatchSession) (peer thread : Option ℕ)
      → Keeps Sound (matched_reply me latest s peer thread)
  Keeps-matched_reply me latest s (some p) (some t) =
      elim (Bool-cases (is_session_for s (or_else latest s.request_a_id))) [
        | inl e ↦
            subst
              (λ b. Keeps Sound (
                if b
                then pure (
                    ok
                      (match_state state_matched (some (or_else latest s.request_a_id)) (some s.id)
                        (some p) (some t))
                      200)
                else waiting_reply me latest))
              (sym e) (Keeps-pure _)
        | inr e ↦
            subst
              (λ b. Keeps Sound (
                if b
                then pure (
                    ok
                      (match_state state_matched (some (or_else latest s.request_a_id)) (some s.id)
                        (some p) (some t))
                      200)
                else waiting_reply me latest))
              (sym e) (Keeps-waiting_reply me latest)
      ]
  Keeps-matched_reply me latest s (some p) none = Keeps-waiting_reply me latest
  Keeps-matched_reply me latest s none t = Keeps-waiting_reply me latest

  Keeps-answer_start :
      (im : Im) (me : ℕ) (latest : Option ℕ) (o : Option MatchSession)
      → Keeps Sound (answer_start im me latest o)
  unfolding answer_start
  Keeps-answer_start im me latest none = Keeps-waiting_reply me latest
  Keeps-answer_start im me latest (some s) = search (session_rules, Keeps-matched_reply) depth 20

  Keeps-effective_prefs :
      (u : UserId) (o : Option RawPreferences) → Keeps Sound (effective_prefs u o)
  Keeps-effective_prefs u none = Keeps-fetch_prefs u
  Keeps-effective_prefs u (some p) = search match_rules depth 20

  pub Keeps-match_start :
      (im : Im) (a : Actor) (body : StartBody) → Keeps Sound (handle_match_start im a body)
  unfolding handle_match_start
  Keeps-match_start im a body =
      search (session_rules, Keeps-answer_start, Keeps-effective_prefs) depth 40

  Keeps-own_request : (a : Actor) (act : Action) (id me : ℕ) → Keeps Sound (own_request a act id me)
  unfolding own_request
  Keeps-own_request a act id me = search match_rules depth 20

  Keeps-touch_waiting : (st : RequestStatus) (id me : ℕ) → Keeps Sound (touch_waiting st id me)
  unfolding touch_waiting
  Keeps-touch_waiting waiting id me = Keeps-touch id me
  Keeps-touch_waiting matched id me = Keeps-pure tt
  Keeps-touch_waiting cancelled id me = Keeps-pure tt
  Keeps-touch_waiting expired id me = Keeps-pure tt

  Keeps-answer_poll :
      (im : Im) (id me : ℕ) (o : Option MatchSession) → Keeps Sound (answer_poll im id me o)
  unfolding answer_poll
  Keeps-answer_poll im id me none = Keeps-pure _
  Keeps-answer_poll im id me (some s) = search session_rules depth 20

  Keeps-answer_heartbeat :
      (im : Im) (id me : ℕ) (o : Option MatchSession) → Keeps Sound (answer_heartbeat im id me o)
  unfolding answer_heartbeat
  Keeps-answer_heartbeat im id me none = Keeps-pure _
  Keeps-answer_heartbeat im id me (some s) = search session_rules depth 20

  pub Keeps-match_poll :
      (im : Im) (a : Actor) (id : TextId) → Keeps Sound (handle_match_poll im a id)
  unfolding handle_match_poll
  Keeps-match_poll im a id =
      search (session_rules, Keeps-own_request, Keeps-touch_waiting, Keeps-answer_poll) depth 40

  pub Keeps-match_heartbeat :
      (im : Im) (a : Actor) (id : TextId) → Keeps Sound (handle_match_heartbeat im a id)
  unfolding handle_match_heartbeat
  Keeps-match_heartbeat im a id =
      search (session_rules, Keeps-own_request, Keeps-answer_heartbeat) depth 40

  Keeps-cancel_target : (a : Actor) (id : TextId) (me : ℕ) → Keeps Sound (cancel_target a id me)
  unfolding cancel_target
  Keeps-cancel_target a missing me = search match_rules depth 30
  Keeps-cancel_target a blank me = search (match_rules, Keeps-own_request) depth 30
  Keeps-cancel_target a (uuid n) me = search (match_rules, Keeps-own_request) depth 30
  Keeps-cancel_target a (malformed n) me = search (match_rules, Keeps-own_request) depth 30

  pub Keeps-match_cancel : (a : Actor) (id : TextId) → Keeps Sound (handle_match_cancel a id)
  unfolding handle_match_cancel
  Keeps-match_cancel a id = search (match_rules, Keeps-cancel_target) depth 30

  Keeps-attach_statement :
      (id : ℕ) (force : Bool) (t : ℕ)
      → Keeps Sound (
          modify_db λ db. record db {
            match_sessions = update session_id id (attached force t) db.match_sessions;
          })
  Keeps-attach_statement id force t = record { at = λ db h. keeps_attached id force t db h }

  pub Keeps-match_attach :
      (id thread : TextId) (force : Bool) → Keeps Sound (handle_match_attach id thread force)
  unfolding handle_match_attach
  Keeps-match_attach id thread force = search (match_rules, Keeps-attach_statement) depth 30

  pub Keeps-match_get_partner :
      (id : TextId) (me : Option ℕ) → Keeps Sound (handle_match_get_partner id me)
  unfolding handle_match_get_partner
  Keeps-match_get_partner id me = search match_rules depth 30
