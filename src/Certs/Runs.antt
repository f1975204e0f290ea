-- ===== src/Certs/Runs.antt =====
-- Runs of the certification routes and of the approved-host check, one event after another, with
-- time between them and the assets that the media routes write.
use mathlib.Core.Path.{subst}
use mathlib.Core.Bool.{false≢true}
use terravoy_backend.Prelude.{
  ℕ, ◌+◌, ◌≡◌, ◌≢◌, ◌⊎◌, Bool, false, Option, none, some, List, [], ◌∷◌, if◌then◌else◌, refl, sym,
  ◌∙◌, arith, Bool-cases, inl, inr, ltb,
}
use terravoy_backend.Store.Rows.{UserId, missing, blank, malformed, uuid, user_eq, user_eq_iff}
use terravoy_backend.Store.Db.{Db, empty_db, value, thrown, http_error, host_cert_required}
use terravoy_backend.Store.CertRows.{Asset, CachedCert, CertStatus, cert_approved}
use terravoy_backend.Auth.Host.{
  cert_status, cached, is_approved, require_approved_host, approved_or_throw, refreshed, from_cache,
}
use terravoy_backend.Certs.State.{CertSettings}
use terravoy_backend.Certs.Serve.{CertRequest, serve_cert}
use terravoy_backend.Certs.Step.{CertPath, stay, move, IsRegister}
use terravoy_backend.Certs.Register.{
  step_path, CertStep-IsRegister, same-IsRegister, empty_db-IsRegister,
}
use terravoy_backend.Certs.Dispatched.{serve_cert_step}
use terravoy_backend.Certs.Coherent.{IsCoherent, CertStep-IsCoherent, cached_other}

pub data CertEvent : Type 0 where
  request : CertRequest → CertEvent
  check_host : UserId → CertEvent
  pass_time : (ms : ℕ) → CertEvent
  assets_written : List Asset → CertEvent

unfoldable pub handle_cert_event : CertSettings → CertEvent → Db → Db
handle_cert_event s (request req) db = (serve_cert s req db).0
handle_cert_event s (check_host u) db = (require_approved_host u db).0
handle_cert_event s (pass_time ms) db = record db { now = db.now + ms }
handle_cert_event s (assets_written assets) db = record db { assets = assets }

unfoldable pub run_certs : CertSettings → List CertEvent → Db → Db
unfolding handle_cert_event
run_certs s [] db = db
run_certs s (e ∷ es) db = run_certs s es (handle_cert_event s e db)

-- What a run keeps.
pub record IsSettled (db : Db) : Type 0 where
  pub register : IsRegister db
  pub coherent : IsCoherent db

refreshed-IsCoherent : (u : UserId) (db : Db) → IsCoherent db → IsCoherent (refreshed u db)
refreshed-IsCoherent u db k = record {
  agrees = λ w c named e. elim (Bool-cases (user_eq u w)) [
    | inl t ↦ ground (arith, user_eq_iff u w)
    | inr t ↦ ground (arith, k.agrees w c named, cached_other w u db.host_cache t)
  ];
}

-- With a coherent cache, the check answers what the table says, and only writes that into the cache.
module _ (u : UserId) (db : Db) (k : IsCoherent db) where
  looked_up :
      user_eq u missing ≡ false
      → (o : Option CachedCert) → cached u db.host_cache ≡ o
      → (from_cache u o db).1 ≡ approved_or_throw (cert_status u db.certs)
  looked_up n none e = refl
  looked_up n (some c) e = elim (Bool-cases (ltb db.now c.expires_at)) [
    | inl t ↦ ground (arith, k.agrees u c n e)
    | inr t ↦ ground arith
  ]

  left :
      (o : Option CachedCert)
      → ((from_cache u o db).0 ≡ db) ⊎ ((from_cache u o db).0 ≡ refreshed u db)
  left none = inr refl
  left (some c) = elim (Bool-cases (ltb db.now c.expires_at)) [
    | inl t ↦ inl (ground arith)
    | inr t ↦ inr (ground arith)
  ]

check_left :
    (u : UserId) (db : Db)
    → IsCoherent db
    → ((require_approved_host u db).0 ≡ db) ⊎ ((require_approved_host u db).0 ≡ refreshed u db)
unfolding require_approved_host
check_left missing db k = inl refl
check_left blank db k = left blank db k (cached blank db.host_cache)
check_left (uuid n) db k = left (uuid n) db k (cached (uuid n) db.host_cache)
check_left (malformed n) db k = left (malformed n) db k (cached (malformed n) db.host_cache)

check_answer :
    (u : UserId) (db : Db)
    → IsCoherent db
    → user_eq u missing ≡ false
    → (require_approved_host u db).1 ≡ approved_or_throw (cert_status u db.certs)
unfolding require_approved_host
check_answer missing db k n = absurd (false≢true (sym n))
check_answer blank db k n = looked_up blank db k n (cached blank db.host_cache) refl
check_answer (uuid i) db k n = looked_up (uuid i) db k n (cached (uuid i) db.host_cache) refl
check_answer (malformed i) db k n =
    looked_up (malformed i) db k n (cached (malformed i) db.host_cache) refl

check-IsSettled : (u : UserId) (db : Db) → IsSettled db → IsSettled (require_approved_host u db).0
check-IsSettled u db h = elim (check_left u db h.coherent) [
  | inl e ↦ subst IsSettled (sym e) h
  | inr e ↦ subst IsSettled (sym e) record {
    register = same-IsRegister h.register refl refl;
    coherent = refreshed-IsCoherent u db h.coherent;
  }
]

event-IsSettled :
    (s : CertSettings) (e : CertEvent) (db : Db)
    → IsSettled db
    → IsSettled (handle_cert_event s e db)
unfolding handle_cert_event
event-IsSettled s (request req) db h =
    let step = serve_cert_step s req db h.register in
    record {
      register = CertStep-IsRegister h.register step;
      coherent = CertStep-IsCoherent h.register h.coherent step;
    }
event-IsSettled s (check_host u) db h = check-IsSettled u db h
event-IsSettled s (pass_time ms) db h = record {
  register = same-IsRegister h.register refl refl;
  coherent = record { agrees = h.coherent.agrees };
}
event-IsSettled s (assets_written assets) db h = record {
  register = same-IsRegister h.register refl refl;
  coherent = record { agrees = h.coherent.agrees };
}

-- The status of every user goes along the diagram.
event_path :
    (s : CertSettings) (e : CertEvent) (db : Db)
    → IsSettled db
    → (u : UserId)
    → CertPath s.auto_approve
        (cert_status u db.certs)
        (cert_status u (handle_cert_event s e db).certs)
unfolding handle_cert_event
event_path s (request req) db h u = step_path h.register (serve_cert_step s req db h.register) u
event_path s (check_host v) db h u = elim (check_left v db h.coherent) [
  | inl e ↦
      subst (λ (d : Db). CertPath s.auto_approve (cert_status u db.certs) (cert_status u d.certs))
        (sym e) stay
  | inr e ↦
      subst (λ (d : Db). CertPath s.auto_approve (cert_status u db.certs) (cert_status u d.certs))
        (sym e) stay
]
event_path s (pass_time ms) db h u = stay
event_path s (assets_written assets) db h u = stay

path_trans :
    {auto : Bool} {a b c : CertStatus} → CertPath auto a b → CertPath auto b c → CertPath auto a c
path_trans stay q = q
path_trans (move e p) q = move e (path_trans p q)

module _ (s : CertSettings) where
  run-IsSettled : (es : List CertEvent) (db : Db) → IsSettled db → IsSettled (run_certs s es db)
  unfolding run_certs
  run-IsSettled [] db h = h
  run-IsSettled (e ∷ es) db h =
      run-IsSettled es (handle_cert_event s e db) (event-IsSettled s e db h)

  run_path :
      (es : List CertEvent) (db : Db)
      → IsSettled db
      → (u : UserId)
      → CertPath s.auto_approve (cert_status u db.certs) (cert_status u (run_certs s es db).certs)
  unfolding run_certs
  run_path [] db h u = stay
  run_path (e ∷ es) db h u =
      path_trans (event_path s e db h u)
        (run_path es (handle_cert_event s e db) (event-IsSettled s e db h) u)

pub empty_db-IsSettled : IsSettled empty_db
empty_db-IsSettled = record {
  register = empty_db-IsRegister;
  coherent = record { agrees = λ u c n e. ground arith };
}

approved_stays :
    {auto : Bool} {st : CertStatus} → CertPath auto cert_approved st → st ≡ cert_approved
approved_stays stay = refl
approved_stays (move e _) = elim e [ ]

not_missing : (u : UserId) → u ≢ missing → user_eq u missing ≡ false
not_missing missing n = absurd (n refl)
not_missing blank n = refl
not_missing (uuid i) n = refl
not_missing (malformed i) n = refl

answer_by :
    (st : CertStatus)
    → approved_or_throw st
      ≡ (if is_approved st then value tt else thrown (http_error host_cert_required 403))
answer_by st = ground arith

-- After any sequence of requests for certifications, checks of hosts, uploads and pauses from the
-- empty database, the approved-host check answers for every user id that is not missing what the
-- table says at that moment, as if it had no cache: it passes if the user's certification is
-- approved, and throws HOST_CERT_REQUIRED (403) otherwise.
pub run-check :
    (s : CertSettings) (es : List CertEvent) (u : UserId)
    → u ≢ missing
    → let db = run_certs s es empty_db in
      (require_approved_host u db).1 ≡ (
        if is_approved (cert_status u db.certs)
        then value tt
        else thrown (http_error host_cert_required 403))
run-check s es u n =
    let db = run_certs s es empty_db in
    let coherent = (run-IsSettled s es empty_db empty_db-IsSettled).coherent in
    check_answer u db coherent (not_missing u n) ∙ answer_by (cert_status u db.certs)

-- From the empty database on, the status of every user's certification goes along the diagram,
-- whatever requests come: none, draft, submitted, in review, approved or rejected, and from
-- rejected back to draft or submitted; where the server approves by itself, also from submitted
-- back to draft.
pub run-CertPath :
    (s : CertSettings) (before later : List CertEvent) (u : UserId)
    → let db = run_certs s before empty_db in
      CertPath s.auto_approve (cert_status u db.certs) (cert_status u (run_certs s later db).certs)
run-CertPath s before later u =
    run_path s later (run_certs s before empty_db)
      (run-IsSettled s before empty_db empty_db-IsSettled) u

-- A certification that is approved stays approved, whatever requests come.
pub run_approved :
    (s : CertSettings) (before later : List CertEvent) (u : UserId)
    → cert_status u (run_certs s before empty_db).certs ≡ cert_approved
    → cert_status u (run_certs s later (run_certs s before empty_db)).certs ≡ cert_approved
run_approved s before later u e = approved_stays (
    subst
      (λ st.
        CertPath s.auto_approve st
          (cert_status u (run_certs s later (run_certs s before empty_db)).certs))
      e (run-CertPath s before later u))
