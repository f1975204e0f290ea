-- ===== src/Certs/Dispatched.antt =====
-- The PATCH of the administrators and the whole dispatch, as steps of `Certs/Step.antt`.
use terravoy_backend.Prelude.{
  ℕ, ◌≡◌, Bool, Option, none, some, refl, ap, arith, Bool-cases, Option-cases, inl, inr,
}
use terravoy_backend.Store.Rows.{missing, blank, malformed, uuid}
use terravoy_backend.Store.Table.{by_key}
use terravoy_backend.Store.Db.{Db, M}
use terravoy_backend.Store.CertRows.{HostCert, TextId}
use terravoy_backend.Auth.Host.{clear_approved_host_cache}
use terravoy_backend.Certs.State.{CertSettings, cert_id}
use terravoy_backend.Certs.Review.{is_pending, cert_by_id}
use terravoy_backend.Certs.Decide.{
  Decision, to_approved, to_rejected, other_decision, decided, handle_decide, log_admin_audit,
}
use terravoy_backend.Certs.Serve.{
  CertRequest, turned_away, get_mine, save_draft, submit, list_certs, review_cert, admin_list,
  admin_get, admin_decide, dispatch_cert, serve_cert,
}
use terravoy_backend.Certs.Step.{stay, move, CertStep, kept, changed, IsRegister}
use terravoy_backend.Certs.Reads.{
  Reads, Reads-handle_get_mine, Reads-handle_list_certs, Reads-handle_admin_list,
  Reads-handle_get_cert,
}
use terravoy_backend.Certs.Handled.{save_draft_step, handle_submit_step}
use terravoy_backend.Certs.Reviewed.{found_by_id, pending_approved, pending_rejected, review_step}

module _ {auto : Bool} (admin n reason : ℕ) (db : Db) where
  module _ (c : HostCert) (e : by_key cert_id n db.certs ≡ some c) where
    decided_step :
        (d : Decision) → CertStep auto db (handle_decide admin (uuid n) d (some reason) db).0
    unfolding handle_decide cert_by_id log_admin_audit clear_approved_host_cache
    decided_step to_approved = elim (Bool-cases (is_pending c.status)) [
      | inl t ↦ changed c (decided to_approved db.now admin reason) record {
        found = found_by_id n db c e;
        same_id = λ c. refl;
        same_user = λ c. refl;
        path = move (pending_approved c.status t) stay;
        certs = ground arith;
        host_cache = ground arith;
        next_cert = ground arith;
      }
      | inr t ↦ kept (ground arith)
    ]
    decided_step to_rejected = elim (Bool-cases (is_pending c.status)) [
      | inl t ↦ changed c (decided to_rejected db.now admin reason) record {
        found = found_by_id n db c e;
        same_id = λ c. refl;
        same_user = λ c. refl;
        path = move (pending_rejected c.status t) stay;
        certs = ground arith;
        host_cache = ground arith;
        next_cert = ground arith;
      }
      | inr t ↦ kept (ground arith)
    ]
    decided_step other_decision = kept (ground arith)

  undecided_step :
      (d : Decision)
      → by_key cert_id n db.certs ≡ none
      → CertStep auto db (handle_decide admin (uuid n) d (some reason) db).0
  unfolding handle_decide cert_by_id
  undecided_step d e = kept (ground arith)

decide_step :
    {auto : Bool}
    → (admin : ℕ) (id : TextId) (d : Decision) (reason : Option ℕ) (db : Db)
    → CertStep auto db (handle_decide admin id d reason db).0
unfolding handle_decide cert_by_id
decide_step admin (uuid n) d (some reason) db = elim (Option-cases (by_key cert_id n db.certs)) [
  | inl e ↦ undecided_step admin n reason db d e
  | inr (c, e) ↦ decided_step admin n reason db c e d
]
decide_step admin (uuid n) d none db = kept (ground arith)
decide_step admin missing d reason db = kept (ground arith)
decide_step admin blank d reason db = kept (ground arith)
decide_step admin (malformed n) d reason db = kept (ground arith)

unchanged : {auto : Bool} {A : Type 0} {m : M A} → Reads m → (db : Db) → CertStep auto db (m db).0
unchanged r db = kept record {
  certs = ap (λ (d : Db). d.certs) (r.at db);
  host_cache = ap (λ (d : Db). d.host_cache) (r.at db);
  next_cert = ap (λ (d : Db). d.next_cert) (r.at db);
}

-- Every request for certifications, whoever sends it and whatever it says, takes a well-formed
-- register by one step of the diagram: it keeps the rows and the cache, inserts the first draft of
-- a user, or moves the row of one user along the diagram and drops that user's entry in the cache.
pub serve_cert_step :
    (s : CertSettings) (req : CertRequest) (db : Db)
    → IsRegister db
    → CertStep s.auto_approve db (serve_cert s req db).0
unfolding serve_cert dispatch_cert
serve_cert_step s (turned_away code status) db h = kept (ground arith)
serve_cert_step s (get_mine u) db h = unchanged (Reads-handle_get_mine u) db
serve_cert_step s (save_draft u body) db h = save_draft_step s u body db h
serve_cert_step s (submit u) db h = handle_submit_step s u db h
serve_cert_step s (list_certs who status limit cursor) db h =
    unchanged (Reads-handle_list_certs s who status limit cursor) db
serve_cert_step s (review_cert who id choice reason) db h = review_step s who id choice reason db
serve_cert_step s (admin_list filter p size) db h =
    unchanged (Reads-handle_admin_list filter p size) db
serve_cert_step s (admin_get id) db h = unchanged (Reads-handle_get_cert id) db
serve_cert_step s (admin_decide admin id d reason) db h = decide_step admin id d reason db
