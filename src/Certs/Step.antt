-- ===== src/Certs/Step.antt =====
-- The abstract view of the certifications: the diagram of the statuses, and how one request may
-- change the rows and the cache of the approved-host check.
use terravoy_backend.Prelude.{ℕ, ◌+◌, ◌<◌, ◌≡◌, Bool, true, false, none, some, ◌∷◌}
use terravoy_backend.Store.Rows.{missing, user_eq}
use terravoy_backend.Store.Table.{by_key, update}
use terravoy_backend.Store.Db.{Db}
use terravoy_backend.Store.CertRows.{
  HostCert, CertStatus, cert_none, cert_draft, cert_submitted, cert_reviewing, cert_approved,
  cert_rejected,
}
use terravoy_backend.Auth.Host.{cleared}
use terravoy_backend.Certs.State.{cert_id, find_cert}

-- One move of a certification. Where the server approves by itself (`auto`), a submitted one can be
-- edited and submitted again.
pub data CertEdge (auto : Bool) : CertStatus → CertStatus → Type 0 where
  first_draft : CertEdge auto cert_none cert_draft
  edit : CertEdge auto cert_draft cert_draft
  edit_rejected : CertEdge auto cert_rejected cert_draft
  submit : CertEdge auto cert_draft cert_submitted
  submit_rejected : CertEdge auto cert_rejected cert_submitted
  mark_reviewing : CertEdge auto cert_submitted cert_reviewing
  approve : CertEdge auto cert_submitted cert_approved
  approve_reviewed : CertEdge auto cert_reviewing cert_approved
  reject : CertEdge auto cert_submitted cert_rejected
  reject_reviewed : CertEdge auto cert_reviewing cert_rejected
  edit_submitted : auto ≡ true → CertEdge auto cert_submitted cert_draft
  submit_again : auto ≡ true → CertEdge auto cert_submitted cert_submitted

-- Moves one after another.
pub data CertPath (auto : Bool) : CertStatus → CertStatus → Type 0 where
  stay : {s : CertStatus} → CertPath auto s s
  move : {s t r : CertStatus} → CertEdge auto s t → CertPath auto t r → CertPath auto s r

-- Rows, cache and next id are as before.
pub record CertsKept (db db' : Db) : Type 0 where
  pub certs : db'.certs ≡ db.certs
  pub host_cache : db'.host_cache ≡ db.host_cache
  pub next_cert : db'.next_cert ≡ db.next_cert

-- The first draft of a user cleared a row.
pub record CertInserted (row : HostCert) (db db' : Db) : Type 0 where
  pub is_new : find_cert row.user_id db.certs ≡ none
  pub named : user_eq row.user_id missing ≡ false
  pub next_id : row.id ≡ db.next_cert
  pub is_draft : row.status ≡ cert_draft
  pub certs : db'.certs ≡ row ∷ db.certs
  pub host_cache : db'.host_cache ≡ cleared row.user_id db.host_cache
  pub next_cert : db'.next_cert ≡ db.next_cert + 1

-- The row of one user was changed by `f`, and the user's entry in the cache was dropped.
pub record CertChanged (auto : Bool) (row : HostCert) (f : HostCert → HostCert) (db db' : Db)
    : Type 0 where
  pub found : by_key cert_id row.id db.certs ≡ some row
  pub same_id : (c : HostCert) → (f c).id ≡ c.id
  pub same_user : (c : HostCert) → (f c).user_id ≡ c.user_id
  pub path : CertPath auto row.status (f row).status
  pub certs : db'.certs ≡ update cert_id row.id f db.certs
  pub host_cache : db'.host_cache ≡ cleared row.user_id db.host_cache
  pub next_cert : db'.next_cert ≡ db.next_cert

pub data CertStep (auto : Bool) (db db' : Db) : Type 0 where
  kept : CertsKept db db' → CertStep auto db db'
  inserted : (row : HostCert) → CertInserted row db db' → CertStep auto db db'
  changed :
      (row : HostCert) (f : HostCert → HostCert)
      → CertChanged auto row f db db'
      → CertStep auto db db'

-- A user has one row, which is found by its id as well, the ids are below the next one, and no row
-- is cleared a user.
pub record IsRegister (db : Db) : Type 0 where
  pub by_id :
      (k : ℕ) (c : HostCert)
      → by_key cert_id k db.certs ≡ some c
      → find_cert c.user_id db.certs ≡ some c
  pub by_user :
      (c : HostCert) → find_cert c.user_id db.certs ≡ some c → by_key cert_id c.id db.certs ≡ some c
  pub below : (k : ℕ) (c : HostCert) → by_key cert_id k db.certs ≡ some c → k < db.next_cert
  pub nobody : find_cert missing db.certs ≡ none
