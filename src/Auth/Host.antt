-- ===== src/Auth/Host.antt =====
-- server/src/middlewares/requireApprovedHost.js
use terravoy_backend.Prelude.{
  ℕ, ◌+◌, Bool, true, false, Option, none, some, List, ◌∷◌, ltb, if◌then◌else◌, find, not, select,
}
use terravoy_backend.Store.Rows.{UserId, missing, user_eq}
use terravoy_backend.Store.CertRows.{CertStatus, cert_none, cert_approved, HostCert, CachedCert}
use terravoy_backend.Store.Db.{
  Db, M, http_error, unauthorized, host_cert_required, throw, value, Outcome,
}

abbrev pub cache_ttl_ms : ℕ
cache_ttl_ms = 60000

abbrev pub is_approved : CertStatus → Bool
is_approved cert_approved = true
is_approved _ = false

abbrev pub approved_or_throw : CertStatus → Outcome (Unit {0})
approved_or_throw cert_approved = value tt
approved_or_throw _ = Outcome.thrown (http_error host_cert_required 403)

-- `rows[0]?.status || 'none'`
abbrev pub row_status : Option HostCert → CertStatus
row_status none = cert_none
row_status (some c) = c.status

abbrev pub cert_status : UserId → List HostCert → CertStatus
cert_status u certs = row_status (find (λ (c : HostCert). user_eq c.user_id u) certs)

abbrev pub cached : UserId → List CachedCert → Option CachedCert
cached u = find (λ c. user_eq c.user_id u)

-- `cache.set(key, …)` and `cache.delete(key)`
abbrev pub without : UserId → List CachedCert → List CachedCert
without u = select (λ c. not (user_eq c.user_id u))

-- A miss, or an entry that has expired: the database is asked and the answer is cached.
abbrev pub refreshed : UserId → Db → Db
refreshed u db =
    let entry : CachedCert = record {
      user_id = u;
      status = cert_status u db.certs;
      expires_at = db.now + cache_ttl_ms;
    } in
    record db { host_cache = entry ∷ without u db.host_cache }

abbrev refresh : UserId → M (Unit {0})
refresh u db = (refreshed u db, approved_or_throw (cert_status u db.certs))

-- The entry is used while `expiresAt > Date.now()`.
abbrev pub from_cache : UserId → Option CachedCert → M (Unit {0})
from_cache u none db = refresh u db
from_cache u (some c) db =
    let asked = refresh u db in
    if ltb db.now c.expires_at then (db, approved_or_throw c.status) else asked

abbrev given_user : UserId → M (Unit {0}) → M (Unit {0})
given_user missing m = throw (http_error unauthorized 401)
given_user _ m = m

unfoldable pub require_approved_host : UserId → M (Unit {0})
require_approved_host u db = given_user u (from_cache u (cached u db.host_cache)) db

-- `if (!userId) return`
abbrev pub cleared : UserId → List CachedCert → List CachedCert
cleared missing cache = cache
cleared u cache = without u cache

unfoldable pub clear_approved_host_cache : UserId → M (Unit {0})
clear_approved_host_cache u db = (record db { host_cache = cleared u db.host_cache }, value tt)
