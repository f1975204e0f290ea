-- ===== src/Certs/Coherent.antt =====
-- The cache of the approved-host check against the rows of `host_certifications`.
use mathlib.Core.Option
use mathlib.Core.Option.{none-ne-some}
use mathlib.Core.Bool.{false≢true}
use terravoy_backend.Prelude.{
  ◌≡◌, ◌⊎◌, Bool, false, none, some, List, [], ◌∷◌, ◌==◌, if◌then◌else◌, refl, sym, ap, ◌∙◌, arith,
  Bool-cases, Option-cases, inl, inr, ==_iff,
}
use terravoy_backend.Store.Rows.{UserId, missing, blank, malformed, uuid, user_eq, user_eq_iff}
use terravoy_backend.Store.Db.{Db}
use terravoy_backend.Store.CertRows.{HostCert, CachedCert}
use terravoy_backend.Auth.Host.{cert_status, row_status, cached, without, cleared}
use terravoy_backend.Certs.State.{find_cert}
use terravoy_backend.Certs.Step.{CertChanged, CertStep, kept, inserted, changed, IsRegister}
use terravoy_backend.Certs.Register.{find_cert-user, inserted_user, changed_user, same_row}

cached_same : (u : UserId) (cache : List CachedCert) → cached u (without u cache) ≡ none
cached_same u [] = refl
cached_same u (c ∷ cache) = ground (arith, cached_same u cache)

pub cached_other :
    (u v : UserId) (cache : List CachedCert)
    → user_eq v u ≡ false
    → cached u (without v cache) ≡ cached u cache
cached_other u v [] n = refl
cached_other u v (c ∷ cache) n = ground (
  arith,
  cached_other u v cache n,
  user_eq_iff c.user_id u,
  user_eq_iff c.user_id v,
  user_eq_iff v u,
)

-- Every status in the cache is the one that stands in the table.
pub record IsCoherent (db : Db) : Type 0 where
  pub agrees :
      (u : UserId) (c : CachedCert)
      → user_eq u missing ≡ false
      → cached u db.host_cache ≡ some c
      → c.status ≡ cert_status u db.certs

-- For one user, a request keeps both the entry and the status, or leaves no entry.
abbrev Local : UserId → Db → Db → Type 0
Local u db db' =
    ((cached u db'.host_cache ≡ cached u db.host_cache)
      × (cert_status u db'.certs ≡ cert_status u db.certs))
    ⊎ (cached u db'.host_cache ≡ none)

cleared_own :
    (u : UserId) (cache : List CachedCert)
    → user_eq u missing ≡ false
    → cached u (cleared u cache) ≡ none
cleared_own missing cache n = absurd (false≢true (sym n))
cleared_own blank cache n = cached_same blank cache
cleared_own (uuid k) cache n = cached_same (uuid k) cache
cleared_own (malformed k) cache n = cached_same (malformed k) cache

cleared_other :
    (u v : UserId) (cache : List CachedCert)
    → user_eq v u ≡ false
    → cached u (cleared v cache) ≡ cached u cache
cleared_other u missing cache n = refl
cleared_other u blank cache n = cached_other u blank cache n
cleared_other u (uuid k) cache n = cached_other u (uuid k) cache n
cleared_other u (malformed k) cache n = cached_other u (malformed k) cache n

module _ (db db' : Db) (u : UserId) (named : user_eq u missing ≡ false) where
  -- A step that drops the entry of `v` and keeps the status of all others.
  Local-cleared :
      (v : UserId)
      → db'.host_cache ≡ cleared v db.host_cache
      → (user_eq v u ≡ false → find_cert u db'.certs ≡ find_cert u db.certs)
      → Local u db db'
  Local-cleared v e same = elim (Bool-cases (user_eq v u)) [
    | inl t ↦
        let own : v ≡ u = (user_eq_iff v u).0 t in
        inr (
          ap (cached u) e
          ∙ (ap (λ w. cached u (cleared w db.host_cache)) own ∙ cleared_own u db.host_cache named))
    | inr t ↦ inl (ap (cached u) e ∙ cleared_other u v db.host_cache t, ap row_status (same t))
  ]

module _ {db db' : Db} (h : IsRegister db) (u : UserId) (named : user_eq u missing ≡ false) where
  other_row :
      {auto : Bool}
      → (row : HostCert) (f : HostCert → HostCert) → CertChanged auto row f db db'
      → user_eq row.user_id u ≡ false
      → find_cert u db'.certs ≡ find_cert u db.certs
  other_row row f m n = elim (Option-cases (find_cert u db.certs)) [
    | inl e ↦ changed_user h row f m u ∙ (ap (Option.map change) e ∙ sym e)
    | inr (c, e) ↦
        changed_user h row f m u ∙ (ap (Option.map change) e ∙ (ap some (untouched c e) ∙ sym e))
  ]
    where
      change : HostCert → HostCert
      change c = if c.id == row.id then f c else c

      untouched : (c : HostCert) → find_cert u db.certs ≡ some c → change c ≡ c
      untouched c e = elim (Bool-cases (c.id == row.id)) [
        | inl t ↦
            let same = same_row h row f m u c e ((==_iff c.id row.id).0 t) in
            let own : row.user_id ≡ u =
              sym (ap (λ (r : HostCert). r.user_id) same) ∙ find_cert-user u db c e in
            absurd (false≢true (sym n ∙ (user_eq_iff row.user_id u).1 own))
        | inr t ↦ ap (λ b. if b then f c else c) t
      ]

  pub step-Local : {auto : Bool} → CertStep auto db db' → Local u db db'
  step-Local (kept k) = inl (ap (cached u) k.host_cache, ap (cert_status u) k.certs)
  step-Local (inserted row m) =
      Local-cleared db db' u named row.user_id m.host_cache
        (λ n. inserted_user h row m u ∙ ap (λ b. if b then some row else find_cert u db.certs) n)
  step-Local (changed row f m) =
      Local-cleared db db' u named row.user_id m.host_cache (other_row row f m)

pub CertStep-IsCoherent :
    {auto : Bool} {db db' : Db}
    → IsRegister db
    → IsCoherent db
    → CertStep auto db db'
    → IsCoherent db'
CertStep-IsCoherent {auto} {db} {db'} h k step = record {
  agrees = λ u c named e. go u c named e (step-Local h u named step);
}
  where
    go :
        (u : UserId) (c : CachedCert)
        → user_eq u missing ≡ false
        → cached u db'.host_cache ≡ some c
        → Local u db db'
        → c.status ≡ cert_status u db'.certs
    go u c named e (inl (same, status)) = k.agrees u c named (sym same ∙ e) ∙ sym status
    go u c named e (inr gone) = absurd (none-ne-some c (sym gone ∙ e))
