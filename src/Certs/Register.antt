-- ===== src/Certs/Register.antt =====
-- What a step of the certifications does to the status of every user, and that it keeps the rows
-- well-formed.
use mathlib.Core.Option
use mathlib.Core.Path.{subst}
use terravoy_backend.Prelude.{
  ℕ, ◌≡◌, ◌<◌, Bool, true, Option, none, some, ◌==◌, if◌then◌else◌, refl, sym, ap, ◌∙◌, arith,
  Bool-cases, Option-cases, find-holds, find-modify, inl, inr, ==_iff, ==_refl,
}
use terravoy_backend.Store.Rows.{UserId, missing, user_eq, user_eq_iff}
use terravoy_backend.Store.Table.{by_key}
use terravoy_backend.Store.Db.{Db, empty_db}
use terravoy_backend.Store.CertRows.{HostCert, cert_none}
use terravoy_backend.Auth.Host.{cert_status, row_status}
use terravoy_backend.Certs.State.{cert_id, find_cert}
use terravoy_backend.Certs.Step.{
  first_draft, CertPath, stay, move, CertInserted, CertChanged, CertStep, kept, inserted, changed,
  IsRegister,
}

pub user_eq_refl : (u : UserId) → user_eq u u ≡ true
user_eq_refl u = (user_eq_iff u u).1 refl

pub find_cert-user :
    (u : UserId) (db : Db) (c : HostCert) → find_cert u db.certs ≡ some c → c.user_id ≡ u
find_cert-user u db c h =
    (user_eq_iff c.user_id u).0 (find-holds (λ (c : HostCert). user_eq c.user_id u) db.certs c h)

pub by_key-id : (k : ℕ) (db : Db) (c : HostCert) → by_key cert_id k db.certs ≡ some c → c.id ≡ k
by_key-id k db c h = (==_iff c.id k).0 (find-holds (λ (c : HostCert). c.id == k) db.certs c h)

between :
    {auto : Bool} {a b a' b' : Option HostCert}
    → a ≡ a'
    → b ≡ b'
    → CertPath auto (row_status a') (row_status b')
    → CertPath auto (row_status a) (row_status b)
between {auto} {a} {b} {a'} {b'} p q path =
    subst (λ x. CertPath auto (row_status x) (row_status b)) (sym p)
      (subst (λ x. CertPath auto (row_status a') (row_status x)) (sym q) path)

module _ {db db' : Db} (h : IsRegister db) where
  module _ {auto : Bool} (row : HostCert) (f : HostCert → HostCert)
      (m : CertChanged auto row f db db') where
    -- The rows after a change, searched by user.
    pub changed_user :
        (u : UserId)
        → find_cert u db'.certs
          ≡ Option.map (λ (c : HostCert). if c.id == row.id then f c else c) (find_cert u db.certs)
    changed_user u =
        ap (find_cert u) m.certs
        ∙ find-modify (λ (c : HostCert). c.id == row.id) (λ (c : HostCert). user_eq c.user_id u) f
            db.certs (λ c. ap (λ v. user_eq v u) (m.same_user c))

    pub changed_id :
        (k : ℕ)
        → by_key cert_id k db'.certs
          ≡ Option.map
              (λ (c : HostCert). if c.id == row.id then f c else c)
              (by_key cert_id k db.certs)
    changed_id k =
        ap (by_key cert_id k) m.certs
        ∙ find-modify (λ (c : HostCert). c.id == row.id) (λ (c : HostCert). c.id == k) f db.certs
            (λ c. ap (λ v. v == k) (m.same_id c))

    -- The row of a user has the id of the changed row only if it is that row.
    pub same_row :
        (u : UserId) (c : HostCert) → find_cert u db.certs ≡ some c → c.id ≡ row.id → c ≡ row
    same_row u c found e =
        let by_u : find_cert c.user_id db.certs ≡ some c =
          subst (λ v. find_cert v db.certs ≡ some c) (sym (find_cert-user u db c found)) found in
        let by_i : by_key cert_id row.id db.certs ≡ some c =
          subst (λ k. by_key cert_id k db.certs ≡ some c) e (h.by_user c by_u) in
        Option.some_inj.0 (sym by_i ∙ m.found)

    at_row :
        (u : UserId) (c : HostCert)
        → find_cert u db.certs ≡ some c
        → CertPath auto c.status (if c.id == row.id then f c else c).status
    at_row u c e = elim (Bool-cases (c.id == row.id)) [
      | inl t ↦
          let same : c ≡ row = same_row u c e ((==_iff c.id row.id).0 t) in
          let new : (if c.id == row.id then f c else c) ≡ f row =
            ap (λ b. if b then f c else c) t ∙ ap f same in
          subst (λ (r : HostCert). CertPath auto c.status r.status) (sym new)
            (subst (λ (r : HostCert). CertPath auto r.status (f row).status) (sym same) m.path)
      | inr t ↦
          let new : (if c.id == row.id then f c else c) ≡ c = ap (λ b. if b then f c else c) t in
          subst (λ (r : HostCert). CertPath auto c.status r.status) (sym new) stay
    ]

    -- The changed row moves along its path, and every other user keeps the status.
    pub changed_path :
        (u : UserId) → CertPath auto (cert_status u db.certs) (cert_status u db'.certs)
    changed_path u = elim (Option-cases (find_cert u db.certs)) [
      | inl e ↦ between e (changed_user u ∙ ap (Option.map change) e) stay
      | inr (c, e) ↦ between e (changed_user u ∙ ap (Option.map change) e) (at_row u c e)
    ]
      where
        change : HostCert → HostCert
        change c = if c.id == row.id then f c else c

  module _ (row : HostCert) (m : CertInserted row db db') where
    pub inserted_user :
        (u : UserId)
        → find_cert u db'.certs ≡ (if user_eq row.user_id u then some row else find_cert u db.certs)
    inserted_user u = ap (find_cert u) m.certs

    inserted_id :
        (k : ℕ)
        → by_key cert_id k db'.certs ≡ (if row.id == k then some row else by_key cert_id k db.certs)
    inserted_id k = ap (by_key cert_id k) m.certs

    inserted_path :
        {auto : Bool}
        → (u : UserId) → CertPath auto (cert_status u db.certs) (cert_status u db'.certs)
    inserted_path {auto} u = elim (Bool-cases (user_eq row.user_id u)) [
      | inl t ↦
          let gone : find_cert u db.certs ≡ none =
            subst (λ v. find_cert v db.certs ≡ none) ((user_eq_iff row.user_id u).0 t) m.is_new in
          between gone (inserted_user u ∙ ap (λ b. if b then some row else find_cert u db.certs) t)
            (subst (λ s. CertPath auto cert_none s) (sym m.is_draft) (move first_draft stay))
      | inr t ↦
          between {a = find_cert u db.certs} refl
            (inserted_user u ∙ ap (λ b. if b then some row else find_cert u db.certs) t) stay
    ]

  -- Every user's status goes along a path of the diagram.
  pub step_path :
      {auto : Bool}
      → CertStep auto db db'
      → (u : UserId) → CertPath auto (cert_status u db.certs) (cert_status u db'.certs)
  step_path (kept k) u = between {a = find_cert u db.certs} refl (ap (find_cert u) k.certs) stay
  step_path (inserted row m) u = inserted_path row m u
  step_path (changed row f m) u = changed_path row f m u

  pub same-IsRegister : db'.certs ≡ db.certs → db'.next_cert ≡ db.next_cert → IsRegister db'
  same-IsRegister same next = record {
    by_id =
        λ i c e. ap (find_cert c.user_id) same ∙ h.by_id i c (sym (ap (by_key cert_id i) same) ∙ e);
    by_user = λ c e.
        ap (by_key cert_id c.id) same ∙ h.by_user c (sym (ap (find_cert c.user_id) same) ∙ e);
    nobody = ap (find_cert missing) same ∙ h.nobody;
    below =
        λ i c e. subst (λ n. i < n) (sym next) (h.below i c (sym (ap (by_key cert_id i) same) ∙ e));
  }

  step_inserted : (row : HostCert) → CertInserted row db db' → IsRegister db'
  step_inserted row m = record {
    by_id = λ i c e.
        let at = inserted_id row m i in
        let now = inserted_user row m c.user_id in
        let old = h.by_id i c in
        let new = user_eq_refl row.user_id in
        let same = user_eq_iff row.user_id c.user_id in let fresh = m.is_new in ground arith;
    by_user = λ c e.
        let at = inserted_id row m c.id in
        let now = inserted_user row m c.user_id in
        let old = h.by_user c in
        let new = ==_refl row.id in
        let same = ==_iff row.id c.id in
        let fresh = m.next_id in let under = h.below c.id c in ground arith;
    nobody =
        inserted_user row m missing
        ∙ (ap (λ b. if b then some row else find_cert missing db.certs) m.named ∙ h.nobody);
    below = λ i c e.
        let at = inserted_id row m i in
        let same = ==_iff row.id i in
        let fresh = m.next_id in let under = h.below i c in let next = m.next_cert in ground arith;
  }

  module _ {auto : Bool} (row : HostCert) (f : HostCert → HostCert)
      (m : CertChanged auto row f db db') where
    changed_cert : HostCert → HostCert
    changed_cert c = if c.id == row.id then f c else c

    changed_cert-id : (c : HostCert) → (changed_cert c).id ≡ c.id
    unfolding changed_cert
    changed_cert-id c = ground (arith, m.same_id c)

    changed_cert-user : (c : HostCert) → (changed_cert c).user_id ≡ c.user_id
    unfolding changed_cert
    changed_cert-user c = ground (arith, m.same_user c)

    -- A row found after the change comes from one found before.
    before :
        (o : Option HostCert) (c : HostCert)
        → Option.map changed_cert o ≡ some c
        → (r : HostCert) × (o ≡ some r) × (changed_cert r ≡ c)
    before none c e = cc
    before (some r) c e = (r, refl, Option.some_inj.0 e)

    step_changed : IsRegister db'
    unfolding changed_cert
    step_changed = record {
      by_id = λ i c e.
          let (r, at, same) =
            before (by_key cert_id i db.certs) c (sym (changed_id row f m i) ∙ e) in
          let user : r.user_id ≡ c.user_id =
            sym (changed_cert-user r) ∙ ap (λ (x : HostCert). x.user_id) same in
          changed_user row f m c.user_id
          ∙ ap (Option.map changed_cert)
              (subst (λ v. find_cert v db.certs ≡ some r) user (h.by_id i r at))
          ∙ ap some same;
      by_user = λ c e.
          let (r, at, same) =
            before (find_cert c.user_id db.certs) c (sym (changed_user row f m c.user_id) ∙ e) in
          let user : r.user_id ≡ c.user_id =
            sym (changed_cert-user r) ∙ ap (λ (x : HostCert). x.user_id) same in
          let id : r.id ≡ c.id = sym (changed_cert-id r) ∙ ap (λ (x : HostCert). x.id) same in
          let found : find_cert r.user_id db.certs ≡ some r =
            subst (λ v. find_cert v db.certs ≡ some r) (sym user) at in
          changed_id row f m c.id
          ∙ ap (Option.map changed_cert)
              (subst (λ k. by_key cert_id k db.certs ≡ some r) id (h.by_user r found))
          ∙ ap some same;
      nobody = changed_user row f m missing ∙ ap (Option.map changed_cert) h.nobody;
      below = λ i c e.
          let (r, at, same) =
            before (by_key cert_id i db.certs) c (sym (changed_id row f m i) ∙ e) in
          subst (λ n. i < n) (sym m.next_cert) (h.below i r at);
    }

  -- The rows stay well-formed.
  pub CertStep-IsRegister : {auto : Bool} → CertStep auto db db' → IsRegister db'
  CertStep-IsRegister (kept k) = same-IsRegister k.certs k.next_cert
  CertStep-IsRegister (inserted row m) = step_inserted row m
  CertStep-IsRegister (changed row f m) = step_changed row f m

pub empty_db-IsRegister : IsRegister empty_db
empty_db-IsRegister = record {
  nobody = refl;
  by_id = λ i c e. ground arith;
  by_user = λ c e. ground arith;
  below = λ i c e. ground arith;
}
