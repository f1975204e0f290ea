-- ===== src/Store/Table.antt =====
-- Tables as lists of rows, newest first, which is the order of `created_at desc`.
-- A row is found and updated by a numeric key, as `where id = $1` does.
use mathlib.Core.Option
use terravoy_backend.Prelude.{
  ℕ, ◌≡◌, Option, List, [], ◌∷◌, ◌==◌, if◌then◌else◌, arith, find, modify,
}

module _ {A : Type 0} (key : A → ℕ) where
  -- `select * from t where key = $1`
  abbrev pub by_key : ℕ → List A → Option A
  by_key k = find (λ r. key r == k)

  -- `update t set … where key = $1`
  abbrev pub update : ℕ → (A → A) → List A → List A
  update k = modify (λ r. key r == k)

  -- An update that keeps the key acts on the row that is found.
  pub by_key-update :
      (k j : ℕ) (f : A → A) (rows : List A)
      → ((r : A) → key (f r) ≡ key r)
      → by_key j (update k f rows)
        ≡ (if k == j then Option.map f (by_key j rows) else by_key j rows)
  by_key-update k j f [] same = ground arith
  by_key-update k j f (r ∷ rows) same = ground (arith, same r, by_key-update k j f rows same)
