-- ===== src/Table.antt =====
-- A database table as the list of its rows in order of insertion, with the queries that the
-- program makes through SQLAlchemy: the first row that a WHERE clause selects, all of them, the
-- update of one row, INSERT and DELETE. A primary key is a test that at most one row passes.
pub mod Laws
use thaum.Prelude.{
  ℕ, zero, suc, ◌+◌, ◌-◌, ◌*◌, ◌/◌, ◌%◌, ◌≤◌, ◌<◌, String, ◌≡◌, refl, sym, ap, ◌∙◌, subst, ◌≢◌, ◌↔◌,
  ◌⊎◌, inl, inr, Bool, true, false, not, ◌&&◌, ◌||◌, Option, none, some, List, [], ◌∷◌, ◌++◌, map,
  append-nil, append_assoc, arith, ltb, leb, ◌==◌, if◌then◌else◌, Bool-cases, Option-cases, ==_iff,
  length, take, drop, all, length-append, All, All-append,
}

module _ {ℓ} {A : Type ℓ} where
  -- `session.get(...)`, `session.scalar(select(...))`.
  unfoldable pub find_row : (A → Bool) → List A → Option A
  find_row p [] = none
  find_row p (r ∷ rs) = if p r then some r else find_row p rs

  -- `session.scalars(select(...)).all()`.
  unfoldable pub rows_where : (A → Bool) → List A → List A
  rows_where p [] = []
  rows_where p (r ∷ rs) = let rest = rows_where p rs in if p r then r ∷ rest else rest

  -- Attributes assigned on a loaded row.
  unfoldable pub update_row : (A → Bool) → (A → A) → List A → List A
  update_row p f [] = []
  update_row p f (r ∷ rs) = if p r then f r ∷ rs else r ∷ update_row p f rs

  -- `session.add(row)`.
  unfoldable pub add_row : A → List A → List A
  add_row r rs = rs ++ r ∷ []

  -- `session.execute(delete(...).where(...))`.
  unfoldable pub delete_where : (A → Bool) → List A → List A
  delete_where p [] = []
  delete_where p (r ∷ rs) = let rest = delete_where p rs in if p r then rest else r ∷ rest
