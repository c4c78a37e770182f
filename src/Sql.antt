-- ===== src/Sql.antt =====
-- The database, as the services use it through knex: tables of rows and the statements on them.
pub mod Rows
pub mod Memory
pub mod Single
use medusa_multi_tenancy.Prelude.{
  ◌+◌, ◌≡◌, Bool, not, ◌&&◌, List, length, count, if◌then◌else◌, one_if,
}

-- Each row type has its tables. A statement takes the `where` condition as a test on rows. The order
-- in which `select` returns rows is not fixed.
pub record Sql : Type 1 where
  pub Table : Type 0 → Type 0
  pub select : {Row : Type 0} → (Row → Bool) → Table Row → List Row
  pub insert : {Row : Type 0} → Row → Table Row → Table Row
  pub update : {Row : Type 0} → (Row → Bool) → (Row → Row) → Table Row → Table Row
  pub delete : {Row : Type 0} → (Row → Bool) → Table Row → Table Row
  -- a `select` returns the rows that meet its condition, each as often as it is stored
  pub count-select :
      {Row : Type 0} (p q : Row → Bool) (t : Table Row)
      → count q (select p t) ≡ length (select (λ r. p r && q r) t)
  pub rows-insert :
      {Row : Type 0} (p : Row → Bool) (r : Row) (t : Table Row)
      → length (select p (insert r t)) ≡ one_if (p r) + length (select p t)
  pub rows-update :
      {Row : Type 0} (p q : Row → Bool) (f : Row → Row) (t : Table Row)
      → length (select p (update q f t)) ≡ length (select (λ r. p (if q r then f r else r)) t)
  pub rows-delete :
      {Row : Type 0} (p q : Row → Bool) (t : Table Row)
      → length (select p (delete q t)) ≡ length (select (λ r. not (q r) && p r) t)
