-- ===== src/Sql/Memory.antt =====
-- A database in memory, a list of rows for each table: the statements of `Sql` can be met.
use medusa_multi_tenancy.Prelude.{
  ◌+◌, ◌≡◌, refl, sym, ◌∙◌, Bool, not, ◌&&◌, List, [], ◌∷◌, length, count, filter, count-filter,
  length-filter, if◌then◌else◌, one_if, arith,
}
use medusa_multi_tenancy.Sql.{Sql}

module _ {Row : Type 0} where
  unfoldable pub update_rows : (Row → Bool) → (Row → Row) → List Row → List Row
  update_rows q f [] = []
  update_rows q f (r ∷ rs) = (if q r then f r else r) ∷ update_rows q f rs

  pub count-select_rows :
      (p q : Row → Bool) (t : List Row) → count q (filter p t) ≡ length (filter (λ r. p r && q r) t)
  count-select_rows p q t = count-filter p q t ∙ sym (length-filter (λ r. p r && q r) t)

  pub length-insert_rows :
      (p : Row → Bool) (r : Row) (t : List Row)
      → length (filter p (r ∷ t)) ≡ one_if (p r) + length (filter p t)
  length-insert_rows p r t = ground arith

  pub length-update_rows :
      (p q : Row → Bool) (f : Row → Row) (t : List Row)
      → length (filter p (update_rows q f t)) ≡ length (filter (λ r. p (if q r then f r else r)) t)
  unfolding update_rows
  length-update_rows p q f [] = refl
  length-update_rows p q f (r ∷ t) = ground (arith, length-update_rows p q f t)

  pub length-delete_rows :
      (p q : Row → Bool) (t : List Row)
      → length (filter p (filter (λ r. not (q r)) t)) ≡ length (filter (λ r. not (q r) && p r) t)
  length-delete_rows p q [] = refl
  length-delete_rows p q (r ∷ t) = ground (arith, length-delete_rows p q t)

abbrev pub memory : Sql
memory = record {
  Table = List;
  select = filter;
  insert = λ r t. r ∷ t;
  update = update_rows;
  delete = λ q. filter (λ r. not (q r));
  count-select = count-select_rows;
  rows-insert = length-insert_rows;
  rows-update = length-update_rows;
  rows-delete = length-delete_rows;
}
