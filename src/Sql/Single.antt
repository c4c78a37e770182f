-- ===== src/Sql/Single.antt =====
-- The one row that a unique condition finds after a write.
use medusa_multi_tenancy.Prelude.{
  ◌≤◌, ◌≡◌, refl, sym, ◌∙◌, Bool, true, false, ◌&&◌, some, one_if, arith, and_true,
}
use medusa_multi_tenancy.Sql.{Sql}
use medusa_multi_tenancy.Sql.Rows.{
  rows, first, first_meets, first_pos, first_of_pos, rows_of_first_unique, rows_mono,
  update-Replaces,
}

one_if-inj : (a b : Bool) → one_if a ≡ one_if b → a ≡ b
one_if-inj true true h = refl
one_if-inj false false h = refl
one_if-inj true false h = absurd (omega arith)
one_if-inj false true h = absurd (omega arith)

both_true : (a b : Bool) → a ≡ true → one_if (a && b) ≡ one_if b
both_true a b h = ground arith

module _ (sql : Sql) {Row : Type 0} (p : Row → Bool) where
  -- The condition finds one row, which no test tells from the given one.
  abbrev pub Finds : sql.Table Row → Row → Type 0
  Finds t r =
      (m : Row) × (first sql p t ≡ some m) × ((q : Row → Bool) → q m ≡ q r) × (rows sql p t ≤ 1)

  found_as :
      (t : sql.Table Row) (r : Row)
      → rows sql p t ≡ 1
      → ((q : Row → Bool) → rows sql (λ x. p x && q x) t ≡ one_if (q r))
      → Finds t r
  found_as t r alone same =
      let (m, found) = first_of_pos sql p t (omega (arith, alone)) in
      (
        m,
        found,
        λ q.
            one_if-inj (q m) (q r)
              (sym (rows_of_first_unique sql p q t found (omega (arith, alone))) ∙ same q),
        omega (arith, alone),
      )

  pub update-Finds :
      (k : Row → Bool) (f : Row → Row) (t : sql.Table Row) {m : Row}
      → first sql p t ≡ some m
      → rows sql p t ≤ 1
      → k m ≡ true
      → rows sql k t ≤ 1
      → p (f m) ≡ true
      → Finds (sql.update k f t) (f m)
  update-Finds k f t {m} found one key u keeps =
      let replaces = update-Replaces sql p k f t found key u in
      found_as (sql.update k f t) (f m)
        (ground (arith, replaces p, one, first_pos sql p t found, first_meets sql p t found, keeps))
        (λ q. omega (
          arith,
          replaces (λ x. p x && q x),
          rows_of_first_unique sql p q t found one,
          both_true (p m) (q m) (first_meets sql p t found),
          both_true (p (f m)) (q (f m)) keeps,
        ))

  pub insert-Finds :
      (r : Row) (t : sql.Table Row) → rows sql p t ≡ 0 → p r ≡ true → Finds (sql.insert r t) r
  insert-Finds r t none meets =
      found_as (sql.insert r t) r (ground (arith, sql.rows-insert p r t, none, meets)) (λ q. omega (
        arith,
        sql.rows-insert (λ x. p x && q x) r t,
        both_true (p r) (q r) meets,
        none,
        rows_mono sql (λ x. p x && q x) p t (λ x h. (and_true (p x) (q x) h).0),
      ))
