-- ===== src/Sql/Rows.antt =====
-- Counting the rows of a table: what the statements do to the number of rows that meet a test.
use medusa_multi_tenancy.Prelude.{
  ℕ, ◌+◌, ◌≤◌, ◌<◌, ◌≡◌, refl, ap, fun_ext, sym, ◌∙◌, Bool, true, false, not, ◌&&◌, List, [], ◌∷◌,
  Option, none, some, length, head?, count, count_false, length-eq-count_add, if◌then◌else◌, one_if,
  arith, and_comm, and_of_imp, and_not,
}
use medusa_multi_tenancy.Sql.{Sql}

module _ (sql : Sql) {Row : Type 0} where
  -- `.count('*')`
  abbrev pub rows : (Row → Bool) → sql.Table Row → ℕ
  rows p t = length (sql.select p t)

  -- `.first()`, with no order given
  abbrev pub first : (Row → Bool) → sql.Table Row → Option Row
  first p t = head? (sql.select p t)

  pub rows_congr :
      (p q : Row → Bool) (t : sql.Table Row) → ((r : Row) → p r ≡ q r) → rows p t ≡ rows q t
  rows_congr p q t h = ap (λ (f : Row → Bool). rows f t) (fun_ext h)

  count-select_comm :
      (p q : Row → Bool) (t : sql.Table Row) → count q (sql.select p t) ≡ rows (λ r. q r && p r) t
  count-select_comm p q t = sql.count-select p q t ∙ rows_congr _ _ t (λ r. and_comm (p r) (q r))

  -- Every condition splits the rows in two.
  pub rows_split :
      (p q : Row → Bool) (t : sql.Table Row)
      → rows p t ≡ rows (λ r. q r && p r) t + rows (λ r. not (q r) && p r) t
  rows_split p q t = omega (
    arith,
    length-eq-count_add q (sql.select p t),
    count-select_comm p q t,
    count-select_comm p (λ r. not (q r)) t,
  )

  pub rows-false : (t : sql.Table Row) → rows (λ _. false) t ≡ 0
  rows-false t =
      sym (sql.count-select (λ _. false) (λ _. false) t) ∙ count_false (sql.select (λ _. false) t)

  pub rows_mono :
      (p q : Row → Bool) (t : sql.Table Row)
      → ((r : Row) → p r ≡ true → q r ≡ true)
      → rows p t ≤ rows q t
  rows_mono p q t h = omega (
    arith,
    rows_split q p t,
    rows_congr (λ r. p r && q r) p t (λ r. and_of_imp (p r) (q r) (h r)),
  )

  -- A test that no row meets.
  pub rows_none : (p : Row → Bool) (t : sql.Table Row) → ((r : Row) → p r ≡ false) → rows p t ≡ 0
  rows_none p t h = rows_congr p (λ _. false) t h ∙ rows-false t

  -- An `update` moves the rows that it changes from one count to another.
  pub rows-update_split :
      (p q : Row → Bool) (f : Row → Row) (t : sql.Table Row)
      → rows p (sql.update q f t) + rows (λ r. q r && p r) t
        ≡ rows p t + rows (λ r. q r && p (f r)) t
  rows-update_split p q f t = omega (
    arith,
    sql.rows-update p q f t,
    rows_split p q t,
    rows_split (λ r. p (if q r then f r else r)) q t,
    rows_congr (λ r. q r && p (if q r then f r else r)) (λ r. q r && p (f r)) t
        (λ r. changed (q r) r),
    rows_congr (λ r. not (q r) && p (if q r then f r else r)) (λ r. not (q r) && p r) t
        (λ r. unchanged (q r) r),
  )
    where
      changed : (b : Bool) (r : Row) → (b && p (if b then f r else r)) ≡ (b && p (f r))
      changed true r = refl
      changed false r = refl

      unchanged : (b : Bool) (r : Row) → (not b && p (if b then f r else r)) ≡ (not b && p r)
      unchanged true r = refl
      unchanged false r = refl

  -- A `delete` takes the rows that it names out of every count.
  pub rows-delete_split :
      (p q : Row → Bool) (t : sql.Table Row)
      → rows p (sql.delete q t) + rows (λ r. q r && p r) t ≡ rows p t
  rows-delete_split p q t = omega (arith, sql.rows-delete p q t, rows_split p q t)

  rows_of_select :
      (p q : Row → Bool) (t : sql.Table Row) {m : Row} {rest : List Row}
      → sql.select p t ≡ m ∷ rest
      → rows (λ r. p r && q r) t ≡ one_if (q m) + count q rest
  rows_of_select p q t {m} {rest} h = sym (sql.count-select p q t) ∙ ap (count q) h

  first-cons : (xs : List Row) {m : Row} → head? xs ≡ some m → (rest : List Row) × (xs ≡ m ∷ rest)
  first-cons [] h = cc
  first-cons (x ∷ xs) h = (xs, cc)

  -- What `first` returns meets the condition.
  pub first_meets : (p : Row → Bool) (t : sql.Table Row) {m : Row} → first p t ≡ some m → p m ≡ true
  first_meets p t {m} h =
      let (rest, e) = first-cons (sql.select p t) h in
      meets (p m) (
        omega (
          arith,
          rows_of_select p (λ r. not (p r)) t e,
          rows_none (λ r. p r && not (p r)) t (λ r. and_not (p r)),
        ))
    where
      meets : (b : Bool) → one_if (not b) ≡ 0 → b ≡ true
      meets true h = refl
      meets false h = absurd (omega arith)

  -- It is one of the rows that meet the condition,
  pub rows_of_first :
      (p q : Row → Bool) (t : sql.Table Row) {m : Row}
      → first p t ≡ some m
      → one_if (q m) ≤ rows (λ r. p r && q r) t
  rows_of_first p q t h =
      let (rest, e) = first-cons (sql.select p t) h in omega (arith, rows_of_select p q t e)

  -- and the only one, where the condition is unique.
  pub rows_of_first_unique :
      (p q : Row → Bool) (t : sql.Table Row) {m : Row}
      → first p t ≡ some m
      → rows p t ≤ 1
      → rows (λ r. p r && q r) t ≡ one_if (q m)
  rows_of_first_unique p q t {m} h u =
      let (rest, e) = first-cons (sql.select p t) h in
      omega (arith, rows_of_select p q t e, alone q rest (omega (arith, ap length e)))
    where
      alone : (q : Row → Bool) (rest : List Row) → length rest ≡ 0 → count q rest ≡ 0
      alone q [] e = refl
      alone q (x ∷ xs) e = absurd (omega arith)

  -- It finds nothing exactly where no row meets the condition.
  pub first-none : (p : Row → Bool) (t : sql.Table Row) → first p t ≡ none → rows p t ≡ 0
  first-none p t h = empty (sql.select p t) h
    where
      empty : (xs : List Row) → head? xs ≡ none → length xs ≡ 0
      empty [] h = refl
      empty (x ∷ xs) h = cc

  pub first_pos : (p : Row → Bool) (t : sql.Table Row) {m : Row} → first p t ≡ some m → 0 < rows p t
  first_pos p t {m} h = let (rest, e) = first-cons (sql.select p t) h in omega (arith, ap length e)

  -- Where a row of the table has a unique key, the key picks that row alone.
  pub rows_of_key :
      (p k q : Row → Bool) (t : sql.Table Row) {m : Row}
      → first p t ≡ some m
      → k m ≡ true
      → rows k t ≤ 1
      → rows (λ r. k r && q r) t ≡ one_if (q m)
  rows_of_key p k q t {m} h key u = ground (
    arith,
    key,
    rows_of_first p (λ r. k r && q r) t h,
    rows_of_first p (λ r. k r && not (q r)) t h,
    rows_mono (λ r. p r && (k r && q r)) (λ r. k r && q r) t (λ r. drop (p r) (k r && q r)),
    rows_mono (λ r. p r && (k r && not (q r))) (λ r. k r && not (q r)) t
        (λ r. drop (p r) (k r && not (q r))),
    rows_split k q t,
    rows_congr (λ r. k r && q r) (λ r. q r && k r) t (λ r. and_comm (k r) (q r)),
    rows_congr (λ r. k r && not (q r)) (λ r. not (q r) && k r) t (λ r. and_comm (k r) (not (q r))),
  )
    where
      drop : (a b : Bool) → (a && b) ≡ true → b ≡ true
      drop true b e = e
      drop false b e = cc

  -- One row is taken out, or put in another's place: what that does to every count.
  abbrev pub Removes : sql.Table Row → sql.Table Row → Row → Type 0
  Removes before after m = (q : Row → Bool) → rows q after + one_if (q m) ≡ rows q before

  abbrev pub Replaces : sql.Table Row → sql.Table Row → Row → Row → Type 0
  Replaces before after m m' =
      (q : Row → Bool) → rows q after + one_if (q m) ≡ rows q before + one_if (q m')

  pub delete-Removes :
      (p k : Row → Bool) (t : sql.Table Row) {m : Row}
      → first p t ≡ some m
      → k m ≡ true
      → rows k t ≤ 1
      → Removes t (sql.delete k t) m
  delete-Removes p k t h key u q =
      omega (arith, rows-delete_split q k t, rows_of_key p k q t h key u)

  pub update-Replaces :
      (p k : Row → Bool) (f : Row → Row) (t : sql.Table Row) {m : Row}
      → first p t ≡ some m
      → k m ≡ true
      → rows k t ≤ 1
      → Replaces t (sql.update k f t) m (f m)
  update-Replaces p k f t h key u q = omega (
    arith,
    rows-update_split q k f t,
    rows_of_key p k q t h key u,
    rows_of_key p k (λ r. q (f r)) t h key u,
  )

  pub first_of_pos :
      (p : Row → Bool) (t : sql.Table Row) → 0 < rows p t → (m : Row) × (first p t ≡ some m)
  first_of_pos p t h = head (sql.select p t) h
    where
      head : (xs : List Row) → 0 < length xs → (m : Row) × (head? xs ≡ some m)
      head [] h = absurd (omega arith)
      head (x ∷ xs) h = (x, refl)

  pub first_of_none : (p : Row → Bool) (t : sql.Table Row) → rows p t ≡ 0 → first p t ≡ none
  first_of_none p t h = empty (sql.select p t) h
    where
      empty : (xs : List Row) → length xs ≡ 0 → head? xs ≡ none
      empty [] h = refl
      empty (x ∷ xs) h = absurd (omega arith)
