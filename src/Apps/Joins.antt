-- ===== src/Apps/Joins.antt =====
-- Joins of tables, as the queries of modules/apps/service.ts write them: for each row of one table, the
-- rows of the next that belong to it.
use medusa_multi_tenancy.Prelude.{
  ℕ, zero, suc, ◌+◌, ◌<◌, ◌≡◌, ◌∙◌, refl, sym, ap, ◌⊎◌, inl, inr, Bool, true, false, not, ◌&&◌,
  Option, none, some, List, [], ◌∷◌, ◌++◌, map, length, count, arith, if◌then◌else◌, ltb,
}
use medusa_multi_tenancy.Sql.{Sql}
use medusa_multi_tenancy.Sql.Rows.{rows, rows_none}

module _ {ℓ ℓ'} {A : Type ℓ} {B : Type ℓ'} where
  abbrev pub flat_map : (A → List B) → List A → List B
  flat_map f [] = []
  flat_map f (x ∷ xs) = f x ++ flat_map f xs

module _ {ℓ} {A : Type ℓ} where
  -- the first entry with the greatest number: `ORDER BY ... DESC`, then `.first()`
  abbrev later : (A → ℕ) → A → Option A → A
  later time x none = x
  later time x (some y) = if ltb (time x) (time y) then y else x

  abbrev pub latest : (A → ℕ) → List A → Option A
  latest time [] = none
  latest time (x ∷ xs) = some (later time x (latest time xs))

  -- Every entry passes the test.
  abbrev pub Every : (A → Bool) → List A → Type 0
  Every q xs = count (λ x. not (q x)) xs ≡ 0

  Every-cons : (q : A → Bool) (x : A) (xs : List A) → Every q (x ∷ xs) → (q x ≡ true) × Every q xs
  Every-cons q x xs h = (ground (arith, h), ground (arith, h))

  later-Every :
      (q : A → Bool) (time : A → ℕ) (x : A) (o : Option A)
      → q x ≡ true
      → ((y : A) → o ≡ some y → q y ≡ true)
      → q (later time x o) ≡ true
  later-Every q time x none h hs = h
  later-Every q time x (some y) h hs = ground (arith, h, hs y refl)

  pub latest-Every :
      (q : A → Bool) (time : A → ℕ) (xs : List A) (y : A)
      → Every q xs
      → latest time xs ≡ some y
      → q y ≡ true
  latest-Every q time [] y e h = cc
  latest-Every q time (x ∷ xs) y e h =
      let (first, rest) = Every-cons q x xs e in
      ap q (sym (some_inj h))
      ∙ later-Every q time x (latest time xs) first (λ z. latest-Every q time xs z rest)
    where
      some_inj : {a b : A} → some a ≡ some b → a ≡ b
      some_inj h = cc

  pub latest_of_pos :
      (time : A → ℕ) (xs : List A) → 0 < length xs → (y : A) × (latest time xs ≡ some y)
  latest_of_pos time [] h = absurd (omega arith)
  latest_of_pos time (x ∷ xs) h = (later time x (latest time xs), refl)

  pub Every-append : (q : A → Bool) (xs ys : List A) → Every q xs → Every q ys → Every q (xs ++ ys)
  Every-append q [] ys h h' = h'
  Every-append q (x ∷ xs) ys h h' = ground (arith, h, h', Every-append q xs ys)

  pub length-append : (xs ys : List A) → length (xs ++ ys) ≡ length xs + length ys
  length-append [] ys = omega arith
  length-append (x ∷ xs) ys = omega (arith, length-append xs ys)

module _ {ℓ ℓ'} {A : Type ℓ} {B : Type ℓ'} (f : A → List B) where
  pub flat_map-Every :
      (g : A → Bool) (q : B → Bool) (xs : List A)
      → Every g xs
      → ((x : A) → g x ≡ true → Every q (f x))
      → Every q (flat_map f xs)
  flat_map-Every g q [] e h = refl
  flat_map-Every g q (x ∷ xs) e h =
      let (first, rest) = Every-cons g x xs e in
      Every-append q (f x) (flat_map f xs) (h x first) (flat_map-Every g q xs rest h)

  pub flat_map_pos :
      (g : A → Bool) (xs : List A)
      → Every g xs
      → 0 < length xs
      → ((x : A) → g x ≡ true → 0 < length (f x))
      → 0 < length (flat_map f xs)
  flat_map_pos g [] e p h = absurd (omega arith)
  flat_map_pos g (x ∷ xs) e p h =
      let (first, rest) = Every-cons g x xs e in
      omega (arith, length-append (f x) (flat_map f xs), h x first)

module _ (sql : Sql) {Row : Type 0} (p : Row → Bool) (t : sql.Table Row) where
  pub select-Every :
      (q : Row → Bool) → rows sql (λ r. p r && not (q r)) t ≡ 0 → Every q (sql.select p t)
  select-Every q h = sql.count-select p (λ r. not (q r)) t ∙ h

  and_not_self : (b : Bool) → (b && not b) ≡ false
  and_not_self b = ground arith

  pub select-Every_self : Every p (sql.select p t)
  select-Every_self =
      select-Every p (rows_none sql (λ r. p r && not (p r)) t (λ r. and_not_self (p r)))

module _ {ℓ ℓ'} {A : Type ℓ} {B : Type ℓ'} (b : B) (q : B → Bool) where
  pub Every-map_same : (xs : List A) → q b ≡ true → Every q (map (λ _. b) xs)
  Every-map_same [] h = refl
  Every-map_same (x ∷ xs) h = ground (arith, h, Every-map_same xs h)

  pub Every-map_empty : (xs : List A) → length xs ≡ 0 → Every q (map (λ _. b) xs)
  Every-map_empty [] h = refl
  Every-map_empty (x ∷ xs) h = absurd (omega arith)

pub length-map_same : {A B : Type 0} (b : B) (xs : List A) → length (map (λ _. b) xs) ≡ length xs
length-map_same b [] = refl
length-map_same b (x ∷ xs) = omega (arith, length-map_same b xs)

pub zero_or_pos : (n : ℕ) → (n ≡ 0) ⊎ (0 < n)
zero_or_pos zero = inl refl
zero_or_pos (suc n) = inr (omega arith)
