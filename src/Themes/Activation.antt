-- ===== src/Themes/Activation.antt =====
-- Which themes are active after an upload.
use medusa_multi_tenancy.Prelude.{
  ap, ℕ, zero, suc, ◌<◌, ◌⊎◌, ◌∙◌, ◌≡◌, refl, String, Bool, none, some, true, false, ◌&&◌, arith,
  str_eq, eq_iff, eq_refl, Bool-cases, inl, inr, if◌then◌else◌,
}
use medusa_multi_tenancy.Schema.{ThemeMetadata}
use medusa_multi_tenancy.Sql.Rows.{
  rows, first, first_of_none, first_of_pos, rows_congr, rows_mono, rows_none,
}
use medusa_multi_tenancy.World.{Env, Exec, World, transaction, Result, ok, thrown, theme_slug_taken}
use medusa_multi_tenancy.World.Runs.{bind-ok, bind-thrown, transaction-ok, transaction-thrown}
use medusa_multi_tenancy.Themes.{
  UploadInput, Theme, has_theme_slug, is_active_theme, new_theme, deactivated, get_theme_by_id,
  write_upload, insert_theme, write_theme_rows, upload_and_activate_theme,
}

module _ (env : Env) (input : UploadInput) (w : World env) where
  abbrev uploaded : ThemeMetadata
  uploaded = new_theme (env.random_uuid w.drawn) input w.now

  abbrev others : env.sql.Table ThemeMetadata
  others = env.sql.update (λ t. str_eq t.tenant_id input.tenant_id) (deactivated w.now) w.themes

  abbrev pub upload : Result Theme × World env
  upload = upload_and_activate_theme env input w

  -- the tenant's themes with the slug
  abbrev pub taken : ThemeMetadata → Bool
  taken = has_theme_slug input.tenant_id input.slug

  -- Switching themes off leaves their slugs.
  same_slugs : rows env.sql taken others ≡ rows env.sql taken w.themes
  same_slugs =
      env.sql.rows-update taken (λ t. str_eq t.tenant_id input.tenant_id) (deactivated w.now)
        w.themes
      ∙ rows_congr env.sql
          (λ t. taken (if str_eq t.tenant_id input.tenant_id then deactivated w.now t else t)) taken
          w.themes (λ t. ground arith)

  abbrev begun : World env
  begun = record w { drawn = suc w.drawn }

  abbrev stored : World env
  stored =
      (write_theme_rows env input (env.random_uuid w.drawn)
        (record begun { themes = env.sql.insert uploaded others })).1

  inserts :
      (w' : World env)
      → first env.sql taken w'.themes ≡ none
      → insert_theme env uploaded w'
        ≡ (ok tt, record w' { themes = env.sql.insert uploaded w'.themes })
  inserts w' free = rw free refl

  refuses_row :
      (w' : World env) {t : ThemeMetadata}
      → first env.sql taken w'.themes ≡ some t
      → insert_theme env uploaded w' ≡ (thrown theme_slug_taken, w')
  refuses_row w' there = rw there refl

  writes :
      first env.sql taken others ≡ none
      → write_upload env input (env.random_uuid w.drawn) begun ≡ (ok tt, stored)
  unfolding write_upload
  writes free =
      bind-ok (λ _. write_theme_rows env input (env.random_uuid w.drawn))
        (insert_theme env uploaded) (record begun { themes = others })
        (inserts (record begun { themes = others }) free)

  abbrev shows : Exec env Theme
  shows = get_theme_by_id env input.tenant_id (env.random_uuid w.drawn)

  returns :
      first env.sql taken others ≡ none
      → ((theme : Theme) × (upload.0 ≡ ok theme))
        × (upload.1.themes ≡ env.sql.insert uploaded others)
  unfolding upload_and_activate_theme get_theme_by_id
  returns free =
      let e =
        bind-ok (λ _. shows) (transaction (write_upload env input (env.random_uuid w.drawn))) begun
          (transaction-ok (write_upload env input (env.random_uuid w.drawn)) begun (writes free)) in
      ((_, ap (λ r. r.0) e), ap (λ r. r.1.themes) e)

  refuses :
      {t : ThemeMetadata}
      → first env.sql taken others ≡ some t
      → upload ≡ (thrown theme_slug_taken, begun)
  unfolding upload_and_activate_theme write_upload
  refuses there =
      let w' : World env = record begun { themes = others } in
      bind-thrown (λ _. shows) (transaction (write_upload env input (env.random_uuid w.drawn)))
        begun
        (transaction-thrown (write_upload env input (env.random_uuid w.drawn)) begun (
          bind-thrown (λ _. write_theme_rows env input (env.random_uuid w.drawn))
            (insert_theme env uploaded) w' (refuses_row w' there)))

  switched_off :
      (p : ThemeMetadata → Bool)
      → ((t : ThemeMetadata) → p t ≡ true → is_active_theme input.tenant_id t ≡ true)
      → rows env.sql p others ≡ 0
  switched_off p only = omega (
    arith,
    rows_mono env.sql p (is_active_theme input.tenant_id) others only,
    env.sql.rows-update (is_active_theme input.tenant_id) (λ t. str_eq t.tenant_id input.tenant_id)
        (deactivated w.now) w.themes,
    rows_none env.sql
        (λ t.
          is_active_theme input.tenant_id
            (if str_eq t.tenant_id input.tenant_id then deactivated w.now t else t))
        w.themes (λ t. ground arith),
  )

  first_true : (a b : Bool) → (a && b) ≡ true → a ≡ true
  first_true a b h = ground (arith, h)

  another :
      (other : String) (t : ThemeMetadata)
      → str_eq input.tenant_id other ≡ false
      → str_eq t.tenant_id input.tenant_id ≡ true
      → str_eq t.tenant_id other ≡ false
  another other t apart own = rw ((eq_iff t.tenant_id input.tenant_id).0 own) apart

  unaffected :
      (other : String)
      → str_eq input.tenant_id other ≡ false
      → (t : ThemeMetadata)
      → is_active_theme other
          (if str_eq t.tenant_id input.tenant_id then deactivated w.now t else t)
        ≡ is_active_theme other t
  unaffected other apart t = elim (Bool-cases (str_eq t.tenant_id input.tenant_id)) [
    | inl own ↦ rw (own, another other t apart own) refl
    | inr foreign ↦ rw foreign refl
  ]

  -- The new theme is the tenant's one active theme, and another tenant has as many as before.
  abbrev pub IsSwitchedOver : String → Type 0
  IsSwitchedOver other =
      ((theme : Theme) × (upload.0 ≡ ok theme))
      × (rows env.sql (is_active_theme input.tenant_id) upload.1.themes ≡ 1)
      × (rows env.sql
            (λ t. is_active_theme input.tenant_id t && str_eq t.id (env.random_uuid w.drawn))
            upload.1.themes
          ≡ 1)
      × (rows env.sql (is_active_theme other) upload.1.themes
          ≡ rows env.sql (is_active_theme other) w.themes)

  activates :
      (other : String)
      → str_eq input.tenant_id other ≡ false
      → rows env.sql taken w.themes ≡ 0
      → IsSwitchedOver other
  activates other apart free =
      let p = is_active_theme input.tenant_id in
      let q = λ (t : ThemeMetadata). p t && str_eq t.id (env.random_uuid w.drawn) in
      let none_there = first_of_none env.sql taken others (same_slugs ∙ free) in
      let (result, writing) = returns none_there in
      (
        result,
        rw writing (
            ground (
              arith,
              env.sql.rows-insert p uploaded others,
              switched_off p (λ t h. h),
              eq_refl input.tenant_id,
            )),
        rw writing (
            ground (
              arith,
              env.sql.rows-insert q uploaded others,
              switched_off q (λ t. first_true (p t) _),
              eq_refl input.tenant_id,
              eq_refl (env.random_uuid w.drawn),
            )),
        rw writing (
            ground (
              arith,
              env.sql.rows-insert (is_active_theme other) uploaded others,
              env.sql.rows-update (is_active_theme other) (λ t. str_eq t.tenant_id input.tenant_id)
                  (deactivated w.now) w.themes,
              rows_congr env.sql
                  (λ t.
                    is_active_theme other
                      (if str_eq t.tenant_id input.tenant_id then deactivated w.now t else t))
                  (is_active_theme other) w.themes (unaffected other apart),
              apart,
            )),
      )

  -- An upload of a slug that the tenant has already fails with the error of the unique index, and
  -- changes no table. Any other upload returns; after it the tenant has one active theme, the new one,
  -- and any other tenant has as many active themes as before.
  pub upload_activates_one :
      (other : String)
      → str_eq input.tenant_id other ≡ false
      → ((0 < rows env.sql taken w.themes)
          × (upload ≡ (thrown theme_slug_taken, record w { drawn = suc w.drawn })))
        ⊎ ((rows env.sql taken w.themes ≡ 0) × IsSwitchedOver other)
  upload_activates_one other apart = cases (rows env.sql taken w.themes) refl
    where
      cases :
          (n : ℕ)
          → rows env.sql taken w.themes ≡ n
          → ((0 < rows env.sql taken w.themes)
              × (upload ≡ (thrown theme_slug_taken, record w { drawn = suc w.drawn })))
            ⊎ ((rows env.sql taken w.themes ≡ 0) × IsSwitchedOver other)
      cases zero h = inr (h, activates other apart h)
      cases (suc n) h =
          let (t, there) = first_of_pos env.sql taken others (omega (arith, same_slugs, h)) in
          inl (omega (arith, h), refuses there)
