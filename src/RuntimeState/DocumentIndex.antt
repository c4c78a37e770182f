-- ===== src/RuntimeState/DocumentIndex.antt =====
-- tenant-context/runtime-state.ts: the class `TenantScopedDocumentIndex`. The documents of a tenant
-- stand in a list, in the order in which a `Map` keeps its keys.
use medusa_multi_tenancy.Prelude.{
  ◌<◌, ◌≡◌, refl, ap, ◌∙◌, String, Bool, true, false, not, ◌&&◌, Option, none, some, List, [], ◌∷◌,
  map, filter, length, if◌then◌else◌, arith, str_eq, eq_refl, or_default, Bool-cases,
}
use medusa_multi_tenancy.Prelude.Maps.{Map, set}
use medusa_multi_tenancy.RuntimeState.{normalize_tenant_id}

abbrev pub Documents : Type 0 → Type 0
Documents Document = List (String × Document)

abbrev pub Index : Type 0 → Type 0
Index Document = Map (Documents Document)

-- A call that changes the index.
pub data IndexCall (Document : Type 0) : Type 0 where
  write : String → String → Document → IndexCall Document
  forget : String → IndexCall Document

module _ {Document : Type 0} where
  -- `map.set(id, document)`: an entry that is there keeps its place
  put : String → Document → Documents Document → Documents Document
  put id d [] = (id, d) ∷ []
  put id d ((k, old) ∷ rest) =
      let changed = put id d rest in if str_eq k id then (k, d) ∷ rest else (k, old) ∷ changed

  abbrev pub values : Option (Documents Document) → List Document
  values none = []
  values (some docs) = map (λ e. e.1) docs

  abbrev pub select_rows : Option (Document → Bool) → List Document → List Document
  select_rows none rows = rows
  select_rows (some predicate) rows = filter predicate rows

  unfoldable pub upsert : String → String → Document → Index Document → Index Document
  unfolding put
  upsert tenant_id document_id document index =
      let key = normalize_tenant_id tenant_id in
      set key (put document_id document (or_default (index key) [])) index

  unfoldable pub query : String → Option (Document → Bool) → Index Document → List Document
  query tenant_id predicate index =
      select_rows predicate (values (index (normalize_tenant_id tenant_id)))

  unfoldable pub invalidate_documents : String → Index Document → Index Document
  invalidate_documents tenant_id index key =
      if str_eq (normalize_tenant_id tenant_id) key then none else index key

  abbrev pub call_index : IndexCall Document → Index Document → Index Document
  call_index (write tenant_id document_id document) index =
      upsert tenant_id document_id document index
  call_index (forget tenant_id) index = invalidate_documents tenant_id index

  abbrev pub call_indices : List (IndexCall Document) → Index Document → Index Document
  call_indices [] index = index
  call_indices (c ∷ cs) index = call_indices cs (call_index c index)

  abbrev pub tenant_of : IndexCall Document → String
  tenant_of (write tenant_id _ _) = tenant_id
  tenant_of (forget tenant_id) = tenant_id

  -- The calls are about other tenants.
  abbrev pub spares : String → List (IndexCall Document) → Bool
  spares tenant_id [] = true
  spares tenant_id (c ∷ cs) =
      not (str_eq (normalize_tenant_id (tenant_of c)) (normalize_tenant_id tenant_id))
      && spares tenant_id cs

  call_keeps :
      (c : IndexCall Document) (tenant_id : String) (index : Index Document)
      → str_eq (normalize_tenant_id (tenant_of c)) (normalize_tenant_id tenant_id) ≡ false
      → call_index c index (normalize_tenant_id tenant_id) ≡ index (normalize_tenant_id tenant_id)
  unfolding upsert invalidate_documents
  call_keeps (write t id d) tenant_id index h = rw h refl
  call_keeps (forget t) tenant_id index h = rw h refl

  calls_keep :
      (cs : List (IndexCall Document)) (tenant_id : String) (index : Index Document)
      → spares tenant_id cs ≡ true
      → call_indices cs index (normalize_tenant_id tenant_id)
        ≡ index (normalize_tenant_id tenant_id)
  calls_keep [] tenant_id index h = refl
  calls_keep (c ∷ cs) tenant_id index h =
      calls_keep cs tenant_id (call_index c index) (ground (arith, h))
      ∙ call_keeps c tenant_id index (ground (arith, h))

  -- What a tenant reads from the index does not depend on the calls that name other tenants, whatever
  -- they write or invalidate, and in whatever order.
  pub query_ignores_others :
      (cs : List (IndexCall Document)) (tenant_id : String) (predicate : Option (Document → Bool))
      (index : Index Document)
      → spares tenant_id cs ≡ true
      → query tenant_id predicate (call_indices cs index) ≡ query tenant_id predicate index
  unfolding query
  query_ignores_others cs tenant_id predicate index h =
      ap (λ docs. select_rows predicate (values docs)) (calls_keep cs tenant_id index h)

  put-has :
      (id : String) (d : Document) (p : Document → Bool) (docs : Documents Document)
      → p d ≡ true
      → 0 < length (filter p (map (λ e. e.1) (put id d docs)))
  unfolding put
  put-has id d p [] h = ground (arith, h)
  put-has id d p ((k, old) ∷ rest) h =
      ground (arith, h, put-has id d p rest h, Bool-cases (str_eq k id))

  upsert_found :
      (tenant_id id : String) (d : Document) (p : Document → Bool) (index : Index Document)
      → p d ≡ true
      → 0 < length (query tenant_id (some p) (upsert tenant_id id d index))
  unfolding query upsert
  upsert_found tenant_id id d p index h =
      rw (eq_refl (normalize_tenant_id tenant_id))
        (put-has id d p (or_default (index (normalize_tenant_id tenant_id)) []) h)

  -- A document that has been written is found by every predicate that it meets, after calls that name
  -- other tenants too.
  pub written_is_found :
      (tenant_id id : String) (d : Document) (p : Document → Bool) (cs : List (IndexCall Document))
      (index : Index Document)
      → p d ≡ true
      → spares tenant_id cs ≡ true
      → 0 < length (query tenant_id (some p) (call_indices cs (upsert tenant_id id d index)))
  written_is_found tenant_id id d p cs index h s =
      rw (query_ignores_others cs tenant_id (some p) (upsert tenant_id id d index) s)
        (upsert_found tenant_id id d p index h)
