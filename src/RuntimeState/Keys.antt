-- ===== src/RuntimeState/Keys.antt =====
-- tenant-context/runtime-state.ts: the keys of a tenant, and the test that purging uses.
use Prim.Native.String.{◌++◌ as text_append}
use text.Mathlib.TextLemmas.{append-nil, append_assoc}
use text.Mathlib.TextPositions.{starts_with-append}
use medusa_multi_tenancy.Prelude.{
  ◌≡◌, refl, ap, sym, ◌∙◌, ◌⊎◌, inl, inr, String, Bool, true, false, ◌||◌, List, [], ◌∷◌, arith,
  str_eq, starts_with, eq_refl, Bool-cases,
}
use medusa_multi_tenancy.Prelude.Text.{trim, is_truthy}
use medusa_multi_tenancy.RuntimeState.{
  normalize_tenant_id, join_parts, build_tenant_scoped_key, is_tenant_scoped_key,
}

-- The parts are nothing, or begin with the delimiter.
join_parts-cases :
    (parts : List String)
    → (join_parts parts ≡ "") ⊎ ((rest : String) × (join_parts parts ≡ text_append "::" rest))
unfolding join_parts
join_parts-cases [] = inl refl
join_parts-cases (part ∷ parts) = elim (Bool-cases (is_truthy (trim part))) [
  | inl yes' ↦ inr (text_append (trim part) (join_parts parts), rw yes' refl)
  | inr no' ↦ elim (join_parts-cases parts) [
    | inl e ↦ inl (rw no' e)
    | inr (rest, e) ↦ inr (rest, rw no' e)
  ]
]

key-append :
    (id : String) (parts : List String)
    → build_tenant_scoped_key id parts
      ≡ text_append (build_tenant_scoped_key id []) (join_parts parts)
unfolding build_tenant_scoped_key join_parts
key-append id parts =
    sym (append_assoc "tenant::" (normalize_tenant_id id) (join_parts parts))
    ∙ ap (λ k. text_append (text_append "tenant::" k) (join_parts parts))
        (sym (append-nil (normalize_tenant_id id)))

or_left : (a b : Bool) → a ≡ true → (a || b) ≡ true
or_left true b h = refl
or_left false b h = ground (arith, h)

or_right : (a b : Bool) → b ≡ true → (a || b) ≡ true
or_right true b h = refl
or_right false b h = h

-- Every key that is built for a tenant counts as one of the tenant, whatever its parts.
pub is_tenant_scoped_key-build :
    (id : String) (parts : List String)
    → is_tenant_scoped_key (build_tenant_scoped_key id parts) id ≡ true
unfolding is_tenant_scoped_key
is_tenant_scoped_key-build id parts = elim (join_parts-cases parts) [
  | inl none' ↦
      or_right
        (starts_with (build_tenant_scoped_key id parts)
          (text_append (build_tenant_scoped_key id []) "::"))
        _
        (ap (λ k. str_eq k (build_tenant_scoped_key id []))
            (key-append id parts
              ∙ ap (text_append (build_tenant_scoped_key id [])) none'
              ∙ append-nil (build_tenant_scoped_key id []))
          ∙ eq_refl (build_tenant_scoped_key id []))
  | inr (rest, e) ↦
      or_left _ (str_eq (build_tenant_scoped_key id parts) (build_tenant_scoped_key id [])) (
        ap (λ k. starts_with k (text_append (build_tenant_scoped_key id []) "::"))
          (key-append id parts
            ∙ ap (text_append (build_tenant_scoped_key id [])) e
            ∙ sym (append_assoc (build_tenant_scoped_key id []) "::" rest))
        ∙ starts_with-append (text_append (build_tenant_scoped_key id []) "::") rest)
]
