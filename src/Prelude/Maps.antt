-- ===== src/Prelude/Maps.antt =====
-- JavaScript's `Map` and `Set` with text keys, where the code only looks up, sets and deletes.
use mathlib.Core.Bool.{Bool, false, ◌||◌}
use mathlib.Core.Option.{Option, none, some}
use Prim.Native.String.{String}
use text.Mathlib.Text.{◌==◌ as str_eq}
use medusa_multi_tenancy.Prelude.Tests.{if◌then◌else◌}

abbrev pub Map {ℓ} : Type ℓ → Type ℓ
Map V = String → Option V

abbrev pub KeySet : Type 0
KeySet = String → Bool

abbrev pub keep_if {ℓ} : {V : Type ℓ} → (V → Bool) → Option V → Option V
keep_if p none = none
keep_if p (some v) = if p v then some v else none

module _ {ℓ} {V : Type ℓ} where
  abbrev pub empty_map : Map V
  empty_map k = none

  -- `map.set(key, value)`
  abbrev pub set : String → V → Map V → Map V
  set k v m j = if str_eq k j then some v else m j

  -- a loop over the entries that deletes those whose value fails the test
  abbrev pub retain : (V → Bool) → Map V → Map V
  retain p m j = keep_if p (m j)

  -- a loop over the keys that deletes those that meet the test
  abbrev pub drop_keys : (String → Bool) → Map V → Map V
  drop_keys p m j = if p j then none else m j

abbrev pub empty_set : KeySet
empty_set k = false

-- `set.add(key)`
abbrev pub add : String → KeySet → KeySet
add k s j = str_eq k j || s j
