-- ===== src/Tests/Types.antt =====
-- Concrete inputs for the table of types of src/sema/semantic_model.cc.
use c_cloth.Base.{ℕ, ◌≡◌, ◌≤◌, ◌↔◌, refl, length, Option, none, some}
use c_cloth.Base.Text.{codes}
use c_cloth.Semantics.Types.{
  TypeTable, core_table, empty_table, get_array_type, get_nullable_type, find_type, with_aliases,
}
use c_cloth.Semantics.Interned.{IsInterned}
use c_cloth.Semantics.Reachable.{
  Steps, stays, goes, requests_array, requests_nullable, reached-IsInterned,
}
use c_cloth.Semantics.Canonical.{
  get_array_type-eq_iff, get_nullable_type_again, get_array_type-none_iff,
}

abbrev or_empty : Option TypeTable → TypeTable
or_empty none = empty_table
or_empty (some table) = table

abbrev result : Option (ℕ × TypeTable) → TypeTable
result none = empty_table
result (some r) = r.1

abbrev core : TypeTable
unfolding core_table with_aliases
core = or_empty core_table

core-some : core_table ≡ some core
unfolding core_table with_aliases
core-some = refl

abbrev int32 : ℕ
int32 = 9

abbrev int_array : ℕ
int_array = 23

-- `int[]` is the type 23, behind the types of the constructor.
abbrev with_array : TypeTable
unfolding core_table with_aliases get_array_type
with_array = result (get_array_type int32 core)

with_array-some : get_array_type int32 core ≡ some (int_array, with_array)
unfolding core_table with_aliases get_array_type
with_array-some = refl

-- `int[]?` is the type 24.
abbrev with_nullable : TypeTable
unfolding core_table with_aliases get_array_type get_nullable_type
with_nullable = result (get_nullable_type 23 with_array)

with_nullable-some : get_nullable_type 23 with_array ≡ some (24, with_nullable)
unfolding core_table with_aliases get_array_type get_nullable_type
with_nullable-some = refl

again-some : get_array_type int32 with_nullable ≡ some (int_array, with_nullable)
unfolding core_table with_aliases get_array_type get_nullable_type
again-some = refl

aliases : (find_type (codes "int") core ≡ some 9) × (find_type (codes "int32") core ≡ some 9)
unfolding core_table with_aliases find_type
aliases = (refl, refl)

nullable_step : Steps with_array with_nullable
nullable_step = goes (requests_nullable 23 with_array with_nullable-some) (stays with_nullable)

reached-IsInterned_example : IsInterned with_nullable.types
reached-IsInterned_example =
    reached-IsInterned core-some (goes (requests_array 9 core with_array-some) nullable_step)

core-IsInterned : IsInterned core.types
core-IsInterned = reached-IsInterned core-some (stays core)

array-IsInterned : IsInterned with_array.types
array-IsInterned =
    reached-IsInterned core-some (goes (requests_array 9 core with_array-some) (stays with_array))

get_array_type-eq_iff_example : (int_array ≡ int_array) ↔ (int32 ≡ int32)
get_array_type-eq_iff_example =
    get_array_type-eq_iff int32 int32 core core-IsInterned with_array-some nullable_step again-some

get_nullable_type_again_example : get_nullable_type 24 with_nullable ≡ some (24, with_nullable)
get_nullable_type_again_example =
    get_nullable_type_again 23 with_array array-IsInterned with_nullable-some (stays with_nullable)

get_array_type-none_iff_example : (get_array_type 40 core ≡ none) ↔ (length core.types ≤ 40)
get_array_type-none_iff_example = get_array_type-none_iff 40 core core-IsInterned
