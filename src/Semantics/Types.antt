-- ===== src/Semantics/Types.antt =====
-- The table of types of `SemanticModel` (src/sema/semantic_model.cc), which keeps one number for each
-- array and each nullable type. A vector's `at` past its end is `none`.
use c_cloth.Base.{
  ℕ, zero, suc, ◌+◌, Bool, false, ◌==◌, ◌&&◌, if◌then◌else◌, List, [], ◌∷◌, ◌++◌, length, get_elem?,
  Option, none, some,
}
use c_cloth.Base.Options.{◌>>=◌, map_some}
use c_cloth.Base.Text.{Bytes, codes, text_eq}
use c_cloth.Numeric.{
  TypeKind, error, bottom, void, null, bool, char, byte, int8, int16, int32, int64, uint8, uint16,
  uint32, uint64, float32, float64, string, object, error_class, array, nullable, same_kind,
}
use c_cloth.Semantics.{SemanticType}

pub record TypeName : Type 0 where
  pub name : Bytes
  pub type : ℕ

-- The fields of `SemanticModel` that the operations on types change.
pub record TypeTable : Type 0 where
  pub types : List SemanticType
  pub value_wrappers : List (Option ℕ)
  pub wrapped_values : List (Option ℕ)
  pub type_names : List TypeName

abbrev pub plain : TypeKind → Bytes → SemanticType
plain kind name = record { kind = kind; name = name; file = none; element_type = none }

unfoldable pub add_type : SemanticType → TypeTable → ℕ × TypeTable
add_type type table = (
  length table.types,
  record {
    types = table.types ++ type ∷ [];
    value_wrappers = table.value_wrappers ++ none ∷ [];
    wrapped_values = table.wrapped_values ++ none ∷ [];
    type_names = table.type_names ++ record { name = type.name; type = length table.types } ∷ [];
  },
)

abbrev pub is_element : Option ℕ → ℕ → Bool
is_element none element = false
is_element (some e) element = e == element

-- The loop over the types from the position `index` on.
unfoldable pub find_element : TypeKind → ℕ → List SemanticType → ℕ → Option ℕ
find_element kind element [] index = none
find_element kind element (type ∷ types) index =
    let later = find_element kind element types (index + 1) in
    if same_kind type.kind kind && is_element type.element_type element then some index else later

abbrev pub type_on : TypeKind → Bytes → ℕ → SemanticType → SemanticType
type_on kind suffix element type = record {
  kind = kind;
  name = type.name ++ suffix;
  file = none;
  element_type = some element;
}

-- The number of a type of the kind on an element, and the type where there is none.
unfoldable pub get_type_on : TypeKind → Bytes → ℕ → TypeTable → Option (ℕ × TypeTable)
unfolding find_element add_type
get_type_on kind suffix element table =
    let added =
      map_some (λ type. add_type (type_on kind suffix element type) table)
        (get_elem? table.types element) in
    elim (find_element kind element table.types 0) [
      | some index ↦ some (index, table)
      | none ↦ added
    ]

unfoldable pub get_array_type : ℕ → TypeTable → Option (ℕ × TypeTable)
unfolding get_type_on
get_array_type element table = get_type_on array (codes "[]") element table

unfoldable pub get_nullable_type : ℕ → TypeTable → Option (ℕ × TypeTable)
unfolding get_type_on
get_nullable_type underlying table =
    let found = get_type_on nullable (codes "?") underlying table in
    get_elem? table.types underlying >>= λ type.
    if same_kind type.kind nullable then some (underlying, table) else found

unfoldable pub add_type_alias : Bytes → ℕ → TypeTable → TypeTable
add_type_alias name type table = record table {
  type_names = table.type_names ++ record { name = name; type = type } ∷ [];
}

-- A vector with the element at a position changed.
unfoldable pub modify_at {ℓ} : {A : Type ℓ} → (A → A) → ℕ → List A → Option (List A)
modify_at f index [] = none
modify_at f zero (x ∷ xs) = some (f x ∷ xs)
modify_at f (suc index) (x ∷ xs) = map_some (λ rest. x ∷ rest) (modify_at f index xs)

unfoldable pub bind_value_wrapper : ℕ → ℕ → TypeTable → Option TypeTable
unfolding modify_at
bind_value_wrapper value_type wrapper_type table = do
  wrappers ← modify_at (λ old. some wrapper_type) value_type table.value_wrappers
  values ← modify_at (λ old. some value_type) wrapper_type table.wrapped_values
  some (record table { value_wrappers = wrappers; wrapped_values = values })

unfoldable pub value_wrapper : ℕ → TypeTable → Option ℕ
value_wrapper type table = get_elem? table.value_wrappers type >>= λ wrapper. wrapper

unfoldable pub wrapped_value : ℕ → TypeTable → Option ℕ
wrapped_value type table = get_elem? table.wrapped_values type >>= λ value. value

unfoldable pub find_name : Bytes → List TypeName → Option ℕ
unfolding text_eq
find_name name [] = none
find_name name (entry ∷ names) =
    if text_eq entry.name name then some entry.type else find_name name names

unfoldable pub find_type : Bytes → TypeTable → Option ℕ
unfolding find_name
find_type name table = find_name name table.type_names

-- What the analyzer does with `mutable_type`.
unfoldable pub set_type_file : ℕ → ℕ → TypeTable → Option TypeTable
unfolding modify_at
set_type_file type file table =
    map_some (λ types. record table { types = types })
      (modify_at (λ old. record old { file = some file }) type table.types)

unfoldable pub add_types : List (TypeKind × Bytes) → TypeTable → TypeTable
unfolding add_type
add_types [] table = table
add_types (type ∷ types) table = add_types types (add_type (plain type.0 type.1) table).1

abbrev pub core_types : List (TypeKind × Bytes)
core_types =
    (error, codes "<error>")
    ∷ (bottom, codes "<bottom>")
    ∷ (void, codes "void")
    ∷ (null, codes "null")
    ∷ (bool, codes "bool")
    ∷ (char, codes "char")
    ∷ (byte, codes "byte")
    ∷ (int8, codes "int8")
    ∷ (int16, codes "int16")
    ∷ (int32, codes "int32")
    ∷ (int64, codes "int64")
    ∷ (uint8, codes "uint8")
    ∷ (uint16, codes "uint16")
    ∷ (uint32, codes "uint32")
    ∷ (uint64, codes "uint64")
    ∷ (float32, codes "float32")
    ∷ (float64, codes "float64")
    ∷ (string, codes "string")
    ∷ (object, codes "object")
    ∷ (error_class, codes "Error")
    ∷ (error_class, codes "DivisionByZero")
    ∷ []

abbrev pub empty_table : TypeTable
empty_table = record { types = []; value_wrappers = []; wrapped_values = []; type_names = [] }

unfoldable pub with_aliases : TypeTable → TypeTable
unfolding add_type_alias
with_aliases table =
    add_type_alias (codes "float") 15
      (add_type_alias (codes "uint") 13 (add_type_alias (codes "int") 9 table))

-- The table that the constructor of `SemanticModel` fills: the types, the nullable types of `Error`
-- (19) and `object` (18), and the aliases of `int32` (9), `uint32` (13) and `float32` (15).
unfoldable pub core_table : Option TypeTable
unfolding add_types get_nullable_type with_aliases
core_table = get_nullable_type 19 (add_types core_types empty_table) >>= λ errors.
    map_some (λ objects. objects.1) (get_nullable_type 18 (with_aliases errors.1))
