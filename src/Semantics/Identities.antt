-- ===== src/Semantics/Identities.antt =====
-- The canonical texts of types and symbols (src/sema/canonical_identity.cc). A text is `none` where the code
-- reads a file or an element that a type or a symbol does not have, which a verified model has.
pub mod Total
use c_cloth.Base.{
  ℕ, zero, suc, ◌<◌, ◌≡◌, Bool, true, false, if◌then◌else◌, List, [], ◌∷◌, Option, none, some,
  arith,
}
use c_cloth.Base.Options.{◌>>=◌, map_some}
use c_cloth.Base.Text.{Bytes, codes}
use c_cloth.Numeric.{
  TypeKind, error, bottom, void, null, bool, char, byte, int8, int16, int32, int64, uint8, uint16,
  uint32, uint64, float32, float64, string, object, error_class, file_class, interface, array,
  nullable, enum, struct,
}
use c_cloth.Identity.{
  CanonicalMemberKind, canonical_nominal_identity, canonical_primitive_identity,
  canonical_array_identity, canonical_nullable_identity, canonical_member_identity,
}
use c_cloth.Semantics.{SemanticModel, SemanticType, SemanticSymbol}

unfoldable pub type_kind_name : TypeKind → Bytes
type_kind_name error = codes "error"
type_kind_name bottom = codes "bottom"
type_kind_name void = codes "void"
type_kind_name null = codes "null"
type_kind_name bool = codes "bool"
type_kind_name char = codes "char"
type_kind_name byte = codes "byte"
type_kind_name int8 = codes "int8"
type_kind_name int16 = codes "int16"
type_kind_name int32 = codes "int32"
type_kind_name int64 = codes "int64"
type_kind_name uint8 = codes "uint8"
type_kind_name uint16 = codes "uint16"
type_kind_name uint32 = codes "uint32"
type_kind_name uint64 = codes "uint64"
type_kind_name float32 = codes "float32"
type_kind_name float64 = codes "float64"
type_kind_name string = codes "string"
type_kind_name object = codes "object"
type_kind_name error_class = codes "error class"
type_kind_name file_class = codes "file class"
type_kind_name interface = codes "interface"
type_kind_name array = codes "array"
type_kind_name nullable = codes "nullable type"
type_kind_name enum = codes "enum"
type_kind_name struct = codes "struct"

pub data TypeIdentityMode : Type 0 where
  semantic overload : TypeIdentityMode

unfoldable pub nullable_identity : TypeIdentityMode → Bytes → Bytes
unfolding canonical_nullable_identity
nullable_identity overload element = element
nullable_identity semantic element = canonical_nullable_identity element

module _ (semantics : SemanticModel) (mode : TypeIdentityMode) where
  unfoldable pub file_identity : Option ℕ → Option Bytes
  unfolding canonical_nominal_identity
  file_identity none = none
  file_identity (some file) = some (canonical_nominal_identity (semantics.file file).identity)

  -- The identity of an `object` or an error class, which have a file where the source declares them.
  unfoldable pub core_identity : Option ℕ → Bytes → Option Bytes
  unfolding canonical_primitive_identity file_identity
  core_identity none name = some (canonical_primitive_identity name)
  core_identity (some file) name = file_identity (some file)

  -- By the kind of the type; `element` is the identity of its element.
  unfoldable pub kind_identity : TypeKind → SemanticType → Option Bytes → Option Bytes
  unfolding canonical_primitive_identity canonical_array_identity file_identity type_kind_name
      core_identity nullable_identity
  kind_identity object value element = core_identity value.file (type_kind_name object)
  kind_identity error_class value element = core_identity value.file value.name
  kind_identity file_class value element = file_identity value.file
  kind_identity interface value element = file_identity value.file
  kind_identity enum value element = file_identity value.file
  kind_identity struct value element = file_identity value.file
  kind_identity array value element = map_some canonical_array_identity element
  kind_identity nullable value element = map_some (nullable_identity mode) element
  kind_identity kind value element = some (canonical_primitive_identity (type_kind_name kind))

  -- The fuel bounds the elements in elements.
  unfoldable pub type_identity : ℕ → ℕ → Option Bytes
  unfolding kind_identity
  type_identity zero type = none
  type_identity (suc fuel) type =
      let value = semantics.type type in
      kind_identity value.kind value (value.element_type >>= type_identity fuel)

  -- An element has a lower number than the type on it, so the number of a type is fuel enough.
  unfoldable pub canonical_type_identity : ℕ → Option Bytes
  unfolding type_identity
  canonical_type_identity type = type_identity (suc type) type

unfoldable pub parameter_identities : SemanticModel → List ℕ → Option (List Bytes)
unfolding canonical_type_identity
parameter_identities semantics [] = some []
parameter_identities semantics (type ∷ types) = do
  identity ← canonical_type_identity semantics overload type
  identities ← parameter_identities semantics types
  some (identity ∷ identities)

unfoldable pub canonical_symbol_identity :
    SemanticSymbol → SemanticModel → CanonicalMemberKind → Option Bytes
unfolding parameter_identities canonical_member_identity
canonical_symbol_identity symbol semantics kind = do
  parameters ← parameter_identities semantics symbol.parameter_types
  file ← symbol.file
  some (canonical_member_identity (semantics.file file).identity kind symbol.name parameters)
