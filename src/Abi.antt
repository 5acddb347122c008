-- ===== src/Abi.antt =====
-- src/abi/abi.cc: the storage of types, and below the layouts of files.
pub mod Laid
pub mod Layout
pub mod Callables
pub mod Boxes
pub mod Checked
pub mod Placed
pub mod Steps
pub mod Fields
pub mod LaidOut
use Prim.Native.Nat.{bit_and}
use c_cloth.Base.{
  ℕ, zero, suc, ◌+◌, ◌-◌, ◌*◌, Bool, true, false, ◌==◌, ltb, not, ◌||◌, ◌&&◌, if◌then◌else◌, List,
  [], ◌∷◌, Option, none, some,
}
use c_cloth.Base.Options.{◌>>=◌}
use c_cloth.Base.Words.{u64_max}
use c_cloth.Numeric.{
  TypeKind, error, bottom, void, null, bool, char, byte, int8, int16, int32, int64, uint8, uint16,
  uint32, uint64, float32, float64, string, object, error_class, file_class, interface, array,
  nullable, enum, struct, same_kind,
}
use c_cloth.Target.{SizeAlignment, TargetDataLayout, is_power_of_two}
use c_cloth.Semantics.{SemanticType, SemanticModel, Visibility, public, private}

pub data AbiTypeKind : Type 0 where
  invalid_kind void_kind integer_kind float_kind reference_kind aggregate_kind : AbiTypeKind

pub record AbiTypeLayout : Type 0 where
  pub type : ℕ
  pub kind : AbiTypeKind
  pub bit_width : ℕ
  pub storage : SizeAlignment
  pub reference_offsets : List ℕ

unfoldable pub checked_add : ℕ → ℕ → Option ℕ
checked_add left right = if ltb (u64_max - right) left then none else some (left + right)

unfoldable pub checked_align : ℕ → ℕ → Option ℕ
unfolding is_power_of_two checked_add
checked_align value alignment =
    if not (is_power_of_two alignment)
    then none
    else checked_add value (alignment - 1) >>= λ padded.
        some (bit_and padded (u64_max - (alignment - 1)))

abbrev pub pointer_bit_width : TargetDataLayout → ℕ
pointer_bit_width target = target.pointer.size * 8

unfoldable pub make_type_layout : ℕ → AbiTypeKind → ℕ → ℕ → ℕ → AbiTypeLayout
make_type_layout type kind bit_width size alignment = record {
  type = type;
  kind = kind;
  bit_width = bit_width;
  storage = record { size = size; alignment = alignment };
  reference_offsets = offsets kind;
}
  where
    offsets : AbiTypeKind → List ℕ
    offsets reference_kind = 0 ∷ []
    offsets _ = []

unfoldable pub is_reference_kind : TypeKind → Bool
is_reference_kind string = true
is_reference_kind object = true
is_reference_kind error_class = true
is_reference_kind file_class = true
is_reference_kind interface = true
is_reference_kind array = true
is_reference_kind _ = false

unfoldable pub is_reference_type : ℕ → SemanticModel → Bool
unfolding is_reference_kind
is_reference_type type semantics = is_reference_kind (semantics.type type).kind

unfoldable pub is_nullable_value : ℕ → SemanticModel → Bool
unfolding is_reference_type
is_nullable_value type semantics =
    let has_value = elim ((semantics.type type).element_type) as (λ x. Bool) [
      | none ↦ false
      | some element ↦ not (is_reference_type element semantics)
    ] in
    same_kind (semantics.type type).kind nullable && has_value

unfoldable pub inline_struct_type : ℕ → SemanticModel → Option ℕ
inline_struct_type type semantics =
    let value = semantics.type type in
    let element = value.element_type >>= λ e.
    if same_kind (semantics.type e).kind struct then some e else none in
    if same_kind value.kind struct
    then some type
    else if same_kind value.kind nullable
    then element
    else none

-- The references of a value at an offset.
unfoldable pub shift_references : ℕ → List ℕ → Option (List ℕ)
unfolding checked_add
shift_references payload [] = some []
shift_references payload (offset ∷ offsets) = do
  shifted ← checked_add payload offset
  rest ← shift_references payload offsets
  some (shifted ∷ rest)

abbrev pub has_no_storage : AbiTypeKind → Bool
has_no_storage invalid_kind = true
has_no_storage void_kind = true
has_no_storage _ = false

unfoldable pub lower_nullable_value_layout : ℕ → AbiTypeLayout → Option AbiTypeLayout
unfolding checked_align checked_add shift_references is_power_of_two
lower_nullable_value_layout type element =
    if has_no_storage element.kind
      || element.storage.size == 0
      || not (is_power_of_two element.storage.alignment)
    then none
    else do
      payload ← checked_align 1 element.storage.alignment
      end ← checked_add payload element.storage.size
      size ← checked_align end element.storage.alignment
      references ← shift_references payload element.reference_offsets
      some (record {
        type = type;
        kind = aggregate_kind;
        bit_width = 0;
        storage = record { size = size; alignment = element.storage.alignment };
        reference_offsets = references;
      })

-- `types` has the layouts that are known so far.
unfoldable pub lower_nullable_type :
    ℕ → Option ℕ → SemanticModel → (ℕ → Option AbiTypeLayout) → TargetDataLayout → AbiTypeLayout
unfolding make_type_layout is_reference_type lower_nullable_value_layout
lower_nullable_type type none semantics types target = make_type_layout type invalid_kind 0 0 1
lower_nullable_type type (some element) semantics types target =
    let lowered = types element >>= lower_nullable_value_layout type in
    if is_reference_type element semantics
    then make_type_layout type reference_kind (pointer_bit_width target) target.pointer.size
        target.pointer.alignment
    else elim lowered as (λ x. AbiTypeLayout) [
      | none ↦ make_type_layout type aggregate_kind 0 0 1
      | some layout ↦ layout
    ]

unfoldable pub lower_kind :
    TypeKind
    → ℕ
    → Option ℕ
    → SemanticModel
    → (ℕ → Option AbiTypeLayout)
    → TargetDataLayout
    → AbiTypeLayout
unfolding make_type_layout lower_nullable_type
lower_kind error type element semantics types target = make_type_layout type invalid_kind 0 0 1
lower_kind bottom type element semantics types target = make_type_layout type invalid_kind 0 0 1
lower_kind struct type element semantics types target = make_type_layout type aggregate_kind 0 0 1
lower_kind void type element semantics types target = make_type_layout type void_kind 0 0 1
lower_kind nullable type element semantics types target =
    lower_nullable_type type element semantics types target
lower_kind bool type element semantics types target = make_type_layout type integer_kind 1 1 1
lower_kind char type element semantics types target = make_type_layout type integer_kind 32 4 4
lower_kind byte type element semantics types target = make_type_layout type integer_kind 8 1 1
lower_kind int8 type element semantics types target = make_type_layout type integer_kind 8 1 1
lower_kind uint8 type element semantics types target = make_type_layout type integer_kind 8 1 1
lower_kind int16 type element semantics types target = make_type_layout type integer_kind 16 2 2
lower_kind uint16 type element semantics types target = make_type_layout type integer_kind 16 2 2
lower_kind int32 type element semantics types target = make_type_layout type integer_kind 32 4 4
lower_kind uint32 type element semantics types target = make_type_layout type integer_kind 32 4 4
lower_kind enum type element semantics types target = make_type_layout type integer_kind 32 4 4
lower_kind int64 type element semantics types target =
    make_type_layout type integer_kind 64 8 target.int64_alignment
lower_kind uint64 type element semantics types target =
    make_type_layout type integer_kind 64 8 target.int64_alignment
lower_kind float32 type element semantics types target = make_type_layout type float_kind 32 4 4
lower_kind float64 type element semantics types target =
    make_type_layout type float_kind 64 8 target.float64_alignment
lower_kind _ type element semantics types target =
    make_type_layout type reference_kind (pointer_bit_width target) target.pointer.size
      target.pointer.alignment

unfoldable pub lower_type :
    ℕ → SemanticType → SemanticModel → (ℕ → Option AbiTypeLayout) → TargetDataLayout → AbiTypeLayout
unfolding lower_kind
lower_type type semantic_type semantics types target =
    lower_kind semantic_type.kind type semantic_type.element_type semantics types target

pub data AbiLinkage : Type 0 where
  internal external : AbiLinkage

unfoldable pub lower_linkage : Visibility → AbiLinkage
lower_linkage public = external
lower_linkage private = internal
