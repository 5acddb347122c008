-- ===== src/Abi/Boxes.antt =====
-- `lower_value_box_descriptor` (src/abi/abi.cc): the layout of a value that is kept as an object.
pub mod Inside
use c_cloth.Base.{
  ℕ, ◌*◌, ◌==◌, max, Bool, true, false, List, [], ◌∷◌, Option, none, some, if◌then◌else◌,
}
use c_cloth.Base.Options.{◌>>=◌}
use c_cloth.Base.Text.{Bytes}
use c_cloth.Target.{TargetDataLayout}
use c_cloth.Identity.{CanonicalMemberKind, canonical_member_identity, mangle_canonical_identity}
use c_cloth.Semantics.{SemanticSymbol, FileSemantics}
use c_cloth.Abi.{AbiTypeLayout, checked_add, checked_align, shift_references}

pub data AbiHeapObjectKind : Type 0 where
  file_class string array error value_box : AbiHeapObjectKind

pub record InterfaceDispatch : Type 0 where
  pub interface_file : ℕ
  pub interface_id : ℕ
  pub functions : List ℕ

pub record AbiTypeDescriptor : Type 0 where
  pub kind : AbiHeapObjectKind
  pub parent_file : Option ℕ
  pub name : Bytes
  pub size : ℕ
  pub alignment : ℕ
  pub reference_offsets : List ℕ
  pub virtual_functions : List ℕ
  pub interfaces : List InterfaceDispatch
  pub mangled_name : Bytes
  pub parent_is_error_root : Bool
  pub boxed_value_type : Option ℕ
  pub boxed_value_offset : ℕ
  pub uses_value_box_virtuals : Bool

unfoldable pub lower_value_box_descriptor :
    ℕ
    → AbiTypeLayout
    → SemanticSymbol
    → ℕ
    → FileSemantics
    → TargetDataLayout
    → Option AbiTypeDescriptor
unfolding checked_add checked_align shift_references canonical_member_identity
    mangle_canonical_identity
lower_value_box_descriptor value_type value_layout symbol object_file file target =
    let header = target.pointer.size * target.object_header_words in
    let alignment = max target.pointer.alignment value_layout.storage.alignment in
    let box = checked_align header value_layout.storage.alignment >>= λ payload.
    checked_add payload value_layout.storage.size >>= λ end. checked_align end alignment >>= λ size.
    shift_references payload value_layout.reference_offsets >>= λ references. some (record {
      kind = value_box;
      parent_file = some object_file;
      name = symbol.name;
      size = size;
      alignment = alignment;
      reference_offsets = references;
      virtual_functions = [];
      interfaces = [];
      mangled_name =
          mangle_canonical_identity
            (canonical_member_identity file.identity CanonicalMemberKind.descriptor [] []);
      parent_is_error_root = false;
      boxed_value_type = some value_type;
      boxed_value_offset = payload;
      uses_value_box_virtuals = true;
    }) in
    if value_layout.storage.size == 0 then none else box
