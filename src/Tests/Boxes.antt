-- ===== src/Tests/Boxes.antt =====
-- Concrete inputs for `lower_value_box_descriptor` of src/abi/abi.cc.
use c_cloth.Base.{[], ◌∷◌, ◌≡◌, refl, some, none, false, Option, arith}
use c_cloth.Target.{llvm_x86_64}
use c_cloth.Abi.{AbiTypeKind, AbiTypeLayout}
use c_cloth.Abi.Boxes.{AbiHeapObjectKind, AbiTypeDescriptor, lower_value_box_descriptor}
use c_cloth.Abi.Boxes.Inside.{Fits, IsInside, lower_value_box_descriptor-IsInside}
use c_cloth.Tests.Throws.{semantics}

-- A struct of a byte and a string.
abbrev pair : AbiTypeLayout
pair = record {
  type = 1;
  kind = AbiTypeKind.aggregate_kind;
  bit_width = 0;
  storage = record { size = 16; alignment = 8 };
  reference_offsets = 8 ∷ [];
}

abbrev nothing : AbiTypeDescriptor
nothing = record {
  kind = AbiHeapObjectKind.value_box;
  parent_file = none;
  name = [];
  size = 0;
  alignment = 1;
  reference_offsets = [];
  virtual_functions = [];
  interfaces = [];
  mangled_name = [];
  parent_is_error_root = false;
  boxed_value_type = none;
  boxed_value_offset = 0;
  uses_value_box_virtuals = false;
}

abbrev or_nothing : Option AbiTypeDescriptor → AbiTypeDescriptor
or_nothing none = nothing
or_nothing (some d) = d

abbrev box : AbiTypeDescriptor
unfolding lower_value_box_descriptor llvm_x86_64
box =
    or_nothing
      (lower_value_box_descriptor 1 pair (semantics.symbol 0) 0 (semantics.file 0) llvm_x86_64)

box-some :
    lower_value_box_descriptor 1 pair (semantics.symbol 0) 0 (semantics.file 0) llvm_x86_64
    ≡ some box
unfolding lower_value_box_descriptor llvm_x86_64
box-some = refl

box-layout : (box.size ≡ 32) × (box.boxed_value_offset ≡ 16) × (box.reference_offsets ≡ 24 ∷ [])
unfolding lower_value_box_descriptor llvm_x86_64
box-layout = (refl, refl, refl)

pair-Fits : Fits pair llvm_x86_64
unfolding llvm_x86_64
pair-Fits = record {
  size = omega arith;
  alignment = omega arith;
  pointer = omega arith;
  references = (omega arith, tt);
}

lower_value_box_descriptor-IsInside_example : IsInside pair llvm_x86_64 box
lower_value_box_descriptor-IsInside_example =
    lower_value_box_descriptor-IsInside 1 pair (semantics.symbol 0) 0 (semantics.file 0) llvm_x86_64
      pair-Fits box-some
