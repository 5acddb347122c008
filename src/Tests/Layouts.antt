-- ===== src/Tests/Layouts.antt =====
-- Concrete inputs for src/abi/abi.cc.
use c_cloth.Base.{[], ◌∷◌, ◌≡◌, ◌≤◌, ℕ, suc, zero, refl, some, none, true, false, arith, List}
use c_cloth.Base.Text.{codes}
use c_cloth.Base.Words.{u64_max}
use c_cloth.Source.{SourceRange, point_range, no_diagnostics}
use c_cloth.Numeric.{TypeKind}
use c_cloth.Target.{llvm_x86_64, is_power_of_two}
use c_cloth.Tests.Identities.{point}
use c_cloth.Semantics.{FileTypeKind, SemanticModel, SymbolKind, Visibility}
use c_cloth.Abi.{AbiTypeLayout, AbiTypeKind, checked_add, checked_align}
use c_cloth.Abi.Laid.{
  ◌>>=◌, ◌>>◌, or_fail, require, MirFileClass, FileLayout, is_struct, max_struct_size,
}
use c_cloth.Abi.Layout.{lower_file_layout}
use c_cloth.Abi.Placed.{Fits64, IsLaidOut}
use c_cloth.Abi.LaidOut.{lower_file_layout-IsLaidOut}

-- Type 0 is a string, type 1 a byte, the others 64-bit integers; symbol `n` is a field of type `n`.
abbrev word : AbiTypeKind → List ℕ → AbiTypeLayout
word kind references = record {
  type = 0;
  kind = kind;
  bit_width = 64;
  storage = record { size = 8; alignment = 8 };
  reference_offsets = references;
}

abbrev types : ℕ → AbiTypeLayout
types zero = word AbiTypeKind.reference_kind (0 ∷ [])
types (suc zero) = record (word AbiTypeKind.integer_kind []) {
  storage = record { size = 1; alignment = 1 };
}
types (suc (suc n)) = word AbiTypeKind.integer_kind []

abbrev here : SourceRange
here = point_range (record { file = codes "a.co"; byte_offset = 0; line = 1; column = 1 })

abbrev semantics : SemanticModel
semantics = record {
  type = λ n. record { kind = TypeKind.int64; name = codes "t"; file = none; element_type = none };
  type_count = 3;
  symbol = λ n. record {
    kind = SymbolKind.field;
    name = codes "f";
    type = n;
    parameter_types = [];
    visibility = Visibility.public;
    file = some 0;
    range = here;
    is_valid = true;
    is_static = false;
    is_abstract = false;
    overridden_symbol = none;
    thrown_types = [];
  };
  symbol_count = 3;
  file = λ n. record {
    type = 0;
    self_symbol = 0;
    kind = FileTypeKind.class;
    identity = point;
    interface_functions = [];
    interface_implementations = [];
  };
  file_count = 1;
  bottom_type = 3;
  void_type = 3;
  error_type = 3;
  string_type = 0;
}

abbrev no_layouts : ℕ → FileLayout
no_layouts n = record {
  storage = record { header_size = 0; size = 0; alignment = 1; fields = [] };
  references = [];
  depth = 0;
}

abbrev boxed : MirFileClass
boxed = record { file = 0; symbol = 3; base_file = none; fields = 1 ∷ 2 ∷ 0 ∷ [] }

abbrev boxed_layout : FileLayout
boxed_layout = record {
  storage = record {
    header_size = 16;
    size = 40;
    alignment = 8;
    fields =
        record { symbol = 1; type = 1; offset = 16 }
        ∷ record { symbol = 2; type = 2; offset = 24 }
        ∷ record { symbol = 0; type = 0; offset = 32 }
        ∷ [];
  };
  references = 32 ∷ [];
  depth = 0;
}

-- A byte at 16, an integer at 24 and a string at 32.
boxed-layout :
    (lower_file_layout semantics types llvm_x86_64 no_layouts FileTypeKind.class boxed
      no_diagnostics).0
    ≡ some boxed_layout
unfolding lower_file_layout llvm_x86_64 ◌>>=◌ ◌>>◌ or_fail require checked_add checked_align
    is_power_of_two
boxed-layout = refl

types-Fits64 : Fits64 types llvm_x86_64
unfolding llvm_x86_64
types-Fits64 = record { alignments = alignments; sizes = sizes; pointer = omega arith }
  where
    alignments : (type : ℕ) → (types type).storage.alignment ≤ u64_max
    alignments zero = omega arith
    alignments (suc zero) = omega arith
    alignments (suc (suc n)) = omega arith

    sizes : (type : ℕ) → (types type).storage.size ≤ u64_max
    sizes zero = omega arith
    sizes (suc zero) = omega arith
    sizes (suc (suc n)) = omega arith

lower_file_layout-IsLaidOut_example :
    IsLaidOut types llvm_x86_64 boxed_layout
    × (is_struct FileTypeKind.class ≡ true → boxed_layout.storage.size ≤ max_struct_size)
unfolding llvm_x86_64
lower_file_layout-IsLaidOut_example =
    lower_file_layout-IsLaidOut semantics types llvm_x86_64 no_layouts FileTypeKind.class boxed
      no_diagnostics types-Fits64 refl tt boxed-layout
