-- ===== src/Tests/Throws.antt =====
-- Concrete inputs for `callable_uses_error_abi` of src/sema/semantic_model.cc.
use c_cloth.Base.{ℕ, zero, suc, [], ◌∷◌, ◌≡◌, ◌↔◌, refl, some, none, true, false, Option, List}
use c_cloth.Base.Text.{codes}
use c_cloth.Source.{point_range}
use c_cloth.Numeric.{TypeKind}
use c_cloth.Tests.Identities.{point}
use c_cloth.Semantics.{FileTypeKind, SemanticModel, SemanticSymbol, SymbolKind, Visibility}
use c_cloth.Semantics.ErrorAbi.{callable_uses_error_abi}
use c_cloth.Semantics.ErrorAbi.Reaches.{Reaches}
use c_cloth.Semantics.ErrorAbi.Search.{callable_uses_error_abi_iff}

abbrev function : Option ℕ → List ℕ → SemanticSymbol
function overridden_symbol thrown_types = record {
  kind = SymbolKind.function;
  name = codes "f";
  type = 0;
  parameter_types = [];
  visibility = Visibility.public;
  file = some 0;
  range = point_range (record { file = codes "a.co"; byte_offset = 0; line = 1; column = 1 });
  is_valid = true;
  is_static = false;
  is_abstract = false;
  overridden_symbol = overridden_symbol;
  thrown_types = thrown_types;
}

-- The symbols 0 and 1 override each other.
abbrev symbols : ℕ → SemanticSymbol
symbols zero = function (some 1) []
symbols (suc zero) = function (some 0) []
symbols (suc (suc zero)) = function none (5 ∷ [])
symbols (suc (suc (suc n))) = function none []

-- The class of the file 0 implements the interface of the file 1: its symbol 0 stands for the symbol 2,
-- which throws.
abbrev pub semantics : SemanticModel
semantics = record {
  type =
      λ n. record { kind = TypeKind.void; name = codes "void"; file = none; element_type = none };
  type_count = 1;
  symbol = symbols;
  symbol_count = 4;
  file = λ n. record {
    type = 0;
    self_symbol = 0;
    kind = FileTypeKind.class;
    identity = point;
    interface_functions = 3 ∷ 2 ∷ [];
    interface_implementations = record { interface_file = 1; functions = 3 ∷ 0 ∷ [] } ∷ [];
  };
  file_count = 2;
  bottom_type = 0;
  void_type = 0;
  error_type = 0;
  string_type = 0;
}

throwing : callable_uses_error_abi semantics 1 ≡ true
unfolding callable_uses_error_abi
throwing = refl

silent : callable_uses_error_abi semantics 3 ≡ false
unfolding callable_uses_error_abi
silent = refl

callable_uses_error_abi_iff_example :
    (callable_uses_error_abi semantics 1 ≡ true) ↔ Reaches semantics 1
callable_uses_error_abi_iff_example = callable_uses_error_abi_iff semantics 1
