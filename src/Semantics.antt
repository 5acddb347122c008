-- ===== src/Semantics.antt =====
-- What the phases after the semantic analysis read of its results (include/cloth/sema/semantic_model.h).
-- The numbers of types and symbols that they use are valid there.
pub mod Types
pub mod Elements
pub mod Interned
pub mod Requests
pub mod Reachable
pub mod Canonical
pub mod ErrorAbi
pub mod Identities
use c_cloth.Base.{ℕ, Bool, Option, List}
use c_cloth.Base.Text.{Bytes}
use c_cloth.Source.{SourceRange}
use c_cloth.Numeric.{TypeKind}
use c_cloth.Identity.{NominalIdentity}

pub record SemanticType : Type 0 where
  pub kind : TypeKind
  pub name : Bytes
  pub file : Option ℕ
  pub element_type : Option ℕ

pub data SymbolKind : Type 0 where
  file_class field function constructor parameter local self interface enum enum_case struct error :
      SymbolKind

pub data Visibility : Type 0 where
  public private : Visibility

pub record SemanticSymbol : Type 0 where
  pub kind : SymbolKind
  pub name : Bytes
  pub type : ℕ
  pub parameter_types : List ℕ
  pub visibility : Visibility
  pub file : Option ℕ
  pub range : SourceRange
  pub is_valid : Bool
  pub is_static : Bool
  pub is_abstract : Bool
  pub overridden_symbol : Option ℕ
  pub thrown_types : List ℕ

pub data FileTypeKind : Type 0 where
  class interface enum struct error : FileTypeKind

pub record InterfaceImplementation : Type 0 where
  pub interface_file : ℕ
  pub functions : List ℕ

pub record FileSemantics : Type 0 where
  pub type : ℕ
  pub self_symbol : ℕ
  pub kind : FileTypeKind
  pub identity : NominalIdentity
  pub interface_functions : List ℕ
  pub interface_implementations : List InterfaceImplementation

pub record SemanticModel : Type 0 where
  pub type : ℕ → SemanticType
  pub type_count : ℕ
  pub symbol : ℕ → SemanticSymbol
  pub symbol_count : ℕ
  pub file : ℕ → FileSemantics
  pub file_count : ℕ
  pub bottom_type : ℕ
  pub void_type : ℕ
  pub error_type : ℕ
  pub string_type : ℕ
