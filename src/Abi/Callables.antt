-- ===== src/Abi/Callables.antt =====
-- `lower_callable` (src/abi/abi.cc): how a function or a constructor takes its arguments and gives its result.
pub mod Memory
pub mod Modes
pub mod Convention
use c_cloth.Base.{
  ℕ, Bool, true, false, not, ◌||◌, ◌&&◌, if◌then◌else◌, List, [], ◌∷◌, ◌++◌, map, Option, none,
  some,
}
use c_cloth.Base.Options.{◌>>=◌}
use c_cloth.Base.Text.{Bytes}
use c_cloth.Numeric.{TypeKind, same_kind}
use c_cloth.Identity.{CanonicalMemberKind, mangle_canonical_identity}
use c_cloth.Semantics.{SemanticModel, SemanticSymbol, SymbolKind, FileSemantics}
use c_cloth.Semantics.ErrorAbi.{callable_uses_error_abi}
use c_cloth.Semantics.Identities.{canonical_symbol_identity}
use c_cloth.Abi.{AbiLinkage, lower_linkage, is_nullable_value}
use c_cloth.Abi.Laid.{is_struct}

pub data AbiCallableKind : Type 0 where
  function constructor : AbiCallableKind

pub data AbiCallingConvention : Type 0 where
  c : AbiCallingConvention

pub data AbiParameterKind : Type 0 where
  result receiver explicit : AbiParameterKind

pub data AbiPassingMode : Type 0 where
  direct value_pointer result_pointer : AbiPassingMode

pub data AbiReturnMode : Type 0 where
  void_return direct_return indirect_return : AbiReturnMode

pub data AbiReceiverMode : Type 0 where
  no_receiver reference read_only_value construction : AbiReceiverMode

pub record AbiParameter : Type 0 where
  pub kind : AbiParameterKind
  pub symbol : Option ℕ
  pub type : ℕ
  pub passing : AbiPassingMode

pub record AbiCallable : Type 0 where
  pub symbol : ℕ
  pub kind : AbiCallableKind
  pub linkage : AbiLinkage
  pub calling_convention : AbiCallingConvention
  pub mangled_name : Bytes
  pub initializer_mangled_name : Bytes
  pub return_type : ℕ
  pub parameters : List AbiParameter
  pub initializer_linkage : AbiLinkage
  pub return_mode : AbiReturnMode
  pub receiver_mode : AbiReceiverMode
  pub uses_error_abi : Bool

pub record MirCallable : Type 0 where
  pub symbol : ℕ
  pub parameters : List ℕ

abbrev pub is_constructor : AbiCallableKind → Bool
is_constructor constructor = true
is_constructor function = false

abbrev pub symbol_member_kind : SymbolKind → CanonicalMemberKind
symbol_member_kind SymbolKind.constructor = CanonicalMemberKind.constructor
symbol_member_kind _ = CanonicalMemberKind.function

unfoldable pub mangle_abi_symbol : SemanticSymbol → SemanticModel → Option Bytes
unfolding canonical_symbol_identity mangle_canonical_identity
mangle_abi_symbol symbol semantics =
    canonical_symbol_identity symbol semantics (symbol_member_kind symbol.kind) >>= λ identity.
    some (mangle_canonical_identity identity)

unfoldable pub mangle_abi_static_field : SemanticSymbol → SemanticModel → Option Bytes
unfolding canonical_symbol_identity mangle_canonical_identity
mangle_abi_static_field symbol semantics =
    canonical_symbol_identity symbol semantics CanonicalMemberKind.static_field >>= λ identity.
    some (mangle_canonical_identity identity)

unfoldable pub mangle_abi_constructor_initializer : SemanticSymbol → SemanticModel → Option Bytes
unfolding canonical_symbol_identity mangle_canonical_identity
mangle_abi_constructor_initializer symbol semantics =
    canonical_symbol_identity symbol semantics CanonicalMemberKind.constructor_initializer
    >>= λ identity. some (mangle_canonical_identity identity)

module _ (semantics : SemanticModel) where
  -- A value that is passed in memory.
  unfoldable pub is_aggregate : ℕ → Bool
  unfolding is_nullable_value
  is_aggregate type =
      same_kind (semantics.type type).kind TypeKind.struct || is_nullable_value type semantics

  unfoldable pub return_mode_of : Bool → ℕ → AbiReturnMode
  unfolding is_aggregate
  return_mode_of uses_error_abi type =
      let is_void = same_kind (semantics.type type).kind TypeKind.void in
      if uses_error_abi && not is_void
      then indirect_return
      else if is_aggregate type
      then indirect_return
      else if is_void
      then void_return
      else direct_return

  unfoldable pub receiver_mode_of : Bool → Bool → Bool → AbiReceiverMode
  receiver_mode_of is_constructor struct_owner is_static =
      if is_constructor && struct_owner
      then construction
      else if not is_constructor && not is_static
      then (if struct_owner then read_only_value else reference)
      else no_receiver

  unfoldable pub result_parameter : AbiReturnMode → ℕ → List AbiParameter
  result_parameter indirect_return type =
      record { kind = result; symbol = none; type = type; passing = result_pointer } ∷ []
  result_parameter _ type = []

  unfoldable pub receiver_parameter : Bool → Bool → Bool → FileSemantics → List AbiParameter
  receiver_parameter is_constructor struct_owner is_static file =
      let passing = if struct_owner then value_pointer else direct in
      if is_constructor && struct_owner
      then []
      else if not is_constructor && not is_static
      then record {
        kind = receiver;
        symbol = some file.self_symbol;
        type = file.type;
        passing = passing;
      }
        ∷ []
      else []

  unfoldable pub explicit_parameter : ℕ → AbiParameter
  unfolding is_aggregate
  explicit_parameter parameter =
      let type = (semantics.symbol parameter).type in
      record {
        kind = explicit;
        symbol = some parameter;
        type = type;
        passing = if is_aggregate type then value_pointer else direct;
      }

  unfoldable pub initializer_name : Bool → SemanticSymbol → Option Bytes
  unfolding mangle_abi_constructor_initializer
  initializer_name true symbol = mangle_abi_constructor_initializer symbol semantics
  initializer_name false symbol = some []

  -- `none` where a mangled name is.
  unfoldable pub lower_callable : MirCallable → AbiCallableKind → FileSemantics → Option AbiCallable
  unfolding callable_uses_error_abi return_mode_of receiver_mode_of result_parameter
      receiver_parameter explicit_parameter mangle_abi_symbol lower_linkage initializer_name
  lower_callable callable kind file =
      let symbol = semantics.symbol callable.symbol in
      let struct_owner = is_struct file.kind in
      let return_type = if is_constructor kind then file.type else symbol.type in
      let uses_error_abi = callable_uses_error_abi semantics callable.symbol in
      let return_mode = return_mode_of uses_error_abi return_type in
      let initializer = is_constructor kind && not struct_owner in
      let linkage = if initializer then lower_linkage symbol.visibility else AbiLinkage.internal in
      mangle_abi_symbol symbol semantics >>= λ mangled_name.
      initializer_name initializer symbol >>= λ initializer_mangled_name. some (record {
        symbol = callable.symbol;
        kind = kind;
        linkage = lower_linkage symbol.visibility;
        calling_convention = c;
        mangled_name = mangled_name;
        initializer_mangled_name = initializer_mangled_name;
        return_type = return_type;
        parameters =
            result_parameter return_mode return_type
            ++ (receiver_parameter (is_constructor kind) struct_owner symbol.is_static file
                ++ map explicit_parameter callable.parameters);
        initializer_linkage = linkage;
        return_mode = return_mode;
        receiver_mode = receiver_mode_of (is_constructor kind) struct_owner symbol.is_static;
        uses_error_abi = uses_error_abi;
      })
