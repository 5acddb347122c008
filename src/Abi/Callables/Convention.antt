-- ===== src/Abi/Callables/Convention.antt =====
-- The calling convention of `lower_callable` (src/abi/abi.cc): what is passed and given in memory is what the
-- storage of types makes an aggregate, and the parameters are the ones that the modes say.
use mathlib.Core.Path.{subst}
use c_cloth.Base.{
  ℕ, ◌≡◌, ◌≢◌, ◌↔◌, refl, sym, ap, ◌∙◌, inl, inr, Bool, true, false, ◌||◌, ◌&&◌, not, List, [], ◌∷◌,
  ◌++◌, map, if◌then◌else◌, Option, some, none, All, Bool-cases,
}
use c_cloth.Base.Options.{>>=-eq-some, some-inj}
use c_cloth.Target.{TargetDataLayout}
use c_cloth.Semantics.{SemanticModel, FileSemantics, SemanticSymbol, struct}
use c_cloth.Semantics.ErrorAbi.{callable_uses_error_abi}
use c_cloth.Semantics.ErrorAbi.Reaches.{Reaches}
use c_cloth.Semantics.ErrorAbi.Search.{callable_uses_error_abi_iff}
use c_cloth.Abi.{AbiTypeLayout}
use c_cloth.Abi.Laid.{is_struct}
use c_cloth.Abi.Callables.Memory.{InMemory, is_aggregate-InMemory}
use c_cloth.Abi.Callables.{
  AbiCallableKind, AbiParameterKind, result, receiver, explicit, direct, value_pointer,
  result_pointer, AbiReturnMode, direct_return, void_return, indirect_return, AbiReceiverMode,
  reference, read_only_value, AbiParameter, AbiCallable, MirCallable, is_constructor, is_aggregate,
  return_mode_of, receiver_mode_of, result_parameter, receiver_parameter, explicit_parameter,
  lower_callable, mangle_abi_symbol, initializer_name,
}
use c_cloth.Abi.Callables.Modes.{
  HasReceiver, receiver-HasReceiver, is_struct-eq, is_struct-ne, IsReturned, not-InMemory,
  return_mode-IsReturned,
}

abbrev pub is_result : AbiParameterKind → Bool
is_result result = true
is_result _ = false

abbrev pub is_receiver : AbiParameterKind → Bool
is_receiver receiver = true
is_receiver _ = false

abbrev pub has : (AbiParameterKind → Bool) → List AbiParameter → Bool
has test [] = false
has test (p ∷ parameters) = test p.kind || has test parameters

-- The symbols of the parameters that the source names.
abbrev pub explicit_symbols : List AbiParameter → List (Option ℕ)
explicit_symbols [] = []
explicit_symbols (p ∷ parameters) = elim (p.kind) as (λ x. List (Option ℕ)) [
  | explicit ↦ p.symbol ∷ explicit_symbols parameters
  | result ↦ explicit_symbols parameters
  | receiver ↦ explicit_symbols parameters
]

abbrev pub is_indirect : AbiReturnMode → Bool
is_indirect indirect_return = true
is_indirect _ = false

-- The function is called on a value that exists.
abbrev pub has_receiver : AbiReceiverMode → Bool
has_receiver reference = true
has_receiver read_only_value = true
has_receiver _ = false

module _ (semantics : SemanticModel) (types : ℕ → Option AbiTypeLayout)
    (target : TargetDataLayout) where
  -- A parameter of a callable of a file: a value of the source, in memory or not, the place of a result,
  -- and the object or the struct that a function is called on.
  pub data IsParameter (file : FileSemantics) (return_type : ℕ) : AbiParameter → Type 0 where
    by_value :
        (symbol : ℕ)
        → ¬ InMemory semantics types target (semantics.symbol symbol).type
        → IsParameter file return_type (record {
          kind = explicit;
          symbol = some symbol;
          type = (semantics.symbol symbol).type;
          passing = direct;
        })
    by_pointer :
        (symbol : ℕ)
        → InMemory semantics types target (semantics.symbol symbol).type
        → IsParameter file return_type (record {
          kind = explicit;
          symbol = some symbol;
          type = (semantics.symbol symbol).type;
          passing = value_pointer;
        })
    for_result :
        IsParameter file return_type
          (record { kind = result; symbol = none; type = return_type; passing = result_pointer })
    on_object :
        file.kind ≢ struct
        → IsParameter file return_type (record {
          kind = receiver;
          symbol = some file.self_symbol;
          type = file.type;
          passing = direct;
        })
    on_struct :
        file.kind ≡ struct
        → IsParameter file return_type (record {
          kind = receiver;
          symbol = some file.self_symbol;
          type = file.type;
          passing = value_pointer;
        })

  abbrev pub result_type : AbiCallableKind → FileSemantics → SemanticSymbol → ℕ
  result_type AbiCallableKind.constructor file symbol = file.type
  result_type AbiCallableKind.function file symbol = symbol.type

  pub record IsConvention (m : MirCallable) (kind : AbiCallableKind) (file : FileSemantics)
      (c : AbiCallable) : Type 0 where
    pub passed : All (IsParameter file c.return_type) c.parameters
    pub typed : c.return_type ≡ result_type kind file (semantics.symbol m.symbol)
    pub errors : (c.uses_error_abi ≡ true) ↔ Reaches semantics m.symbol
    pub returned : IsReturned semantics types target c.return_type c.uses_error_abi c.return_mode
    pub receives : HasReceiver kind file.kind (semantics.symbol m.symbol).is_static c.receiver_mode
    pub result_given : has is_result c.parameters ≡ is_indirect c.return_mode
    pub receiver_given : has is_receiver c.parameters ≡ has_receiver c.receiver_mode
    pub explicit_given : explicit_symbols c.parameters ≡ map some m.parameters

  -- What the parameters that the source names are like.
  has-explicit :
      (test : AbiParameterKind → Bool) (symbols : List ℕ)
      → test explicit ≡ false
      → has test (map (explicit_parameter semantics) symbols) ≡ false
  unfolding explicit_parameter
  has-explicit test [] h = refl
  has-explicit test (s ∷ symbols) h = rw h (has-explicit test symbols h)

  explicit_symbols-explicit :
      (symbols : List ℕ)
      → explicit_symbols (map (explicit_parameter semantics) symbols) ≡ map some symbols
  unfolding explicit_parameter
  explicit_symbols-explicit [] = refl
  explicit_symbols-explicit (s ∷ symbols) =
      ap (λ rest. some s ∷ rest) (explicit_symbols-explicit symbols)

  explicit-IsParameter :
      (file : FileSemantics) (return_type : ℕ) (symbols : List ℕ)
      → All (IsParameter file return_type) (map (explicit_parameter semantics) symbols)
  unfolding explicit_parameter
  explicit-IsParameter file return_type [] = tt
  explicit-IsParameter file return_type (s ∷ symbols) =
      let type = (semantics.symbol s).type in
      elim (Bool-cases (is_aggregate semantics type)) [
        | inl a ↦ rw a (
          by_pointer s ((is_aggregate-InMemory semantics types target type).0 a),
          explicit-IsParameter file return_type symbols,
        )
        | inr a ↦ rw a (
          by_value s (not-InMemory semantics types target type a),
          explicit-IsParameter file return_type symbols,
        )
      ]

  -- The parameters, by the receiver mode and whether there is a result pointer.
  abbrev Given : FileSemantics → ℕ → List ℕ → AbiReceiverMode → Bool → List AbiParameter → Type 0
  Given file type symbols mode is_given parameters =
      All (IsParameter file type) parameters
      × (has is_receiver parameters ≡ has_receiver mode)
      × (has is_result parameters ≡ is_given)
      × (explicit_symbols parameters ≡ map some symbols)

  only_explicit :
      (file : FileSemantics) (type : ℕ) (symbols : List ℕ) (mode : AbiReceiverMode)
      → has_receiver mode ≡ false
      → Given file type symbols mode false (map (explicit_parameter semantics) symbols)
  only_explicit file type symbols mode h = (
    explicit-IsParameter file type symbols,
    has-explicit is_receiver symbols refl ∙ sym h,
    has-explicit is_result symbols refl,
    explicit_symbols-explicit symbols,
  )

  with_receiver :
      (file : FileSemantics) (type : ℕ) (symbols : List ℕ)
      (is_constructor struct_owner is_static : Bool)
      → is_struct file.kind ≡ struct_owner
      → Given file type symbols
          (receiver_mode_of semantics is_constructor struct_owner is_static)
          false
          (receiver_parameter semantics is_constructor struct_owner is_static file
            ++ map (explicit_parameter semantics) symbols)
  unfolding receiver_parameter receiver_mode_of
  with_receiver file type symbols false true false e =
      let rest = only_explicit file type symbols AbiReceiverMode.no_receiver refl in
      ((on_struct (is_struct-eq file.kind e), rest.0), refl, rest.2, rest.3)
  with_receiver file type symbols false false false e =
      let rest = only_explicit file type symbols AbiReceiverMode.no_receiver refl in
      ((on_object (is_struct-ne file.kind e), rest.0), refl, rest.2, rest.3)
  with_receiver file type symbols false true true e =
      only_explicit file type symbols AbiReceiverMode.no_receiver refl
  with_receiver file type symbols false false true e =
      only_explicit file type symbols AbiReceiverMode.no_receiver refl
  with_receiver file type symbols true true is_static e =
      only_explicit file type symbols AbiReceiverMode.construction refl
  with_receiver file type symbols true false is_static e =
      only_explicit file type symbols AbiReceiverMode.no_receiver refl

  with_result :
      (file : FileSemantics) (symbols : List ℕ) (mode : AbiReceiverMode)
      (return_mode : AbiReturnMode) (type : ℕ) (parameters : List AbiParameter)
      → Given file type symbols mode false parameters
      → Given file type symbols mode
          (is_indirect return_mode)
          (result_parameter semantics return_mode type ++ parameters)
  unfolding result_parameter
  with_result file symbols mode indirect_return type parameters g =
      ((for_result, g.0), g.1, refl, g.3)
  with_result file symbols mode direct_return type parameters g = g
  with_result file symbols mode void_return type parameters g = g

  typed_lem :
      (kind : AbiCallableKind) (file : FileSemantics) (symbol : SemanticSymbol)
      → (if is_constructor kind then file.type else symbol.type) ≡ result_type kind file symbol
  typed_lem AbiCallableKind.constructor file symbol = refl
  typed_lem AbiCallableKind.function file symbol = refl

  -- The convention of a callable that `lower_callable` gives, where "in memory" says that `lower_type`
  -- makes the storage of the type an aggregate. It gives errors exactly where a function that throws can be
  -- reached from it, and its result has the type of the file for a constructor and of the symbol for a
  -- function. A result in memory, or one of a callable that gives errors, is given through a pointer, void
  -- is no result, and another is a value. A function that is not static is called on a reference to an
  -- object or a read-only struct, and a constructor makes a struct in place. The parameters are a pointer for the
  -- result just where it is given so, the object or the pointer to the struct just where there is one to
  -- be called on, and those of the source in their order, by pointer just where they are in memory.
  pub lower_callable-IsConvention :
      (m : MirCallable) (kind : AbiCallableKind) (file : FileSemantics) {c : AbiCallable}
      → lower_callable semantics m kind file ≡ some c
      → IsConvention m kind file c
  unfolding lower_callable
  lower_callable-IsConvention m kind file {c} e =
      let symbol = semantics.symbol m.symbol in
      let (name, p, k) = >>=-eq-some (mangle_abi_symbol symbol semantics) _ e in
      let (initializer, q, l) =
        >>=-eq-some
          (initializer_name semantics (is_constructor kind && not (is_struct file.kind)) symbol) _
          k in
      let struct_owner = is_struct file.kind in
      let type = if is_constructor kind then file.type else symbol.type in
      let uses = callable_uses_error_abi semantics m.symbol in
      let mode = return_mode_of semantics uses type in
      let receiver_mode =
        receiver_mode_of semantics (is_constructor kind) struct_owner symbol.is_static in
      let given = with_result file m.parameters receiver_mode mode type _ (
        with_receiver file type m.parameters (is_constructor kind) struct_owner symbol.is_static
          refl) in
      subst (IsConvention m kind file) (some-inj l) (record {
        passed = given.0;
        typed = typed_lem kind file symbol;
        errors = callable_uses_error_abi_iff semantics m.symbol;
        returned = return_mode-IsReturned semantics types target uses type;
        receives = receiver-HasReceiver semantics kind file.kind symbol.is_static;
        result_given = given.2;
        receiver_given = given.1;
        explicit_given = given.3;
      })
