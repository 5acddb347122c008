-- ===== src/Abi/Callables/Modes.antt =====
-- How `lower_callable` (src/abi/abi.cc) gives results and receivers.
use c_cloth.Base.{
  ℕ, ◌≡◌, ◌≢◌, refl, ap, inl, inr, Bool, true, false, ◌&&◌, not, Option, arith, Bool-cases,
}
use c_cloth.Numeric.{TypeKind, same_kind, same_kind→eq}
use c_cloth.Target.{TargetDataLayout}
use c_cloth.Semantics.{SemanticModel, FileTypeKind, struct}
use c_cloth.Abi.{AbiTypeLayout}
use c_cloth.Abi.Laid.{is_struct}
use c_cloth.Abi.Callables.Memory.{InMemory, is_aggregate-InMemory}
use c_cloth.Abi.Callables.{
  AbiCallableKind, AbiReturnMode, AbiReceiverMode, is_constructor, is_aggregate, return_mode_of,
  receiver_mode_of,
}

-- The mode of the receiver, by the callable, the kind of its file and whether it is static.
pub data HasReceiver : AbiCallableKind → FileTypeKind → Bool → AbiReceiverMode → Type 0 where
  of_object :
      (k : FileTypeKind)
      → k ≢ struct
      → HasReceiver AbiCallableKind.function k false AbiReceiverMode.reference
  of_struct : HasReceiver AbiCallableKind.function struct false AbiReceiverMode.read_only_value
  of_none :
      (k : FileTypeKind) → HasReceiver AbiCallableKind.function k true AbiReceiverMode.no_receiver
  makes_struct :
      (is_static : Bool)
      → HasReceiver AbiCallableKind.constructor struct is_static AbiReceiverMode.construction
  makes_object :
      (k : FileTypeKind) (is_static : Bool)
      → k ≢ struct
      → HasReceiver AbiCallableKind.constructor k is_static AbiReceiverMode.no_receiver

pub receiver-HasReceiver :
    (semantics : SemanticModel) (kind : AbiCallableKind) (k : FileTypeKind) (is_static : Bool)
    → HasReceiver kind k is_static
        (receiver_mode_of semantics (is_constructor kind) (is_struct k) is_static)
unfolding receiver_mode_of
receiver-HasReceiver semantics AbiCallableKind.function struct false = of_struct
receiver-HasReceiver semantics AbiCallableKind.function struct true = of_none struct
receiver-HasReceiver semantics AbiCallableKind.function k true = of_none k
receiver-HasReceiver semantics AbiCallableKind.function k false = of_object k (λ h. cc)
receiver-HasReceiver semantics AbiCallableKind.constructor struct is_static = makes_struct is_static
receiver-HasReceiver semantics AbiCallableKind.constructor k is_static =
    makes_object k is_static (λ h. cc)

pub is_struct-eq : (k : FileTypeKind) → is_struct k ≡ true → k ≡ struct
is_struct-eq struct h = refl
is_struct-eq _ h = cc

pub is_struct-ne : (k : FileTypeKind) → is_struct k ≡ false → k ≢ struct
is_struct-ne k h e = let i = ap is_struct e in cc

module _ (semantics : SemanticModel) (types : ℕ → Option AbiTypeLayout)
    (target : TargetDataLayout) where
  -- How a result of a type is given, by a callable that gives errors or does not.
  pub data IsReturned (type : ℕ) (errors : Bool) : AbiReturnMode → Type 0 where
    no_result :
        (semantics.type type).kind ≡ TypeKind.void
        → IsReturned type errors AbiReturnMode.void_return
    result_value :
        (semantics.type type).kind ≢ TypeKind.void
        → ¬ InMemory semantics types target type
        → errors ≡ false
        → IsReturned type errors AbiReturnMode.direct_return
    result_in_memory :
        InMemory semantics types target type → IsReturned type errors AbiReturnMode.indirect_return
    result_or_error :
        errors ≡ true
        → (semantics.type type).kind ≢ TypeKind.void
        → IsReturned type errors AbiReturnMode.indirect_return

  pub not-InMemory :
      (type : ℕ) → is_aggregate semantics type ≡ false → ¬ InMemory semantics types target type
  not-InMemory type e h = let k = (is_aggregate-InMemory semantics types target type).1 h in cc

  not_void :
      (type : ℕ)
      → same_kind (semantics.type type).kind TypeKind.void ≡ false
      → (semantics.type type).kind ≢ TypeKind.void
  not_void type e h = let k = ap (λ x. same_kind x TypeKind.void) h in cc

  pub return_mode-IsReturned :
      (errors : Bool) (type : ℕ) → IsReturned type errors (return_mode_of semantics errors type)
  unfolding return_mode_of
  return_mode-IsReturned errors type =
      let v = same_kind (semantics.type type).kind TypeKind.void in
      elim (Bool-cases (errors && not v)) [
        | inl e ↦ rw e (result_or_error (ground arith) (not_void type (ground arith)))
        | inr e ↦ elim (Bool-cases (is_aggregate semantics type)) [
          | inl a ↦
              rw (e, a) (result_in_memory ((is_aggregate-InMemory semantics types target type).0 a))
          | inr a ↦ elim (Bool-cases v) [
            | inl w ↦
                rw (e, a, w) (no_result (same_kind→eq (semantics.type type).kind TypeKind.void w))
            | inr w ↦
                rw (e, a, w) (result_value (not_void type w) (not-InMemory type a) (ground arith))
          ]
        ]
      ]
