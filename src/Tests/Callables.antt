-- ===== src/Tests/Callables.antt =====
-- Concrete inputs for `lower_callable` of src/abi/abi.cc.
use c_cloth.Base.{[], ◌∷◌, ◌≡◌, refl, some, none, false, Option}
use c_cloth.Semantics.{FileSemantics}
use c_cloth.Abi.{AbiLinkage}
use c_cloth.Target.{llvm_x86_64}
use c_cloth.Abi.Callables.{
  AbiCallable, AbiCallableKind, AbiCallingConvention, AbiReturnMode, AbiReceiverMode, MirCallable,
  lower_callable,
}
use c_cloth.Abi.Callables.Convention.{IsConvention, lower_callable-IsConvention}
use c_cloth.Tests.Throws.{semantics}

abbrev called : MirCallable
called = record { symbol = 1; parameters = 2 ∷ 3 ∷ [] }

abbrev owner : FileSemantics
owner = semantics.file 0

abbrev nothing : AbiCallable
nothing = record {
  symbol = 0;
  kind = AbiCallableKind.function;
  linkage = AbiLinkage.internal;
  calling_convention = AbiCallingConvention.c;
  mangled_name = [];
  initializer_mangled_name = [];
  return_type = 0;
  parameters = [];
  initializer_linkage = AbiLinkage.internal;
  return_mode = AbiReturnMode.void_return;
  receiver_mode = AbiReceiverMode.no_receiver;
  uses_error_abi = false;
}

abbrev or_nothing : Option AbiCallable → AbiCallable
or_nothing none = nothing
or_nothing (some c) = c

abbrev lowered : AbiCallable
unfolding lower_callable
lowered = or_nothing (lower_callable semantics called AbiCallableKind.function owner)

lowered-some : lower_callable semantics called AbiCallableKind.function owner ≡ some lowered
unfolding lower_callable
lowered-some = refl

lower_callable-IsConvention_example :
    IsConvention semantics (λ n. none) llvm_x86_64 called AbiCallableKind.function owner lowered
lower_callable-IsConvention_example =
    lower_callable-IsConvention semantics (λ n. none) llvm_x86_64 called AbiCallableKind.function
      owner lowered-some
