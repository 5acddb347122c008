-- ===== src/Abi/Laid.antt =====
-- The layout of a file in src/abi/abi.cc, the variables of its computation, and its steps.
use c_cloth.Base.{ℕ, Bool, true, false, List, Option, none, some}
use c_cloth.Base.Text.{Bytes}
use c_cloth.Semantics.{FileTypeKind, enum, struct, error}

-- The limits of include/cloth/abi/aggregate_limits.h.
abbrev pub max_struct_fields : ℕ
max_struct_fields = 65536

abbrev pub max_struct_depth : ℕ
max_struct_depth = 128

abbrev pub max_struct_size : ℕ
max_struct_size = 1048576

abbrev pub max_layout_references : ℕ
max_layout_references = 65536

pub record AbiFieldLayout : Type 0 where
  pub symbol : ℕ
  pub type : ℕ
  pub offset : ℕ

pub record AbiClassLayout : Type 0 where
  pub header_size : ℕ
  pub size : ℕ
  pub alignment : ℕ
  pub fields : List AbiFieldLayout

pub record FileLayout : Type 0 where
  pub storage : AbiClassLayout
  pub references : List ℕ
  pub depth : ℕ

-- A layout step gives a value, or the message of the error that is reported.
pub data Laid {ℓ} (A : Type ℓ) : Type ℓ where
  laid : A → Laid A
  failed : Bytes → Laid A

infixl 5 ◌>>=◌
unfoldable pub ◌>>=◌ {ℓ κ} : {A : Type ℓ} {B : Type κ} → Laid A → (A → Laid B) → Laid B
laid a >>= f = f a
failed message >>= f = failed message

-- A step without a result fails with a message.
unfoldable pub or_fail {ℓ} : {A : Type ℓ} → Option A → Bytes → Laid A
or_fail none message = failed message
or_fail (some a) message = laid a

unfoldable pub require : Bool → Bytes → Laid (Unit {0})
require true message = laid tt
require false message = failed message

infixl 5 ◌>>◌
unfoldable pub ◌>>◌ {ℓ} : {B : Type ℓ} → Laid (Unit {0}) → Laid B → Laid B
m >> k = m >>= λ _. k

-- The variables of the loop over the fields.
pub record LayoutState : Type 0 where
  pub offset : ℕ
  pub alignment : ℕ
  pub depth : ℕ
  pub fields : List AbiFieldLayout
  pub references : List ℕ
  pub instance_count : ℕ

pub record MirFileClass : Type 0 where
  pub file : ℕ
  pub symbol : ℕ
  pub base_file : Option ℕ
  pub fields : List ℕ

abbrev pub is_struct : FileTypeKind → Bool
is_struct struct = true
is_struct _ = false

abbrev pub is_enum : FileTypeKind → Bool
is_enum enum = true
is_enum _ = false

abbrev pub is_error_kind : FileTypeKind → Bool
is_error_kind error = true
is_error_kind _ = false
