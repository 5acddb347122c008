-- ===== src/Target.antt =====
-- src/target/data_layout.cc and include/cloth/target/data_layout.h: the data layout of a target,
-- the test for powers of two, and the rounding up to an alignment. A `uint64_t` is a number.
pub mod Align
pub mod Layout
use Prim.Native.Nat.{bit_and}
use Prim.Native.String.{String}
use text.Mathlib.Text.{◌==◌ as str_eq}
use c_cloth.Base.{ℕ, ◌+◌, ◌-◌, ◌*◌, ◌/◌, Bool, true, not, ◌&&◌, ◌==◌, ◌/=◌, leb, ltb, if◌then◌else◌}
use c_cloth.Base.Words.{u64_max}

pub data Endianness : Type 0 where
  little big : Endianness

pub record SizeAlignment : Type 0 where
  pub size : ℕ
  pub alignment : ℕ

pub record TargetDataLayout : Type 0 where
  pub target_name : String
  pub llvm_data_layout : String
  pub endianness : Endianness
  pub pointer : SizeAlignment
  pub int64_alignment : ℕ
  pub float64_alignment : ℕ
  pub object_header_words : ℕ

unfoldable pub llvm_x86_64 : TargetDataLayout
llvm_x86_64 = record {
  target_name = "x86_64-unknown-unknown";
  llvm_data_layout = "e-p:64:64-i64:64-f64:64-n8:16:32:64-S128";
  endianness = little;
  pointer = record { size = 8; alignment = 8 };
  int64_alignment = 8;
  float64_alignment = 8;
  object_header_words = 2;
}

unfoldable pub llvm_wasm32 : TargetDataLayout
llvm_wasm32 = record {
  target_name = "wasm32-unknown-unknown";
  llvm_data_layout = "e-m:e-p:32:32-i64:64-f64:64-n32:64-S128";
  endianness = little;
  pointer = record { size = 4; alignment = 4 };
  int64_alignment = 8;
  float64_alignment = 8;
  object_header_words = 2;
}

unfoldable pub is_power_of_two : ℕ → Bool
is_power_of_two value = value /= 0 && bit_and value (value - 1) == 0

endianness_is_valid : Endianness → Bool
endianness_is_valid little = true
endianness_is_valid big = true

unfoldable pub is_valid_data_layout : TargetDataLayout → Bool
unfolding is_power_of_two endianness_is_valid
is_valid_data_layout layout =
    not (str_eq layout.target_name "")
    && not (str_eq layout.llvm_data_layout "")
    && endianness_is_valid layout.endianness
    && layout.pointer.size /= 0
    && is_power_of_two layout.pointer.alignment
    && is_power_of_two layout.int64_alignment
    && is_power_of_two layout.float64_alignment
    && layout.object_header_words == 2
    && leb layout.object_header_words (u64_max / layout.pointer.size)
    && leb layout.pointer.size (4294967295 / 8)

unfoldable pub align_to : ℕ → ℕ → ℕ
align_to value alignment =
    let mask = alignment - 1 in
    if not (is_power_of_two alignment)
    then value
    else if ltb (u64_max - mask) value
    then u64_max
    else bit_and (value + mask) (u64_max - mask)
