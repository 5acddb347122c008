-- ===== src/Target/Layout.antt =====
-- The two built-in layouts, and what `is_valid_data_layout` (src/target/data_layout.cc) asks of a layout.
use Prim.Native.String.{String}
use text.Mathlib.Text.{◌==◌ as str_eq}
use text.Mathlib.TextEquality.{eq_iff}
use c_cloth.Base.{
  ℕ, ◌*◌, ◌/◌, ◌^◌, ◌≤◌, ◌<◌, ◌≡◌, ◌≢◌, ◌↔◌, refl, not, Bool, true, leb, ◌&&◌, ◌==◌, ◌/=◌, arith,
}
use c_cloth.Base.Words.{u64_max}
use native.Mathlib.Nat.{le-div_iff_mul-le}
use c_cloth.Target.{
  is_power_of_two, Endianness, endianness_is_valid, TargetDataLayout, llvm_x86_64, llvm_wasm32,
  is_valid_data_layout,
}
use c_cloth.Target.Align.{is_power_of_two_iff}

pub builtin_valid :
    (is_valid_data_layout llvm_x86_64 ≡ true) × (is_valid_data_layout llvm_wasm32 ≡ true)
unfolding is_valid_data_layout llvm_x86_64 llvm_wasm32
builtin_valid = (refl, refl)

abbrev IsPowerOfTwo : ℕ → Type 0
IsPowerOfTwo n = (k : ℕ) × (n ≡ 2 ^ k)

-- What the layout of a target has to be.
pub record IsLayout (layout : TargetDataLayout) : Type 0 where
  pub named : layout.target_name ≢ ""
  pub described : layout.llvm_data_layout ≢ ""
  pub has_pointers : 0 < layout.pointer.size
  pub pointer_aligned : IsPowerOfTwo layout.pointer.alignment
  pub int64_aligned : IsPowerOfTwo layout.int64_alignment
  pub float64_aligned : IsPowerOfTwo layout.float64_alignment
  pub header : layout.object_header_words ≡ 2
  pub header_fits : layout.object_header_words * layout.pointer.size ≤ u64_max
  pub pointer_fits : layout.pointer.size * 8 < 2 ^ 32

str_eq-not : (s t : String) → (not (str_eq s t) ≡ true) ↔ (s ≢ t)
str_eq-not s t = let e = eq_iff s t in ground arith

header_test :
    (words size : ℕ) → 0 < size → (leb words (u64_max / size) ≡ true) ↔ (words * size ≤ u64_max)
header_test words size h =
    let e = le-div_iff_mul-le {k = size} {x = words} {y = u64_max} h in ground arith

endianness-valid : (e : Endianness) → endianness_is_valid e ≡ true
unfolding endianness_is_valid
endianness-valid e = ground arith

conjuncts :
    (a b c d e f g h i j : Bool)
    → ((a && b && c && d && e && f && g && h && i && j) ≡ true) ↔ (
        (a ≡ true)
        × (b ≡ true)
        × (c ≡ true)
        × (d ≡ true)
        × (e ≡ true)
        × (f ≡ true)
        × (g ≡ true)
        × (h ≡ true)
        × (i ≡ true)
        × (j ≡ true))
conjuncts a b c d e f g h i j = ground arith

-- `is_valid_data_layout` accepts a layout just where it has a name and a description, pointers that have a
-- size, alignments of pointers, 64-bit integers and 64-bit floating numbers that are powers of two, a
-- header of two words whose bytes fit 64 bits, and pointers whose bits fit 32.
pub is_valid_data_layout_iff :
    (layout : TargetDataLayout) → (is_valid_data_layout layout ≡ true) ↔ IsLayout layout
unfolding is_valid_data_layout
is_valid_data_layout_iff layout =
    let name = str_eq-not layout.target_name "" in
    let text = str_eq-not layout.llvm_data_layout "" in
    let pointer = is_power_of_two_iff layout.pointer.alignment in
    let int64 = is_power_of_two_iff layout.int64_alignment in
    let float64 = is_power_of_two_iff layout.float64_alignment in
    let words = layout.object_header_words in
    let size = layout.pointer.size in
    let tests =
      conjuncts (not (str_eq layout.target_name "")) (not (str_eq layout.llvm_data_layout ""))
        (endianness_is_valid layout.endianness) (size /= 0)
        (is_power_of_two layout.pointer.alignment) (is_power_of_two layout.int64_alignment)
        (is_power_of_two layout.float64_alignment) (words == 2) (leb words (u64_max / size))
        (leb size (4294967295 / 8)) in
    (
      λ v.
          let (a, b, c, d, e, f, g, h, i, j) = tests.0 v in
          let some_size : 0 < size = ground arith in
          record {
            named = name.0 a;
            described = text.0 b;
            has_pointers = some_size;
            pointer_aligned = pointer.0 e;
            int64_aligned = int64.0 f;
            float64_aligned = float64.0 g;
            header = ground arith;
            header_fits = (header_test words size some_size).0 i;
            pointer_fits = ground arith;
          },
      λ l. tests.1 (
        name.1 l.named,
        text.1 l.described,
        endianness-valid layout.endianness,
        nonzero_test l.has_pointers,
        pointer.1 l.pointer_aligned,
        int64.1 l.int64_aligned,
        float64.1 l.float64_aligned,
        two_test l.header,
        (header_test words size l.has_pointers).1 l.header_fits,
        bits_test size l.pointer_fits,
      ),
    )
  where
    nonzero_test : {n : ℕ} → 0 < n → (n /= 0) ≡ true
    nonzero_test h = ground arith

    two_test : {n : ℕ} → n ≡ 2 → (n == 2) ≡ true
    two_test h = ground arith

    bits_test : (n : ℕ) → n * 8 < 2 ^ 32 → leb n (4294967295 / 8) ≡ true
    bits_test n h = ground arith
