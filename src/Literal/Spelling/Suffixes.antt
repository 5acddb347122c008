-- ===== src/Literal/Spelling/Suffixes.antt =====
-- The suffixes that `parse_suffix` (src/lexer/literal.cc) finds behind a base-prefixed spelling.
use mathlib.Core.Path.{subst}
use c_cloth.Base.{◌≡◌, refl, sym, Bool, true, false, not, ◌&&◌, [], ◌∷◌, if◌then◌else◌}
use c_cloth.Base.Text.{Bytes, codes, text_eq, text_eq_iff}
use c_cloth.Literal.{
  NumericLiteralSuffix, no_suffix, int8, int16, int32, int64, uint8, uint16, uint32, uint64,
  float32, float64,
}
use c_cloth.Literal.Digits.{parse_suffix, is_floating_suffix}
use c_cloth.Literal.Spelling.{is_empty, is_no_suffix}

-- No suffix, or the name of an integer type.
pub data IsSuffix : NumericLiteralSuffix → Bytes → Type 0 where
  without : IsSuffix no_suffix []
  of_int8 : IsSuffix int8 (codes "i8")
  of_int16 : IsSuffix int16 (codes "i16")
  of_int32 : IsSuffix int32 (codes "i32")
  of_int64 : IsSuffix int64 (codes "i64")
  of_uint8 : IsSuffix uint8 (codes "u8")
  of_uint16 : IsSuffix uint16 (codes "u16")
  of_uint32 : IsSuffix uint32 (codes "u32")
  of_uint64 : IsSuffix uint64 (codes "u64")

abbrev Named : Bytes → NumericLiteralSuffix → Type 0
Named tail kind = is_no_suffix kind ≡ false → is_floating_suffix kind ≡ false → IsSuffix kind tail

Named-if :
    (tail : Bytes) (b : Bool) (k r : NumericLiteralSuffix)
    → (b ≡ true → Named tail k)
    → Named tail r
    → Named tail (if b then k else r)
Named-if tail true k r f g = f refl
Named-if tail false k r f g = g

text_eq-Named :
    {tail text : Bytes} (kind : NumericLiteralSuffix)
    → IsSuffix kind text
    → text_eq tail text ≡ true
    → Named tail kind
text_eq-Named {tail} {text} kind s e n f =
    subst (IsSuffix kind) (sym ((text_eq_iff tail text).0 e)) s

of_float :
    (tail : Bytes) (kind : NumericLiteralSuffix) → is_floating_suffix kind ≡ true → Named tail kind
of_float tail kind e n f = cc

of_none : (tail : Bytes) → Named tail no_suffix
of_none tail n f = cc

parse_suffix-Named : (tail : Bytes) → Named tail (parse_suffix tail)
unfolding parse_suffix
parse_suffix-Named tail = Named-if tail _ int8 _ (text_eq-Named int8 of_int8) (
    Named-if tail _ int16 _ (text_eq-Named int16 of_int16) (
      Named-if tail _ int32 _ (text_eq-Named int32 of_int32) (
        Named-if tail _ int64 _ (text_eq-Named int64 of_int64) (
          Named-if tail _ uint8 _ (text_eq-Named uint8 of_uint8) (
            Named-if tail _ uint16 _ (text_eq-Named uint16 of_uint16) (
              Named-if tail _ uint32 _ (text_eq-Named uint32 of_uint32) (
                Named-if tail _ uint64 _ (text_eq-Named uint64 of_uint64) (
                  Named-if tail _ float32 _ (λ e. of_float tail float32 refl)
                    (Named-if tail _ float64 _ (λ e. of_float tail float64 refl)
                      (of_none tail))))))))))

no_suffix_empty : IsSuffix (parse_suffix []) []
unfolding parse_suffix text_eq
no_suffix_empty = without

pub parse_suffix-IsSuffix :
    (tail : Bytes)
    → not (is_empty tail) && is_no_suffix (parse_suffix tail) ≡ false
    → is_floating_suffix (parse_suffix tail) ≡ false
    → IsSuffix (parse_suffix tail) tail
parse_suffix-IsSuffix [] n f = no_suffix_empty
parse_suffix-IsSuffix (c ∷ tail) n f = parse_suffix-Named (c ∷ tail) n f
