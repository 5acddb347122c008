-- ===== src/Numeric/Widen.antt =====
-- Widening of integer constants (src/sema/numeric_types.cc) keeps the integer, and the widening
-- relation is the inclusion of ranges.
use Prim.Native.Nat.{bit_or}
use c_cloth.Base.{
  sym, ℕ, ◌+◌, ◌-◌, ◌^◌, ◌<◌, ◌≡◌, ◌↔◌, refl, ap, ◌∙◌, Bool, true, false, not, leb, ◌||◌, ◌&&◌,
  Option, none, some, arith, if◌then◌else◌, Bool-cases, inl, inr,
}
use c_cloth.Base.Int.{◌≤ℤ◌, ◌<ℤ◌}
use c_cloth.Base.Words.{u64_max, bit_or_comm, bit_or_join}
use c_cloth.Numeric.{
  TypeKind, NumericTypeProperties, can_widen_properties, can_widen_numeric, is_integer_type,
  is_valid_integer_bits, integer_mask, widen_bits, widen_integer_constant, numeric_type_properties,
  with_properties, same_kind, same_kind→eq, same_kind_self,
}
use c_cloth.Numeric.Values.{
  Width, w8, w16, w32, w64, width_bits, shape, Shape, integer_shape, value_of, min_of, max_of,
  value, min_value, max_value, value-shape, min_value-shape, max_value-shape,
  is_valid_integer_bits-shape,
}

-- `bits |= ~mask` fills the bits above the width.
sign_extend :
    (w : Width) (bits : ℕ)
    → bits < 2 ^ width_bits w
    → bit_or bits (u64_max - integer_mask (width_bits w)) ≡ bits + (2 ^ 64 - 2 ^ width_bits w)
unfolding integer_mask
sign_extend w8 bits h = bit_or_comm bits _ ∙ bit_or_join 8 (2 ^ 56 - 1) bits h ∙ omega arith
sign_extend w16 bits h = bit_or_comm bits _ ∙ bit_or_join 16 (2 ^ 48 - 1) bits h ∙ omega arith
sign_extend w32 bits h = bit_or_comm bits _ ∙ bit_or_join 32 (2 ^ 32 - 1) bits h ∙ omega arith
sign_extend w64 bits h = bit_or_comm bits _ ∙ bit_or_join 64 0 bits h ∙ omega arith

widen_bits_value :
    (s t : Bool) (v w : Width) (bits : ℕ)
    → bits < 2 ^ width_bits v
    → can_widen_properties (shape s v) (shape t w) ≡ true
    → (widen_bits bits (shape s v) (shape t w) < 2 ^ width_bits w)
      × (value_of (shape t w) (widen_bits bits (shape s v) (shape t w)) ≡ value_of (shape s v) bits)
unfolding widen_bits can_widen_properties
widen_bits_value true true w8 w16 bits h c = ground (arith, sign_extend w8 bits h)
widen_bits_value _ _ v w bits h c = ground (arith, sign_extend v bits h)

widen_bits_self :
    (s : Bool) (v : Width) (bits : ℕ)
    → bits < 2 ^ width_bits v
    → widen_bits bits (shape s v) (shape s v) ≡ bits
unfolding widen_bits
widen_bits_self true w8 bits h = ground (arith, sign_extend w8 bits h)
widen_bits_self _ v bits h = ground (arith, sign_extend v bits h)

-- The relation on two integer types, on their shapes.
can_widen_shapes :
    (s t : Bool) (v w : Width)
    → (can_widen_properties (shape s v) (shape t w) ≡ true)
      ↔ ((min_of (shape t w) ≤ℤ min_of (shape s v)) × (max_of (shape s v) <ℤ max_of (shape t w)))
unfolding can_widen_properties
can_widen_shapes true true w8 w16 = ground arith
can_widen_shapes _ _ v w = ground arith

valid-lt :
    {type : TypeKind} (s : Shape type) (bits : ℕ)
    → is_valid_integer_bits bits type ≡ true
    → bits < 2 ^ width_bits s.width
valid-lt s bits valid = ground (arith, is_valid_integer_bits-shape s bits)

can_widen_numeric_self : (type : TypeKind) → can_widen_numeric type type ≡ false
unfolding can_widen_numeric
can_widen_numeric_self type = rw (same_kind_self type)

module _ {source target : TypeKind} (s : Shape source) (t : Shape target) where
  can_widen-shape :
      same_kind source target ≡ false
      → can_widen_numeric source target
        ≡ can_widen_properties (shape s.signed s.width) (shape t.signed t.width)
  unfolding can_widen_numeric
  can_widen-shape d = rw d (rw (s.properties_eq, t.properties_eq))

  can_widen_iff-shape :
      (can_widen_properties (shape s.signed s.width) (shape t.signed t.width) ≡ true)
      ↔ ((min_value target ≤ℤ min_value source) × (max_value source <ℤ max_value target))
  can_widen_iff-shape =
      rw (min_value-shape s, min_value-shape t, max_value-shape s, max_value-shape t)
        (can_widen_shapes s.signed t.signed s.width t.width)

  -- What `widen_integer_constant` gives past its guard.
  widened : (bits : ℕ) → ℕ
  widened bits = widen_bits bits (shape s.signed s.width) (shape t.signed t.width)

  widen-shape :
      (bits : ℕ)
      → is_integer_type target ≡ true
      → is_valid_integer_bits bits source ≡ true
      → (same_kind source target || can_widen_numeric source target) ≡ true
      → widen_integer_constant bits source target ≡ some (widened bits)
  unfolding widen_integer_constant widened
  widen-shape bits ht valid widens =
      rw (ht, valid)
        (guard_open (same_kind source target) (can_widen_numeric source target) widens _
          ∙ rw (s.properties_eq, t.properties_eq))
    where
      guard_open :
          (a b : Bool) → (a || b) ≡ true → (r : Option ℕ) → (if not a && not b then none else r) ≡ r
      guard_open true b h r = refl
      guard_open false true h r = refl
      guard_open false false h r = cc

-- An integer type widens to another exactly where every integer of the first is one of the second
-- and the second has greater ones.
pub can_widen_numeric_iff :
    (source target : TypeKind)
    → is_integer_type source ≡ true
    → is_integer_type target ≡ true
    → (can_widen_numeric source target ≡ true)
      ↔ ((min_value target ≤ℤ min_value source) × (max_value source <ℤ max_value target))
can_widen_numeric_iff source target hs ht = elim (Bool-cases (same_kind source target)) [
  | inl same ↦
      rw (same_kind→eq source target same, can_widen_numeric_self target)
        (λ e. cc, λ r. absurd (omega arith))
  | inr other ↦
      let s = integer_shape source hs in
      let t = integer_shape target ht in rw (can_widen-shape s t other) (can_widen_iff-shape s t)
]

is_integer_of_valid :
    (bits : ℕ) (type : TypeKind)
    → is_valid_integer_bits bits type ≡ true
    → is_integer_type type ≡ true
unfolding is_valid_integer_bits
is_integer_of_valid bits type h = go (numeric_type_properties type) h
  where
    go :
        (o : Option NumericTypeProperties)
        → with_properties (λ p. is_integer_type type && leb bits (integer_mask p.bit_width)) false o
          ≡ true
        → is_integer_type type ≡ true
    go none h = cc
    go (some p) h = ground arith

module _ {source target : TypeKind} (s : Shape source) (t : Shape target) where
  widened_value :
      (bits : ℕ)
      → is_valid_integer_bits bits source ≡ true
      → (same_kind source target || can_widen_numeric source target) ≡ true
      → (is_valid_integer_bits (widened s t bits) target ≡ true)
        × (value target (widened s t bits) ≡ value source bits)
  unfolding widened
  widened_value bits valid widens = elim (Bool-cases (same_kind source target)) [
    | inl same ↦
        let kinds = same_kind→eq source target same in
        let alike : shape s.signed s.width ≡ shape t.signed t.width =
          cc (sym s.properties_eq ∙ ap numeric_type_properties kinds ∙ t.properties_eq) in
        let valid' : is_valid_integer_bits bits target ≡ true = rw kinds at valid in
        let self = widen_bits_self t.signed t.width bits (valid-lt t bits valid') in
        rw (alike, self) (valid', ap (λ k. value k bits) (sym kinds))
    | inr other ↦
        let kept =
          widen_bits_value s.signed t.signed s.width t.width bits (valid-lt s bits valid)
            (ground (arith, can_widen-shape s t other)) in
        (
          ground (arith, kept, is_valid_integer_bits-shape t (widened s t bits)),
          value-shape t _ ∙ kept.1 ∙ sym (value-shape s bits),
        )
  ]

-- `widen_integer_constant` accepts a valid constant of an integer type that is the target or widens
-- to it, and the result is a valid constant for the same integer.
pub widen_integer_constant_value :
    (bits : ℕ) (source target : TypeKind)
    → is_integer_type target ≡ true
    → is_valid_integer_bits bits source ≡ true
    → (same_kind source target || can_widen_numeric source target) ≡ true
    → (r : ℕ) × (widen_integer_constant bits source target ≡ some r)
      × (is_valid_integer_bits r target ≡ true)
      × (value target r ≡ value source bits)
widen_integer_constant_value bits source target ht valid widens =
    let s = integer_shape source (is_integer_of_valid bits source valid) in
    let t = integer_shape target ht in
    let (v, e) = widened_value s t bits valid widens in
    (widened s t bits, widen-shape s t bits ht valid widens, v, e)
