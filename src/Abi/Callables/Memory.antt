-- ===== src/Abi/Callables/Memory.antt =====
-- The types that `lower_callable` of src/abi/abi.cc passes in memory are those whose storage `lower_type`
-- makes an aggregate.
use c_cloth.Base.{
  ℕ, ◌≡◌, ◌↔◌, refl, sym, ap, Bool, true, false, not, ◌||◌, ◌&&◌, ◌==◌, Bool-cases, inl, inr,
  Option, none, some, arith,
}
use c_cloth.Base.Options.{◌>>=◌, >>=-eq-some, some-inj, Option-cases}
use c_cloth.Numeric.{TypeKind, same_kind, struct, nullable}
use c_cloth.Target.{TargetDataLayout, is_power_of_two}
use c_cloth.Semantics.{SemanticModel}
use c_cloth.Abi.{
  AbiTypeLayout, aggregate_kind, checked_add, checked_align, shift_references, has_no_storage,
  is_reference_type, is_nullable_value, lower_nullable_value_layout, lower_nullable_type,
  lower_kind, lower_type, make_type_layout,
}
use c_cloth.Abi.Callables.{is_aggregate}

lower_nullable_value_layout-kind :
    (type : ℕ) (element : AbiTypeLayout) {layout : AbiTypeLayout}
    → lower_nullable_value_layout type element ≡ some layout
    → layout.kind ≡ aggregate_kind
unfolding lower_nullable_value_layout
lower_nullable_value_layout-kind type element {layout} e =
    elim (Bool-cases (
      has_no_storage element.kind
      || element.storage.size == 0
      || not (is_power_of_two element.storage.alignment))) [
        | inl b ↦ let e' = rw b at e in cc
        | inr b ↦
            let e' = rw b at e in
            let (payload, p, k) = >>=-eq-some (checked_align 1 element.storage.alignment) _ e' in
            let (end, q, l) = >>=-eq-some (checked_add payload element.storage.size) _ k in
            let (size, r, m) = >>=-eq-some (checked_align end element.storage.alignment) _ l in
            let (references, s, n) =
              >>=-eq-some (shift_references payload element.reference_offsets) _ m in
            sym (ap (λ x. x.kind) (some-inj n))
      ]

not_iff : (b : Bool) → (not b ≡ true) ↔ (b ≡ false)
not_iff b = ground arith

module _ (semantics : SemanticModel) (types : ℕ → Option AbiTypeLayout)
    (target : TargetDataLayout) where
  -- The storage of the type is an aggregate.
  abbrev pub InMemory : ℕ → Type 0
  InMemory type =
      (lower_type type (semantics.type type) semantics types target).kind ≡ aggregate_kind

  abbrev in_memory : TypeKind → Option ℕ → Bool
  in_memory kind element =
      let has_value = elim element as (λ x. Bool) [
        | none ↦ false
        | some e ↦ not (is_reference_type e semantics)
      ] in
      same_kind kind struct || (same_kind kind nullable && has_value)

  nullable_kind :
      (type element : ℕ)
      → ((lower_nullable_type type (some element) semantics types target).kind ≡ aggregate_kind)
        ↔ (is_reference_type element semantics ≡ false)
  unfolding lower_nullable_type make_type_layout
  nullable_kind type element = elim (Bool-cases (is_reference_type element semantics)) [
    | inl r ↦ rw r (λ h. cc, λ h. cc)
    | inr r ↦ elim (Option-cases (types element >>= lower_nullable_value_layout type)) [
      | inl n ↦ rw (r, n) (λ h. refl, λ h. refl)
      | inr l ↦
          let (known, p, q) = >>=-eq-some (types element) (lower_nullable_value_layout type) l.1 in
          let k = lower_nullable_value_layout-kind type known q in rw (r, l.1) (λ h. refl, λ h. k)
    ]
  ]

  kind_in_memory :
      (kind : TypeKind) (type : ℕ) (element : Option ℕ)
      → (in_memory kind element ≡ true)
        ↔ ((lower_kind kind type element semantics types target).kind ≡ aggregate_kind)
  unfolding lower_kind make_type_layout
  kind_in_memory struct type element = (λ h. refl, λ h. refl)
  kind_in_memory nullable type none = (λ h. cc, λ h. cc)
  kind_in_memory nullable type (some e) =
      let k = nullable_kind type e in
      let n = not_iff (is_reference_type e semantics) in (λ h. k.1 (n.0 h), λ h. n.1 (k.0 h))
  kind_in_memory _ type element = (λ h. cc, λ h. cc)

  pub is_aggregate-InMemory : (type : ℕ) → (is_aggregate semantics type ≡ true) ↔ InMemory type
  unfolding is_aggregate is_nullable_value lower_type
  is_aggregate-InMemory type =
      kind_in_memory (semantics.type type).kind type (semantics.type type).element_type
