-- ===== src/Abi/Boxes/Inside.antt =====
-- The value in an object that keeps it (`lower_value_box_descriptor` of src/abi/abi.cc) lies behind the
-- header, aligned, and within the object.
use mathlib.Core.Path.{subst}
use c_cloth.Base.{
  ℕ, ◌+◌, ◌*◌, ◌%◌, ◌==◌, max, ◌≤◌, ◌≡◌, sym, ap, ◌∙◌, List, [], ◌∷◌, map, some, All, arith,
  Bool-cases, inl, inr,
}
use c_cloth.Base.Options.{>>=-eq-some, some-inj}
use c_cloth.Base.Words.{u64_max}
use c_cloth.Target.{TargetDataLayout}
use c_cloth.Semantics.{SemanticSymbol, FileSemantics}
use c_cloth.Abi.{AbiTypeLayout, checked_add, checked_align, shift_references}
use c_cloth.Abi.Checked.{checked_add-eq, checked_align-eq}
use c_cloth.Abi.Boxes.{AbiTypeDescriptor, lower_value_box_descriptor}

-- References are moved by the offset of the value that has them.
shift_references-eq :
    (payload : ℕ) (references : List ℕ) {shifted : List ℕ}
    → All (λ r. r ≤ u64_max) references
    → shift_references payload references ≡ some shifted
    → shifted ≡ map (λ r. payload + r) references
unfolding shift_references
shift_references-eq payload [] h e = sym (some-inj e)
shift_references-eq payload (r ∷ references) h e =
    let (first, p, k) = >>=-eq-some (checked_add payload r) _ e in
    let (rest, q, l) = >>=-eq-some (shift_references payload references) _ k in
    let a = checked_add-eq payload r p h.0 in
    let b = shift_references-eq payload references h.1 q in
    sym (some-inj l) ∙ (ap (λ x. x ∷ rest) a.0 ∙ ap (λ xs. (payload + r) ∷ xs) b)

-- What is asked of the layout of a value and of the target: the numbers are 64-bit ones.
pub record Fits (value : AbiTypeLayout) (target : TargetDataLayout) : Type 0 where
  pub size : value.storage.size ≤ u64_max
  pub alignment : value.storage.alignment ≤ u64_max
  pub pointer : target.pointer.alignment ≤ u64_max
  pub references : All (λ r. r ≤ u64_max) value.reference_offsets

pub record IsInside (value : AbiTypeLayout) (target : TargetDataLayout) (d : AbiTypeDescriptor)
    : Type 0 where
  pub behind : target.pointer.size * target.object_header_words ≤ d.boxed_value_offset
  pub aligned : d.boxed_value_offset % value.storage.alignment ≡ 0
  pub within : d.boxed_value_offset + value.storage.size ≤ d.size
  pub padded : d.size % d.alignment ≡ 0
  pub references : d.reference_offsets ≡ map (λ r. d.boxed_value_offset + r) value.reference_offsets

-- The descriptor of a box has the value behind the header, at a multiple of its alignment and within
-- the object, whose size its alignment divides, and the references of the value moved by its offset. This
-- holds where the numbers of the layout of the value fit 64 bits.
pub lower_value_box_descriptor-IsInside :
    (value_type : ℕ) (value : AbiTypeLayout) (symbol : SemanticSymbol) (object_file : ℕ)
    (file : FileSemantics) (target : TargetDataLayout) {d : AbiTypeDescriptor}
    → Fits value target
    → lower_value_box_descriptor value_type value symbol object_file file target ≡ some d
    → IsInside value target d
unfolding lower_value_box_descriptor
lower_value_box_descriptor-IsInside value_type value symbol object_file file target {d} f e =
    elim (Bool-cases (value.storage.size == 0)) [
      | inl z ↦ let e' = rw z at e in cc
      | inr z ↦
          let e' = rw z at e in
          let header = target.pointer.size * target.object_header_words in
          let most = max target.pointer.alignment value.storage.alignment in
          let (payload, p, k) = >>=-eq-some (checked_align header value.storage.alignment) _ e' in
          let (end, q, l) = >>=-eq-some (checked_add payload value.storage.size) _ k in
          let (size, r, m) = >>=-eq-some (checked_align end most) _ l in
          let (references, s, n) =
            >>=-eq-some (shift_references payload value.reference_offsets) _ m in
          let a = checked_align-eq header value.storage.alignment p f.alignment in
          let b = checked_add-eq payload value.storage.size q f.size in
          let c = checked_align-eq end most r (omega (arith, f.alignment, f.pointer)) in
          subst (IsInside value target) (some-inj n) (record {
            behind = a.0;
            aligned = a.2;
            within = omega (arith, b.0, c.0);
            padded = c.2;
            references = shift_references-eq payload value.reference_offsets f.references s;
          })
    ]
