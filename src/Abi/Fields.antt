-- ===== src/Abi/Fields.antt =====
-- The fields of `lower_file_layout` (src/abi/abi.cc), one after the other.
use mathlib.Core.Path.{subst}
use c_cloth.Base.{
  ℕ, ◌+◌, ◌%◌, ◌≤◌, ◌≡◌, ap, ◌⊎◌, Bool, true, false, if◌then◌else◌, List, [], ◌∷◌, ◌++◌, Option,
  none, some, arith, Bool-cases, inl, inr,
}
use c_cloth.Base.Words.{u64_max}
use c_cloth.Target.{TargetDataLayout}
use c_cloth.Semantics.{SemanticModel, FileTypeKind}
use c_cloth.Abi.{AbiTypeLayout, checked_add, checked_align}
use c_cloth.Abi.Checked.{checked_add-eq, checked_align-eq}
use c_cloth.Abi.Laid.{FileLayout, laid, or_fail, LayoutState, is_struct}
use c_cloth.Abi.Layout.{
  add_references, nested_depth, add_instance, place_field, place_fields, place_message, header_size,
  core_error_message_symbol,
}
use c_cloth.Abi.Placed.{InObject-mono, Fits64, InObject, All-snoc, IsPlaced, IsLaidOut}
use c_cloth.Abi.Steps.{
  >>=-eq-laid, or_fail-inv, laid-inj, require-inv, add_references-InObject, add_field-IsPlaced,
}

module _ (semantics : SemanticModel) (types : ℕ → AbiTypeLayout) (target : TargetDataLayout)
    (layouts : ℕ → FileLayout) where
  place_field-IsPlaced :
      (low symbol type_id : ℕ) (aggregate : Bool) (s : LayoutState) {t : LayoutState}
      → (types type_id).storage.alignment ≤ u64_max
      → (types type_id).storage.size ≤ u64_max
      → place_field semantics types target layouts aggregate symbol type_id s ≡ laid t
      → IsPlaced types target low s
      → IsPlaced types target low t
  unfolding place_field
  place_field-IsPlaced low symbol type_id aggregate s {t} w v h p =
      let type = types type_id in
      let (count, c1, h1) =
        >>=-eq-laid (add_instance semantics types target layouts aggregate s.instance_count) _ h in
      let (t1, h2) = require-inv _ _ _ h1 in
      let (aligned, c2, h3) =
        >>=-eq-laid (or_fail (checked_align s.offset type.storage.alignment) _) _ h2 in
      let (end, c3, h4) = >>=-eq-laid (or_fail (checked_add aligned type.storage.size) _) _ h3 in
      let (t2, h5) = require-inv _ _ _ h4 in
      let (references, c4, h6) =
        >>=-eq-laid
          (add_references semantics types target layouts type aligned type.reference_offsets
            s.references)
          _ h5 in
      let (depth, c5, h7) =
        >>=-eq-laid (nested_depth semantics types target layouts _ s.depth) _ h6 in
      let a = checked_align-eq s.offset type.storage.alignment (or_fail-inv _ _ c2) w in
      let b = checked_add-eq aligned type.storage.size (or_fail-inv _ _ c3) v in
      let r =
        add_references-InObject semantics types target layouts type aligned type.reference_offsets
          s.references c4
          (InObject-mono target s.offset (aligned + type.storage.size) s.references
            (omega (arith, a.0)) p.references) in
      subst (IsPlaced types target low) (laid-inj h7) (
        add_field-IsPlaced types target low aligned end depth count symbol type_id s references p w
          a.0 a.2 b.0 r)

  pub place_fields-IsPlaced :
      (low : ℕ) (aggregate : Bool) (fields : List ℕ) (s : LayoutState) {t : LayoutState}
      → Fits64 types target
      → place_fields semantics types target layouts aggregate fields s ≡ laid t
      → IsPlaced types target low s
      → IsPlaced types target low t
  unfolding place_fields
  place_fields-IsPlaced low aggregate [] s w h p = subst (IsPlaced types target low) (laid-inj h) p
  place_fields-IsPlaced low aggregate (field ∷ fields) s {t} w h p =
      let (u, c, k) =
        >>=-eq-laid _ (place_fields semantics types target layouts aggregate fields) h in
      place_fields-IsPlaced low aggregate fields u w k
        (placed u (Bool-cases (semantics.symbol field).is_static) c)
    where
      placed :
          (u : LayoutState)
          → ((semantics.symbol field).is_static ≡ true)
            ⊎ ((semantics.symbol field).is_static ≡ false)
          → (if (semantics.symbol field).is_static
              then laid s
              else place_field semantics types target layouts aggregate field
                  (semantics.symbol field).type
                  s)
            ≡ laid u
          → IsPlaced types target low u
      placed u (inl e) c = let c' = rw e at c in subst (IsPlaced types target low) (laid-inj c') p
      placed u (inr e) c =
          let c' = rw e at c in
          let type = (semantics.symbol field).type in
          place_field-IsPlaced low field type aggregate s (w.alignments type) (w.sizes type) c' p

  pub place_message-IsPlaced :
      (low : ℕ) (s : LayoutState) {t : LayoutState}
      → Fits64 types target
      → (types semantics.string_type).storage ≡ target.pointer
      → place_message semantics types target layouts s ≡ laid t
      → IsPlaced types target low s
      → IsPlaced types target low t
  unfolding place_message
  place_message-IsPlaced low s w st h p =
      let type = types semantics.string_type in
      let (symbol, c1, h1) =
        >>=-eq-laid (or_fail (core_error_message_symbol semantics types target layouts) _) _ h in
      let (aligned, c2, h2) =
        >>=-eq-laid (or_fail (checked_align s.offset type.storage.alignment) _) _ h1 in
      let (end, c3, h3) = >>=-eq-laid (or_fail (checked_add aligned type.storage.size) _) _ h2 in
      let a =
        checked_align-eq s.offset type.storage.alignment (or_fail-inv _ _ c2)
          (w.alignments semantics.string_type) in
      let b =
        checked_add-eq aligned type.storage.size (or_fail-inv _ _ c3)
          (w.sizes semantics.string_type) in
      let high = aligned + type.storage.size in
      let size : type.storage.size ≡ target.pointer.size = ap (λ x. x.size) st in
      let alignment : type.storage.alignment ≡ target.pointer.alignment =
        ap (λ x. x.alignment) st in
      let slot : InObject target high aligned =
        (omega (arith, size), subst (λ x. aligned % x ≡ 0) alignment a.2) in
      let r =
        All-snoc (InObject target high) s.references aligned
          (InObject-mono target s.offset high s.references (omega (arith, a.0)) p.references)
          slot in
      subst (IsPlaced types target low) (laid-inj h3) (
        add_field-IsPlaced types target low aligned end s.depth s.instance_count symbol
          semantics.string_type s (s.references ++ aligned ∷ []) p
          (w.alignments semantics.string_type) a.0 a.2 b.0 r)

  -- A base has the header of its class, and is laid out.
  abbrev pub BasesLaidOut : FileTypeKind → Option ℕ → Type 0
  BasesLaidOut kind none = Unit {0}
  BasesLaidOut kind (some file) =
      ((layouts file).storage.header_size
        ≡ header_size semantics types target layouts (is_struct kind))
      × IsLaidOut types target (layouts file)
