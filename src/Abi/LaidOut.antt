-- ===== src/Abi/LaidOut.antt =====
-- The layouts of `lower_file_layout` (src/abi/abi.cc) keep fields apart, aligned and inside.
use mathlib.Core.Path.{subst}
use c_cloth.Base.{
  ℕ, max, ◌≤◌, ◌≡◌, refl, ◌∙◌, ap, Bool, true, false, ltb, not, if◌then◌else◌, Option, none, some,
  arith, Bool-cases, inl, inr, ◌&&◌,
}
use c_cloth.Base.Words.{u64_max}
use c_cloth.Source.{DiagnosticEngine, report_error}
use c_cloth.Target.{TargetDataLayout}
use c_cloth.Semantics.{SemanticModel, FileTypeKind}
use c_cloth.Abi.{AbiTypeLayout, checked_align}
use c_cloth.Abi.Checked.{checked_align-eq}
use c_cloth.Abi.Laid.{
  FileLayout, Laid, laid, failed, or_fail, LayoutState, MirFileClass, is_struct, is_enum,
  is_error_kind, max_struct_size,
}
use c_cloth.Abi.Layout.{
  place_fields, header_size, empty_state, start_state, finish_layout, file_layout,
  lower_file_layout,
}
use c_cloth.Abi.Placed.{InObject-mono, Fits64, Placed, Placed-le, All-imp, IsPlaced, IsLaidOut}
use c_cloth.Abi.Steps.{>>=-eq-laid, or_fail-inv, laid-inj, require-inv}
use c_cloth.Abi.Fields.{place_fields-IsPlaced, place_message-IsPlaced, BasesLaidOut}

module _ (semantics : SemanticModel) (types : ℕ → AbiTypeLayout) (target : TargetDataLayout)
    (layouts : ℕ → FileLayout) where
  empty_fits :
      (aggregate : Bool)
      → Fits64 types target
      → (if aggregate then 1 else target.pointer.alignment) ≤ u64_max
  empty_fits true w = omega arith
  empty_fits false w = w.pointer

  start_state-IsPlaced :
      (kind : FileTypeKind) (base : Option ℕ) {t : LayoutState}
      → Fits64 types target
      → (types semantics.string_type).storage ≡ target.pointer
      → BasesLaidOut semantics types target layouts kind base
      → let empty = empty_state semantics types target layouts (is_struct kind) in
        start_state semantics types target layouts kind base empty ≡ laid t
        → IsPlaced types target (header_size semantics types target layouts (is_struct kind)) t
  unfolding start_state empty_state
  start_state-IsPlaced kind (some file) w st b h =
      let low = header_size semantics types target layouts (is_struct kind) in
      let empty = empty_state semantics types target layouts (is_struct kind) in
      let base = layouts file in
      let most = max empty.alignment base.storage.alignment in
      subst (IsPlaced types target low) (laid-inj h) (record {
        fields = subst (λ x. Placed types x base.storage.fields base.storage.size) b.0 b.1.fields;
        alignments =
            All-imp (λ f. (types f.type).storage.alignment ≤ base.storage.alignment)
              (λ f. (types f.type).storage.alignment ≤ most) (λ f k. omega (arith, k))
              base.storage.fields b.1.alignments;
        references = b.1.references;
        alignment_fits = omega (arith, empty_fits (is_struct kind) w, b.1.alignment_fits);
      })
  start_state-IsPlaced kind none w st b h =
      let low = header_size semantics types target layouts (is_struct kind) in
      let empty = empty_state semantics types target layouts (is_struct kind) in
      let p : IsPlaced types target low empty = record {
        fields = omega arith;
        alignments = tt;
        references = tt;
        alignment_fits = empty_fits (is_struct kind) w;
      } in
      elim (Bool-cases (is_error_kind kind)) [
        | inl e ↦ place_message-IsPlaced semantics types target layouts low empty w st (rw e at h) p
        | inr e ↦ let h' = rw e at h in subst (IsPlaced types target low) (laid-inj h') p
      ]

  finish_layout-IsLaidOut :
      (aggregate : Bool) (s : LayoutState) {l : FileLayout}
      → finish_layout semantics types target layouts aggregate s ≡ laid l
      → IsPlaced types target (header_size semantics types target layouts aggregate) s
      → IsLaidOut types target l × (aggregate ≡ true → l.storage.size ≤ max_struct_size)
  unfolding finish_layout
  finish_layout-IsLaidOut aggregate s {l} h p =
      let most = if aggregate then max s.offset 1 else s.offset in
      let (size, c1, h1) = >>=-eq-laid (or_fail (checked_align most s.alignment) _) _ h in
      let (t1, h2) = require-inv _ _ _ h1 in
      let a = checked_align-eq most s.alignment (or_fail-inv _ _ c1) p.alignment_fits in
      let low = header_size semantics types target layouts aggregate in
      let below : s.offset ≤ size = padded_le aggregate a.0 in
      subst (λ l. IsLaidOut types target l × (aggregate ≡ true → l.storage.size ≤ max_struct_size))
        (laid-inj h2)
        (
          record {
            fields = Placed-le types low s.offset size s.fields p.fields below;
            alignments = p.alignments;
            references = InObject-mono target s.offset size s.references below p.references;
            padded = a.2;
            alignment_fits = p.alignment_fits;
          },
          limit aggregate size t1,
        )
    where
      padded_le :
          (aggregate : Bool) {size : ℕ}
          → (if aggregate then max s.offset 1 else s.offset) ≤ size
          → s.offset ≤ size
      padded_le true h = omega arith
      padded_le false h = h

      limit :
          (aggregate : Bool) (size : ℕ)
          → not (aggregate && ltb max_struct_size size) ≡ true
          → aggregate ≡ true
          → size ≤ max_struct_size
      limit aggregate size h e = ground arith

  file_layout-IsLaidOut :
      (kind : FileTypeKind) (file : MirFileClass) {l : FileLayout}
      → Fits64 types target
      → (types semantics.string_type).storage ≡ target.pointer
      → BasesLaidOut semantics types target layouts kind file.base_file
      → file_layout semantics types target layouts kind file ≡ laid l
      → IsLaidOut types target l × (is_struct kind ≡ true → l.storage.size ≤ max_struct_size)
  unfolding file_layout
  file_layout-IsLaidOut kind file {l} w st b h = elim (Bool-cases (is_enum kind)) [
    | inl e ↦
        let h' = rw e at h in
        subst
          (λ l.
            IsLaidOut types target l × (is_struct kind ≡ true → l.storage.size ≤ max_struct_size))
          (laid-inj h')
          (
            record {
              fields = omega arith;
              alignments = tt;
              references = tt;
              padded = omega arith;
              alignment_fits = omega arith;
            },
            λ k. omega arith,
          )
    | inr e ↦
        let h' = rw e at h in
        let empty = empty_state semantics types target layouts (is_struct kind) in
        let (start, c1, h1) =
          >>=-eq-laid (start_state semantics types target layouts kind file.base_file empty) _ h' in
        let (state, c2, h2) =
          >>=-eq-laid
            (place_fields semantics types target layouts (is_struct kind) file.fields start) _ h1 in
        let p = start_state-IsPlaced kind file.base_file w st b c1 in
        finish_layout-IsLaidOut (is_struct kind) state h2 (
          place_fields-IsPlaced semantics types target layouts
            (header_size semantics types target layouts (is_struct kind)) (is_struct kind)
            file.fields start w c2 p)
  ]

-- A layout that `lower_file_layout` gives has its fields in order behind the header, each at a multiple
-- of the alignment of its type and none over another or past the end; its alignment is not below those
-- of its fields and divides its size; each of its reference slots is aligned for a pointer and inside;
-- and a struct is not larger than the limit. This holds where the sizes and alignments of the types
-- and the pointer fit 64 bits, a string is stored as a pointer, and the base is laid out so.
pub lower_file_layout-IsLaidOut :
    (semantics : SemanticModel) (types : ℕ → AbiTypeLayout) (target : TargetDataLayout)
    (layouts : ℕ → FileLayout) (kind : FileTypeKind) (file : MirFileClass)
    (engine : DiagnosticEngine) {l : FileLayout}
    → Fits64 types target
    → (types semantics.string_type).storage ≡ target.pointer
    → BasesLaidOut semantics types target layouts kind file.base_file
    → (lower_file_layout semantics types target layouts kind file engine).0 ≡ some l
    → IsLaidOut types target l × (is_struct kind ≡ true → l.storage.size ≤ max_struct_size)
unfolding lower_file_layout
lower_file_layout-IsLaidOut semantics types target layouts kind file engine {l} w st b h =
    given (file_layout semantics types target layouts kind file) refl h
  where
    given :
        (r : Laid FileLayout)
        → file_layout semantics types target layouts kind file ≡ r
        → (elim r as (λ x. Option FileLayout × DiagnosticEngine) [
          | laid layout ↦ (some layout, engine)
          | failed message ↦
              (none, report_error (semantics.symbol file.symbol).range message engine)
        ]).0
          ≡ some l
        → IsLaidOut types target l × (is_struct kind ≡ true → l.storage.size ≤ max_struct_size)
    given (laid layout) e k =
        let same : layout ≡ l = cc in
        file_layout-IsLaidOut semantics types target layouts kind file w st b (e ∙ ap laid same)
    given (failed message) e k = cc
