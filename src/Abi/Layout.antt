-- ===== src/Abi/Layout.antt =====
-- `lower_file_layout` (src/abi/abi.cc): the fields of a class or a struct, one after the other.
use c_cloth.Base.{
  ℕ, zero, suc, ◌+◌, ◌-◌, ◌*◌, ◌%◌, max, Bool, true, false, ◌==◌, ◌/=◌, ltb, not, ◌||◌, ◌&&◌,
  if◌then◌else◌, List, [], ◌∷◌, ◌++◌, length, Option, none, some,
}
use c_cloth.Base.Text.{codes, text_eq}
use c_cloth.Source.{DiagnosticEngine, report_error}
use c_cloth.Target.{TargetDataLayout, is_power_of_two}
use c_cloth.Semantics.{SemanticModel, SymbolKind, FileTypeKind}
use c_cloth.Abi.{AbiTypeLayout, checked_add, checked_align, has_no_storage, inline_struct_type}
use c_cloth.Abi.Laid.{
  max_struct_fields, max_struct_depth, max_struct_size, max_layout_references, FileLayout, Laid,
  laid, failed, ◌>>=◌, ◌>>◌, or_fail, require, LayoutState, MirFileClass, is_struct, is_enum,
  is_error_kind,
}

module _ (semantics : SemanticModel) (types : ℕ → AbiTypeLayout) (target : TargetDataLayout)
    (layouts : ℕ → FileLayout) where
  -- The symbol that the model's list of symbols has first.
  unfoldable pub find_message : ℕ → ℕ → Option ℕ
  find_message zero index = none
  find_message (suc n) index =
      let symbol = semantics.symbol index in
      let later = find_message n (index + 1) in
      let is_field = elim symbol.kind as (λ x. Bool) [ SymbolKind.field ↦ true | _ ↦ false ] in
      let has_no_file = elim symbol.file as (λ x. Bool) [ none ↦ true | some f ↦ false ] in
      if is_field && has_no_file && text_eq symbol.name (codes "Message") then some index else later

  unfoldable pub core_error_message_symbol : Option ℕ
  unfolding find_message
  core_error_message_symbol = find_message semantics.symbol_count 0

  -- One reference slot of a field at `aligned`.
  unfoldable pub reference_slot : AbiTypeLayout → ℕ → ℕ → Laid ℕ
  unfolding checked_add
  reference_slot type aligned reference =
      let message = codes "field has an invalid reference-slot layout" in
      do
        shifted ← or_fail (checked_add aligned reference) message
        require
            (not (
              ltb type.storage.size reference
              || ltb (type.storage.size - reference) target.pointer.size
              || shifted % target.pointer.alignment /= 0))
            message
        laid shifted

  unfoldable pub add_references : AbiTypeLayout → ℕ → List ℕ → List ℕ → Laid (List ℕ)
  unfolding reference_slot
  add_references type aligned [] references = laid references
  add_references type aligned (reference ∷ offsets) references =
      reference_slot type aligned reference >>= λ shifted.
      add_references type aligned offsets (references ++ shifted ∷ [])

  -- The depth of a struct with a struct in it.
  unfoldable pub nest : ℕ → ℕ → Laid ℕ
  nest owner depth =
      let deeper = max depth ((layouts owner).depth + 1) in
      do
        require (not (ltb max_struct_depth deeper))
            (codes "struct exceeds the inline nesting limit of 128")
        laid deeper

  unfoldable pub nested_depth : Option ℕ → ℕ → Laid ℕ
  unfolding nest
  nested_depth none depth = laid depth
  nested_depth (some type) depth = do
    owner ← or_fail (semantics.type type).file (codes "inline struct field has no nominal owner")
    nest owner depth

  unfoldable pub add_instance : Bool → ℕ → Laid ℕ
  add_instance false count = laid count
  add_instance true count = do
    require (not (ltb max_struct_fields (count + 1)))
        (codes "struct exceeds the instance-field limit of 65536")
    laid (count + 1)

  -- The place of one field that is not static.
  unfoldable pub place_field : Bool → ℕ → ℕ → LayoutState → Laid LayoutState
  unfolding is_power_of_two checked_add checked_align add_references nested_depth add_instance
      inline_struct_type
  place_field aggregate symbol type_id state =
      let type = types type_id in
      let alignment = type.storage.alignment in
      do
        count ← add_instance aggregate state.instance_count
        require
            (not (
              has_no_storage type.kind
              || type.storage.size == 0
              || not (is_power_of_two alignment)))
            (codes "field has no valid ABI storage layout")
        aligned ←
            or_fail (checked_align state.offset alignment)
              (codes "field alignment overflows the target layout")
        end ←
            or_fail (checked_add aligned type.storage.size)
              (codes "field size overflows the target layout")
        require
            (not (
              ltb (max_layout_references - length state.references)
                (length type.reference_offsets)))
            (codes "layout exceeds the reference-slot limit of 65536")
        references ← add_references type aligned type.reference_offsets state.references
        depth ←
            nested_depth (if aggregate then inline_struct_type type_id semantics else none)
              state.depth
        laid (record {
          offset = end;
          alignment = max state.alignment alignment;
          depth = depth;
          fields =
              state.fields ++ record { symbol = symbol; type = type_id; offset = aligned } ∷ [];
          references = references;
          instance_count = count;
        })

  unfoldable pub place_fields : Bool → List ℕ → LayoutState → Laid LayoutState
  unfolding place_field
  place_fields aggregate [] state = laid state
  place_fields aggregate (field ∷ fields) state =
      let symbol = semantics.symbol field in
      let placed =
        if symbol.is_static then laid state else place_field aggregate field symbol.type state in
      placed >>= place_fields aggregate fields

  -- The field `Message` of the root of errors.
  unfoldable pub place_message : LayoutState → Laid LayoutState
  unfolding core_error_message_symbol checked_align checked_add
  place_message state =
      let type = types semantics.string_type in
      let message = codes "compiler Error.Message layout overflows the target" in
      do
        symbol ←
            or_fail core_error_message_symbol (codes "compiler Error.Message field is unavailable")
        aligned ← or_fail (checked_align state.offset type.storage.alignment) message
        end ← or_fail (checked_add aligned type.storage.size) message
        laid (record state {
          offset = end;
          alignment = max state.alignment type.storage.alignment;
          fields =
              state.fields
              ++ record { symbol = symbol; type = semantics.string_type; offset = aligned } ∷ [];
          references = state.references ++ aligned ∷ [];
        })

  unfoldable pub header_size : Bool → ℕ
  header_size aggregate = if aggregate then 0 else target.pointer.size * target.object_header_words

  unfoldable pub empty_state : Bool → LayoutState
  unfolding header_size
  empty_state aggregate = record {
    offset = header_size aggregate;
    alignment = if aggregate then 1 else target.pointer.alignment;
    depth = if aggregate then 1 else 0;
    fields = [];
    references = [];
    instance_count = 0;
  }

  -- The state before the loop: the fields of the base, or the message of an error, or none.
  unfoldable pub start_state : FileTypeKind → Option ℕ → LayoutState → Laid LayoutState
  unfolding place_message
  start_state kind (some file) state =
      let base = layouts file in
      laid (record state {
        offset = base.storage.size;
        alignment = max state.alignment base.storage.alignment;
        fields = base.storage.fields;
        references = base.references;
      })
  start_state kind none state = if is_error_kind kind then place_message state else laid state

  unfoldable pub finish_layout : Bool → LayoutState → Laid FileLayout
  unfolding checked_align header_size
  finish_layout aggregate state = do
    size ←
        or_fail
          (checked_align (if aggregate then max state.offset 1 else state.offset) state.alignment)
          (codes "padded size overflows the target layout")
    require (not (aggregate && ltb max_struct_size size))
        (codes "struct exceeds the padded-size limit of 1048576 bytes")
    laid (record {
      storage = record {
        header_size = header_size aggregate;
        size = size;
        alignment = state.alignment;
        fields = state.fields;
      };
      references = state.references;
      depth = state.depth;
    })

  unfoldable pub file_layout : FileTypeKind → MirFileClass → Laid FileLayout
  unfolding empty_state start_state place_fields finish_layout
  file_layout kind file =
      let aggregate = is_struct kind in
      let laid_out = start_state kind file.base_file (empty_state aggregate) >>= λ start.
      place_fields aggregate file.fields start >>= finish_layout aggregate in
      if is_enum kind
      then laid (record {
        storage = record { header_size = 0; size = 0; alignment = 1; fields = [] };
        references = [];
        depth = 0;
      })
      else laid_out

  -- With the report of a failure at the symbol of the file.
  unfoldable pub lower_file_layout :
      FileTypeKind → MirFileClass → DiagnosticEngine → Option FileLayout × DiagnosticEngine
  unfolding file_layout
  lower_file_layout kind file engine = elim (file_layout kind file) [
    | laid layout ↦ (some layout, engine)
    | failed message ↦ (none, report_error (semantics.symbol file.symbol).range message engine)
  ]
