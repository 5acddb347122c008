-- ===== src/Semantics/ErrorAbi/Leads.antt =====
-- The functions that a function overrides or implements, against those that a round of
-- `callable_uses_error_abi` (src/sema/semantic_model.cc) pushes.
use c_cloth.Base.{
  ℕ, ◌<◌, ◌≡◌, refl, ap, ◌∙◌, true, false, leb, [], ◌∷◌, Option, none, some, arith, Bool-cases, inl,
  inr,
}
use c_cloth.Semantics.{SemanticModel}
use c_cloth.Semantics.ErrorAbi.{interface_symbols, owner_symbols, overridden, successors}
use c_cloth.Semantics.ErrorAbi.Implements.{
  elem, elem-append, Implements, interface_symbols-Implements, elem-interface_symbols,
}

module _ (semantics : SemanticModel) where
  -- The function overrides `next`, or its class implements `next` with it.
  pub data Leads : ℕ → ℕ → Type 0 where
    overrides :
        (symbol next : ℕ)
        → (semantics.symbol symbol).overridden_symbol ≡ some next
        → Leads symbol next
    implements :
        (symbol next file : ℕ)
        → (semantics.symbol symbol).file ≡ some file
        → file < semantics.file_count
        → Implements semantics symbol next (semantics.file file).interface_implementations
        → Leads symbol next

  owner_symbols-Leads :
      (symbol next : ℕ) (owner : Option ℕ)
      → (semantics.symbol symbol).file ≡ owner
      → elem next (owner_symbols semantics symbol owner) ≡ true
      → Leads symbol next
  unfolding owner_symbols
  owner_symbols-Leads symbol next none e h = cc
  owner_symbols-Leads symbol next (some file) e h =
      elim (Bool-cases (leb semantics.file_count file)) [
        | inl k ↦ let h' = rw k at h in cc
        | inr k ↦ implements symbol next file e (ground arith) (
            interface_symbols-Implements semantics symbol next
              (semantics.file file).interface_implementations (rw k at h))
      ]

  overridden-Leads :
      (symbol next : ℕ) (o : Option ℕ)
      → (semantics.symbol symbol).overridden_symbol ≡ o
      → elem next (overridden semantics o) ≡ true
      → Leads symbol next
  overridden-Leads symbol next none e h = cc
  overridden-Leads symbol next (some other) e h = overrides symbol next (e ∙ ap some (ground arith))

  pub successors-Leads :
      (symbol next : ℕ) → elem next (successors semantics symbol) ≡ true → Leads symbol next
  unfolding successors
  successors-Leads symbol next h =
      let first = overridden semantics (semantics.symbol symbol).overridden_symbol in
      let second = owner_symbols semantics symbol (semantics.symbol symbol).file in
      let e = elem-append next first second in
      elim (Bool-cases (elem next first)) [
        | inl m ↦ overridden-Leads symbol next (semantics.symbol symbol).overridden_symbol refl m
        | inr m ↦ owner_symbols-Leads symbol next (semantics.symbol symbol).file refl (ground arith)
      ]

  pub elem-successors :
      (symbol next : ℕ) → Leads symbol next → elem next (successors semantics symbol) ≡ true
  unfolding successors owner_symbols
  elem-successors symbol next (overrides _ _ o) =
      let second = owner_symbols semantics symbol (semantics.symbol symbol).file in
      let e = elem-append next (next ∷ []) second in rw o (ground arith)
  elem-successors symbol next (implements _ _ file o known i) =
      let first = overridden semantics (semantics.symbol symbol).overridden_symbol in
      let k : leb semantics.file_count file ≡ false = ground arith in
      let list = (semantics.file file).interface_implementations in
      let m =
        elem-interface_symbols semantics symbol next i.index list i.implementation i.at i.known
          i.stands in
      let e = elem-append next first (interface_symbols semantics symbol list) in
      rw (o, k) (ground arith)
