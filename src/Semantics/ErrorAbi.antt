-- ===== src/Semantics/ErrorAbi.antt =====
-- `callable_uses_error_abi` (src/sema/semantic_model.cc): a search over the functions that a function
-- overrides or implements for one that throws.
pub mod Implements
pub mod Leads
pub mod Reaches
pub mod Search
use c_cloth.Base.{
  ℕ, zero, suc, ◌+◌, Bool, true, false, ◌==◌, ltb, leb, not, ◌||◌, ◌&&◌, if◌then◌else◌, List, [],
  ◌∷◌, ◌++◌, length, Option, none, some,
}
use c_cloth.Semantics.{SemanticModel, InterfaceImplementation}

-- The functions of the interface at the positions where `current` is the implementation.
unfoldable pub implemented : ℕ → List ℕ → List ℕ → List ℕ
implemented current (f ∷ functions) (g ∷ interface_functions) =
    let rest = implemented current functions interface_functions in
    if f == current then g ∷ rest else rest
implemented current _ _ = []

-- Elements put on a stack, one after the other.
unfoldable pub push_all : List ℕ → List ℕ → List ℕ
push_all [] pending = pending
push_all (x ∷ xs) pending = push_all xs (x ∷ pending)

abbrev pub mark : ℕ → (ℕ → Bool) → ℕ → Bool
mark current visited symbol = symbol == current || visited symbol

module _ (semantics : SemanticModel) where
  unfoldable pub interface_symbols : ℕ → List InterfaceImplementation → List ℕ
  unfolding implemented
  interface_symbols current [] = []
  interface_symbols current (implementation ∷ implementations) =
      let interface_file = semantics.file implementation.interface_file in
      let found =
        if leb semantics.file_count implementation.interface_file
        then []
        else implemented current implementation.functions interface_file.interface_functions in
      found ++ interface_symbols current implementations

  unfoldable pub owner_symbols : ℕ → Option ℕ → List ℕ
  unfolding interface_symbols
  owner_symbols current none = []
  owner_symbols current (some file) =
      if leb semantics.file_count file
      then []
      else interface_symbols current (semantics.file file).interface_implementations

  abbrev pub overridden : Option ℕ → List ℕ
  overridden none = []
  overridden (some symbol) = symbol ∷ []

  -- The symbols that a round pushes for a symbol.
  unfoldable pub successors : ℕ → List ℕ
  unfolding owner_symbols
  successors current =
      overridden (semantics.symbol current).overridden_symbol
      ++ owner_symbols current (semantics.symbol current).file

  abbrev pub throws : ℕ → Bool
  throws current = not (length (semantics.symbol current).thrown_types == 0)

  -- The loop, with the end of the vector `pending` first. Each round takes one from it.
  unfoldable pub search : ℕ → List ℕ → (ℕ → Bool) → Bool
  unfolding successors push_all
  search zero pending visited = false
  search (suc fuel) [] visited = false
  search (suc fuel) (current ∷ pending) visited =
      let skipped = search fuel pending visited in
      let visit = search fuel (push_all (successors current) pending) (mark current visited) in
      if leb semantics.symbol_count current || visited current
      then skipped
      else if throws current
      then true
      else visit

  -- The symbols below `n` that are not visited, with what their rounds push.
  unfoldable pub left : (ℕ → Bool) → ℕ → ℕ
  unfolding successors
  left visited zero = 0
  left visited (suc n) = (if visited n then 0 else length (successors n)) + left visited n

  -- Each round takes one symbol, and each symbol is visited once: the fuel is the number of symbols that
  -- are ever pushed, and one more.
  unfoldable pub callable_uses_error_abi : ℕ → Bool
  unfolding search left
  callable_uses_error_abi symbol =
      search (suc (suc (left (λ s. false) semantics.symbol_count))) (symbol ∷ []) (λ s. false)
