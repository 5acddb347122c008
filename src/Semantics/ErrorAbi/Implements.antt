-- ===== src/Semantics/ErrorAbi/Implements.antt =====
-- The interfaces that a class implements, against the search of `callable_uses_error_abi`
-- (src/sema/semantic_model.cc).
use mathlib.Core.Path.{subst}
use c_cloth.Base.{
  ℕ, zero, suc, ◌<◌, ◌≡◌, refl, sym, ap, Bool, true, false, ◌==◌, leb, ◌||◌, List, [], ◌∷◌, ◌++◌,
  get_elem?, some, arith, Bool-cases, inl, inr,
}
use c_cloth.Base.Options.{some-inj}
use c_cloth.Semantics.{SemanticModel, InterfaceImplementation}
use c_cloth.Semantics.ErrorAbi.{implemented, interface_symbols}

abbrev pub elem : ℕ → List ℕ → Bool
elem x [] = false
elem x (y ∷ ys) = y == x || elem x ys

pub elem-append : (x : ℕ) (xs ys : List ℕ) → elem x (xs ++ ys) ≡ (elem x xs || elem x ys)
elem-append x [] ys = refl
elem-append x (z ∷ xs) ys = ground (arith, elem-append x xs ys)

-- The function stands for `next` at a position of both lists.
pub record StandsFor (symbol next : ℕ) (functions interface_functions : List ℕ) : Type 0 where
  pub position : ℕ
  pub function : get_elem? functions position ≡ some symbol
  pub interface_function : get_elem? interface_functions position ≡ some next

StandsFor-cons :
    (symbol next f g : ℕ) (fs gs : List ℕ)
    → StandsFor symbol next fs gs
    → StandsFor symbol next (f ∷ fs) (g ∷ gs)
StandsFor-cons symbol next f g fs gs s = record {
  position = suc s.position;
  function = s.function;
  interface_function = s.interface_function;
}

implemented-StandsFor :
    (symbol next : ℕ) (functions interface_functions : List ℕ)
    → elem next (implemented symbol functions interface_functions) ≡ true
    → StandsFor symbol next functions interface_functions
unfolding implemented
implemented-StandsFor symbol next (f ∷ fs) (g ∷ gs) h = elim (Bool-cases (f == symbol)) [
  | inl e ↦ elim (Bool-cases (g == next)) [
    | inl k ↦ record {
      position = 0;
      function = ap some (ground arith);
      interface_function = ap some (ground arith);
    }
    | inr k ↦
        let h' = rw (e, k) at h in
        StandsFor-cons symbol next f g fs gs (implemented-StandsFor symbol next fs gs h')
  ]
  | inr e ↦
      StandsFor-cons symbol next f g fs gs (implemented-StandsFor symbol next fs gs (rw e at h))
]
implemented-StandsFor symbol next (f ∷ fs) [] h = cc
implemented-StandsFor symbol next [] gs h = cc

elem-implemented :
    (symbol next position : ℕ) (functions interface_functions : List ℕ)
    → get_elem? functions position ≡ some symbol
    → get_elem? interface_functions position ≡ some next
    → elem next (implemented symbol functions interface_functions) ≡ true
unfolding implemented
elem-implemented symbol next zero (f ∷ fs) (g ∷ gs) p q =
    let a : f ≡ symbol = some-inj p in let b : g ≡ next = some-inj q in ground arith
elem-implemented symbol next (suc n) (f ∷ fs) (g ∷ gs) p q =
    let rest = elem-implemented symbol next n fs gs p q in ground arith
elem-implemented symbol next n [] gs p q = cc
elem-implemented symbol next n (f ∷ fs) [] p q = cc

module _ (semantics : SemanticModel) where
  -- One of the implementations of interfaces has the function for `next`.
  pub record Implements (symbol next : ℕ) (list : List InterfaceImplementation) : Type 0 where
    pub index : ℕ
    pub implementation : InterfaceImplementation
    pub at : get_elem? list index ≡ some implementation
    pub known : implementation.interface_file < semantics.file_count
    pub stands :
        StandsFor symbol next implementation.functions
          (semantics.file implementation.interface_file).interface_functions

  Implements-cons :
      (symbol next : ℕ) (i : InterfaceImplementation) (list : List InterfaceImplementation)
      → Implements symbol next list
      → Implements symbol next (i ∷ list)
  Implements-cons symbol next i list h = record {
    index = suc h.index;
    implementation = h.implementation;
    at = h.at;
    known = h.known;
    stands = h.stands;
  }

  pub interface_symbols-Implements :
      (symbol next : ℕ) (implementations : List InterfaceImplementation)
      → elem next (interface_symbols semantics symbol implementations) ≡ true
      → Implements symbol next implementations
  unfolding interface_symbols
  interface_symbols-Implements symbol next [] h = cc
  interface_symbols-Implements symbol next (i ∷ implementations) h =
      let here =
        implemented symbol i.functions (semantics.file i.interface_file).interface_functions in
      let later = interface_symbols semantics symbol implementations in
      elim (Bool-cases (leb semantics.file_count i.interface_file)) [
        | inl k ↦
            Implements-cons symbol next i implementations
              (interface_symbols-Implements symbol next implementations (rw k at h))
        | inr k ↦
            let h' = rw k at h in
            let e = elem-append next here later in
            elim (Bool-cases (elem next here)) [
              | inl m ↦ record {
                index = 0;
                implementation = i;
                at = refl;
                known = ground arith;
                stands =
                    implemented-StandsFor symbol next i.functions
                      (semantics.file i.interface_file).interface_functions m;
              }
              | inr m ↦
                  Implements-cons symbol next i implementations
                    (interface_symbols-Implements symbol next implementations (ground arith))
            ]
      ]

  pub elem-interface_symbols :
      (symbol next index : ℕ) (implementations : List InterfaceImplementation)
      (i : InterfaceImplementation)
      → get_elem? implementations index ≡ some i
      → i.interface_file < semantics.file_count
      → StandsFor symbol next i.functions (semantics.file i.interface_file).interface_functions
      → elem next (interface_symbols semantics symbol implementations) ≡ true
  unfolding interface_symbols
  elem-interface_symbols symbol next index [] i at known s = cc
  elem-interface_symbols symbol next zero (j ∷ implementations) i at known s =
      let same : i ≡ j = sym (some-inj at) in
      let known' = subst (λ x. x.interface_file < semantics.file_count) same known in
      let s' =
        subst
          (λ x.
            StandsFor symbol next x.functions (semantics.file x.interface_file).interface_functions)
          same s in
      let k : leb semantics.file_count j.interface_file ≡ false = ground arith in
      let functions = (semantics.file j.interface_file).interface_functions in
      let m =
        elem-implemented symbol next s'.position j.functions functions s'.function
          s'.interface_function in
      let e =
        elem-append next (implemented symbol j.functions functions)
          (interface_symbols semantics symbol implementations) in
      rw k (ground arith)
  elem-interface_symbols symbol next (suc index) (j ∷ implementations) i at known s =
      let m = elem-interface_symbols symbol next index implementations i at known s in
      let functions = (semantics.file j.interface_file).interface_functions in
      let e =
        elem-append next (implemented symbol j.functions functions)
          (interface_symbols semantics symbol implementations) in
      elim (Bool-cases (leb semantics.file_count j.interface_file)) [
        | inl k ↦ rw k m
        | inr k ↦ rw k (ground arith)
      ]
