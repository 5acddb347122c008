-- ===== src/Semantics/Elements.antt =====
-- Types on elements in the table of `SemanticModel` (src/sema/semantic_model.cc), and the search for one.
use c_cloth.Base.{
  ℕ, zero, suc, ◌+◌, ◌<◌, ◌≡◌, ◌⊎◌, inl, inr, refl, ap, ◌∙◌, true, false, Bool-cases, List, [], ◌∷◌,
  ◌++◌, length, get_elem?, Option, none, some, arith, ◌&&◌,
}
use c_cloth.Numeric.{TypeKind, same_kind, same_kind→eq, same_kind_self}
use c_cloth.Semantics.{SemanticType}
use c_cloth.Semantics.Types.{find_element, is_element}

module _ {ℓ} {A : Type ℓ} where
  pub get_elem?-lt : (xs : List A) (n : ℕ) {x : A} → get_elem? xs n ≡ some x → n < length xs
  get_elem?-lt [] n h = cc
  get_elem?-lt (y ∷ xs) zero h = omega arith
  get_elem?-lt (y ∷ xs) (suc n) h = omega (arith, get_elem?-lt xs n h)

  pub get_elem?-of_lt : (xs : List A) (n : ℕ) → n < length xs → (x : A) × (get_elem? xs n ≡ some x)
  get_elem?-of_lt [] n h = absurd (omega (arith, h))
  get_elem?-of_lt (y ∷ xs) zero h = (y, refl)
  get_elem?-of_lt (y ∷ xs) (suc n) h = get_elem?-of_lt xs n (omega (arith, h))

  pub get_elem?-append :
      (xs ys : List A) (n : ℕ) {x : A} → get_elem? xs n ≡ some x → get_elem? (xs ++ ys) n ≡ some x
  get_elem?-append [] ys n h = cc
  get_elem?-append (y ∷ xs) ys zero h = h
  get_elem?-append (y ∷ xs) ys (suc n) h = get_elem?-append xs ys n h

  pub get_elem?-last : (xs : List A) (x : A) → get_elem? (xs ++ x ∷ []) (length xs) ≡ some x
  get_elem?-last [] x = refl
  get_elem?-last (y ∷ xs) x = get_elem?-last xs x

  -- An element of a list with one more is one of the list, or the last.
  pub get_elem?-snoc :
      (xs : List A) (x : A) (n : ℕ) {y : A}
      → get_elem? (xs ++ x ∷ []) n ≡ some y
      → (get_elem? xs n ≡ some y) ⊎ ((n ≡ length xs) × (x ≡ y))
  get_elem?-snoc [] x zero h = inr (refl, cc)
  get_elem?-snoc [] x (suc n) h = cc
  get_elem?-snoc (z ∷ xs) x zero h = inl h
  get_elem?-snoc (z ∷ xs) x (suc n) h = elim (get_elem?-snoc xs x n h) [
    | inl k ↦ inl k
    | inr k ↦ inr (ap suc k.0, k.1)
  ]

-- The type with the number `n` is of a kind on an element.
pub record IsOn (types : List SemanticType) (kind : TypeKind) (element n : ℕ) : Type 0 where
  pub type : SemanticType
  pub at : get_elem? types n ≡ some type
  pub same : type.kind ≡ kind
  pub on : type.element_type ≡ some element

is_element-eq : (o : Option ℕ) (e : ℕ) → is_element o e ≡ true → o ≡ some e
is_element-eq none e h = cc
is_element-eq (some d) e h = ap some (ground arith)

pub find_element-some :
    (kind : TypeKind) (element : ℕ) (types : List SemanticType) (index : ℕ) {found : ℕ}
    → find_element kind element types index ≡ some found
    → (n : ℕ) × (found ≡ index + n) × IsOn types kind element n
unfolding find_element
find_element-some kind element [] index h = cc
find_element-some kind element (type ∷ types) index {found} h =
    elim (Bool-cases (same_kind type.kind kind && is_element type.element_type element)) [
      | inl e ↦
          let h' = rw e at h in
          let both : (same_kind type.kind kind ≡ true)
              × (is_element type.element_type element ≡ true) =
            ground arith in
          (
            0,
            ground arith,
            record {
              type = type;
              at = refl;
              same = same_kind→eq type.kind kind both.0;
              on = is_element-eq type.element_type element both.1;
            },
          )
      | inr e ↦
          let h' = rw e at h in
          let (n, p, on) = find_element-some kind element types (index + 1) h' in
          (
            suc n,
            omega (arith, p),
            record { type = on.type; at = on.at; same = on.same; on = on.on },
          )
    ]

-- A search that finds nothing goes on behind the first type.
find_element-none-cons :
    (kind : TypeKind) (element : ℕ) (type : SemanticType) (types : List SemanticType) (index : ℕ)
    → find_element kind element (type ∷ types) index ≡ none
    → ((same_kind type.kind kind && is_element type.element_type element) ≡ false)
      × (find_element kind element types (index + 1) ≡ none)
unfolding find_element
find_element-none-cons kind element type types index h =
    elim (Bool-cases (same_kind type.kind kind && is_element type.element_type element)) [
      | inl e ↦ let h' = rw e at h in cc
      | inr e ↦ let h' = rw e at h in (e, h')
    ]

pub find_element-none :
    (kind : TypeKind) (element : ℕ) (types : List SemanticType) (index n : ℕ)
    → find_element kind element types index ≡ none
    → ¬ IsOn types kind element n
find_element-none kind element [] index n h on = let at = on.at in cc
find_element-none kind element (type ∷ types) index zero h on =
    let (e, k) = find_element-none-cons kind element type types index h in
    let at = on.at in
    let t : type ≡ on.type = cc in
    let p : type.kind ≡ kind = ap (λ x. x.kind) t ∙ on.same in
    let q : type.element_type ≡ some element = ap (λ x. x.element_type) t ∙ on.on in
    let e' = rw (p, q, same_kind_self kind) at e in ground arith
find_element-none kind element (type ∷ types) index (suc n) h on =
    let (e, k) = find_element-none-cons kind element type types index h in
    find_element-none kind element types (index + 1) n k
      (record { type = on.type; at = on.at; same = on.same; on = on.on })
