-- ===== src/Semantics/Interned.antt =====
-- What the table of types of `SemanticModel` (src/sema/semantic_model.cc) keeps: one number for each
-- type on an element.
use c_cloth.Base.{
  ℕ, zero, suc, ◌<◌, ◌≡◌, ◌≢◌, ◌⊎◌, inl, inr, refl, sym, ap, ◌∙◌, List, [], ◌∷◌, ◌++◌, length,
  get_elem?, none, some, arith,
}
use c_cloth.Numeric.{TypeKind, nullable}
use c_cloth.Semantics.{SemanticType}
use c_cloth.Semantics.Elements.{get_elem?-lt, get_elem?-append, get_elem?-snoc, IsOn}

-- No two types of a kind on an element, each behind its element, and no nullable type on a nullable one.
pub record IsInterned (types : List SemanticType) : Type 0 where
  pub unique :
      (kind : TypeKind) (element m n : ℕ)
      → IsOn types kind element m
      → IsOn types kind element n
      → m ≡ n
  pub behind : (kind : TypeKind) (element n : ℕ) → IsOn types kind element n → element < n
  pub flat :
      (element n : ℕ) (type : SemanticType)
      → IsOn types nullable element n
      → get_elem? types element ≡ some type
      → type.kind ≢ nullable

-- The new type of a list with one more is on no element, or on one that no other type of its kind is on.
pub record IsFresh (types : List SemanticType) (type : SemanticType) : Type 0 where
  pub alone : (element n : ℕ) → type.element_type ≡ some element → ¬ IsOn types type.kind element n
  pub inside : (element : ℕ) → type.element_type ≡ some element → element < length types
  pub flat :
      (element : ℕ) (on : SemanticType)
      → type.element_type ≡ some element
      → type.kind ≡ nullable
      → get_elem? types element ≡ some on
      → on.kind ≢ nullable

-- A type has the same number, kind and element in the second list.
pub record IsKept (types : List SemanticType) (n : ℕ) (type : SemanticType) : Type 0 where
  pub now : SemanticType
  pub at : get_elem? types n ≡ some now
  pub same : now.kind ≡ type.kind
  pub on : now.element_type ≡ type.element_type

abbrev pub Keeps : List SemanticType → List SemanticType → Type 0
Keeps types later =
    (n : ℕ) (type : SemanticType) → get_elem? types n ≡ some type → IsKept later n type

pub Keeps-refl : (types : List SemanticType) → Keeps types types
Keeps-refl types n type h = record { now = type; at = h; same = refl; on = refl }

pub Keeps-append : (types more : List SemanticType) → Keeps types (types ++ more)
Keeps-append types more n type h = record {
  now = type;
  at = get_elem?-append types more n h;
  same = refl;
  on = refl;
}

pub Keeps-trans :
    (types later last : List SemanticType) → Keeps types later → Keeps later last → Keeps types last
Keeps-trans types later last h k n type at =
    let p = h n type at in
    let q = k n p.now p.at in
    record { now = q.now; at = q.at; same = q.same ∙ p.same; on = q.on ∙ p.on }

pub Keeps-cons :
    (x : SemanticType) (types later : List SemanticType)
    → Keeps types later
    → Keeps (x ∷ types) (x ∷ later)
Keeps-cons x types later h zero type at = record { now = type; at = at; same = refl; on = refl }
Keeps-cons x types later h (suc n) type at =
    let p = h n type at in record { now = p.now; at = p.at; same = p.same; on = p.on }

pub Keeps-IsOn :
    (types later : List SemanticType) (kind : TypeKind) (element n : ℕ)
    → Keeps types later
    → IsOn types kind element n
    → IsOn later kind element n
Keeps-IsOn types later kind element n h on =
    let p = h n on.type on.at in
    record { type = p.now; at = p.at; same = p.same ∙ on.same; on = p.on ∙ on.on }

pub IsOn-snoc :
    (types : List SemanticType) (type : SemanticType) (kind : TypeKind) (element n : ℕ)
    → IsOn (types ++ type ∷ []) kind element n
    → IsOn types kind element n
      ⊎ ((n ≡ length types) × (type.kind ≡ kind) × (type.element_type ≡ some element))
IsOn-snoc types type kind element n on = elim (get_elem?-snoc types type n on.at) [
  | inl at ↦ inl (record { type = on.type; at = at; same = on.same; on = on.on })
  | inr last ↦
      inr (last.0, ap (λ x. x.kind) last.1 ∙ on.same, ap (λ x. x.element_type) last.1 ∙ on.on)
]

pub snoc-IsInterned :
    (types : List SemanticType) (type : SemanticType)
    → IsInterned types
    → IsFresh types type
    → IsInterned (types ++ type ∷ [])
snoc-IsInterned types type h f = record { unique = unique; behind = behind; flat = flat }
  where
    alone :
        (kind : TypeKind) (element n : ℕ)
        → type.kind ≡ kind
        → type.element_type ≡ some element
        → ¬ IsOn types kind element n
    alone kind element n k e on =
        f.alone element n e
          (record { type = on.type; at = on.at; same = on.same ∙ sym k; on = on.on })

    unique :
        (kind : TypeKind) (element m n : ℕ)
        → IsOn (types ++ type ∷ []) kind element m
        → IsOn (types ++ type ∷ []) kind element n
        → m ≡ n
    unique kind element m n p q = elim (IsOn-snoc types type kind element m p) [
      | inl a ↦ elim (IsOn-snoc types type kind element n q) [
        | inl b ↦ h.unique kind element m n a b
        | inr b ↦ absurd (alone kind element m b.1 b.2 a)
      ]
      | inr a ↦ elim (IsOn-snoc types type kind element n q) [
        | inl b ↦ absurd (alone kind element n a.1 a.2 b)
        | inr b ↦ a.0 ∙ sym b.0
      ]
    ]

    behind :
        (kind : TypeKind) (element n : ℕ) → IsOn (types ++ type ∷ []) kind element n → element < n
    behind kind element n p = elim (IsOn-snoc types type kind element n p) [
      | inl a ↦ h.behind kind element n a
      | inr b ↦ let k = f.inside element b.2 in omega (arith, b.0, k)
    ]

    flat :
        (element n : ℕ) (on : SemanticType)
        → IsOn (types ++ type ∷ []) nullable element n
        → get_elem? (types ++ type ∷ []) element ≡ some on
        → on.kind ≢ nullable
    flat element n on p at = elim (IsOn-snoc types type nullable element n p) [
      | inl a ↦ elim (get_elem?-snoc types type element at) [
        | inl b ↦ h.flat element n on a b
        | inr b ↦
            let k = h.behind nullable element n a in
            absurd (omega (arith, k, b.0, get_elem?-lt types n a.at))
      ]
      | inr a ↦ elim (get_elem?-snoc types type element at) [
        | inl b ↦ f.flat element on a.2 a.1 b
        | inr b ↦ absurd (omega (arith, b.0, f.inside element a.2))
      ]
    ]

pub plain-IsFresh :
    (types : List SemanticType) (type : SemanticType)
    → type.element_type ≡ none
    → IsFresh types type
plain-IsFresh types type e = record {
  alone = λ element n h. cc;
  inside = λ element h. cc;
  flat = λ element on h k at. cc;
}
