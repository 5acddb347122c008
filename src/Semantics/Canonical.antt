-- ===== src/Semantics/Canonical.antt =====
-- The numbers of array and nullable types in src/sema/semantic_model.cc stand for the types.
use mathlib.Core.Path.{subst}
use native.Mathlib.Decide.{dec_le}
use c_cloth.Base.{
  ℕ, ◌≤◌, ◌≡◌, inl, inr, sym, ap, ◌∙◌, ◌↔◌, List, length, get_elem?, none, some, arith,
}
use c_cloth.Base.Options.{some-inj, Option-cases}
use c_cloth.Numeric.{TypeKind, array, nullable}
use c_cloth.Semantics.{SemanticType}
use c_cloth.Semantics.Types.{
  TypeTable, get_type_on, get_array_type, get_nullable_type, find_element,
}
use c_cloth.Semantics.Elements.{get_elem?-lt, get_elem?-of_lt, IsOn, find_element-some}
use c_cloth.Semantics.Interned.{IsInterned, Keeps-IsOn}
use c_cloth.Semantics.Requests.{get_array_type-IsGiven, get_nullable_type-IsGiven}
use c_cloth.Semantics.Reachable.{Steps, Steps-StepKeeps}

-- A number is that of one type.
IsOn-element :
    (types : List SemanticType) (kind : TypeKind) (d e n : ℕ)
    → IsOn types kind d n
    → IsOn types kind e n
    → d ≡ e
IsOn-element types kind d e n p q =
    let t : p.type ≡ q.type = some-inj (sym p.at ∙ q.at) in
    some-inj (sym p.on ∙ ap (λ x. x.element_type) t ∙ q.on)

-- Two requests for array types, with any operations on the types between them, give the same number
-- just where the elements are the same. This holds in a table that has each type once.
pub get_array_type-eq_iff :
    (d e : ℕ) (t : TypeTable) {u v w : TypeTable} {m n : ℕ}
    → IsInterned t.types
    → get_array_type d t ≡ some (m, u)
    → Steps u v
    → get_array_type e v ≡ some (n, w)
    → (m ≡ n) ↔ (d ≡ e)
get_array_type-eq_iff d e t {u} {v} {w} {m} {n} h p steps q =
    let g = get_array_type-IsGiven d t h p in
    let k = Steps-StepKeeps g.interned steps in
    let f = get_array_type-IsGiven e v k.0 q in
    let first =
      Keeps-IsOn v.types w.types array d m f.keeps
        (Keeps-IsOn u.types v.types array d m k.1 g.on) in
    (
      λ same. IsOn-element w.types array d e n (subst (IsOn w.types array d) same first) f.on,
      λ same. f.interned.unique array e m n (subst (λ x. IsOn w.types array x m) same first) f.on,
    )

get_nullable_type-nullable :
    (n : ℕ) (t : TypeTable) (type : SemanticType)
    → get_elem? t.types n ≡ some type
    → type.kind ≡ nullable
    → get_nullable_type n t ≡ some (n, t)
unfolding get_nullable_type
get_nullable_type-nullable n t type at same = rw (at, same)

-- A request for the nullable type of what a request for a nullable type gave gives that again, with
-- the table as it is, after any operations on the types. This holds from a table that has each type once.
pub get_nullable_type_again :
    (e : ℕ) (t : TypeTable) {u v : TypeTable} {n : ℕ}
    → IsInterned t.types
    → get_nullable_type e t ≡ some (n, u)
    → Steps u v
    → get_nullable_type n v ≡ some (n, v)
get_nullable_type_again e t {u} {v} {n} h p steps = elim (get_nullable_type-IsGiven e t h p) [
  | inl k ↦
      let (type, at, same) = k.2 in
      let h' = subst (λ x. IsInterned x.types) k.1 h in
      let at' = subst (λ x. get_elem? x.types n ≡ some type) k.1 at in
      let now = (Steps-StepKeeps h' steps).1 n type at' in
      get_nullable_type-nullable n v now.now now.at (now.same ∙ same)
  | inr g ↦
      let now = (Steps-StepKeeps g.interned steps).1 n g.on.type g.on.at in
      get_nullable_type-nullable n v now.now now.at (now.same ∙ g.on.same)
]

element_of_missing :
    (e : ℕ) (t : TypeTable)
    → get_array_type e t ≡ none
    → (find_element array e t.types 0 ≡ none) × (get_elem? t.types e ≡ none)
unfolding get_array_type get_type_on
element_of_missing e t h = elim (Option-cases (find_element array e t.types 0)) [
  | inl f ↦ elim (Option-cases (get_elem? t.types e)) [
    | inl g ↦ (f, g)
    | inr g ↦ let h' = rw (f, g.1, get_array_type, get_type_on) at h in cc
  ]
  | inr f ↦ let h' = rw (f.1, get_array_type, get_type_on) at h in cc
]

missing_of_element :
    (e : ℕ) (t : TypeTable)
    → find_element array e t.types 0 ≡ none
    → get_elem? t.types e ≡ none
    → get_array_type e t ≡ none
unfolding get_array_type get_type_on
missing_of_element e t f g = rw (f, g, get_array_type, get_type_on)

-- A request for an array type fails just where there is no type with the number of its element. This
-- holds in a table that has each type once.
pub get_array_type-none_iff :
    (e : ℕ) (t : TypeTable)
    → IsInterned t.types
    → (get_array_type e t ≡ none) ↔ (length t.types ≤ e)
get_array_type-none_iff e t h = (missing, inside)
  where
    missing : get_array_type e t ≡ none → length t.types ≤ e
    missing k = elim (dec_le (length t.types) e) [
      | yes l ↦ l
      | no l ↦
          let (type, at) = get_elem?-of_lt t.types e (omega (arith, l)) in
          let (f, g) = element_of_missing e t k in cc
    ]

    inside : length t.types ≤ e → get_array_type e t ≡ none
    inside l = elim (Option-cases (find_element array e t.types 0)) [
      | inl f ↦ elim (Option-cases (get_elem? t.types e)) [
        | inl g ↦ missing_of_element e t f g
        | inr g ↦ absurd (omega (arith, l, get_elem?-lt t.types e g.1))
      ]
      | inr f ↦
          let (n, p, on) = find_element-some array e t.types 0 f.1 in
          absurd (omega (arith, l, h.behind array e n on, get_elem?-lt t.types n on.at))
    ]
