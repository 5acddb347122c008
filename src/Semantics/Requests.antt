-- ===== src/Semantics/Requests.antt =====
-- The requests for types in src/sema/semantic_model.cc: each gives the type that it asks for, and keeps
-- one number for each.
use mathlib.Core.Path.{subst}
use c_cloth.Base.{
  ℕ, ◌≡◌, ◌≢◌, ◌⊎◌, inl, inr, refl, sym, ap, ◌∙◌, true, Bool-cases, List, [], ◌∷◌, get_elem?,
  Option, none, some, arith,
}
use c_cloth.Base.Options.{>>=-eq-some, map_some, map_some-inv, some-inj}
use c_cloth.Base.Text.{Bytes, codes}
use c_cloth.Numeric.{TypeKind, same_kind, same_kind→eq, array, nullable}
use c_cloth.Semantics.{SemanticType}
use c_cloth.Semantics.Types.{
  TypeTable, find_element, add_type, type_on, get_type_on, get_array_type, get_nullable_type,
}
use c_cloth.Semantics.Interned.{
  IsInterned, IsFresh, Keeps, Keeps-refl, Keeps-append, snoc-IsInterned,
}
use c_cloth.Semantics.Elements.{
  get_elem?-lt, get_elem?-last, IsOn, find_element-some, find_element-none,
}

array≢nullable : array ≢ nullable
array≢nullable h = cc

-- A type on an element that none of its kind is on.
type_on-IsFresh :
    (types : List SemanticType) (kind : TypeKind) (suffix : Bytes) (element : ℕ)
    (type : SemanticType)
    → find_element kind element types 0 ≡ none
    → get_elem? types element ≡ some type
    → (kind ≡ nullable → type.kind ≢ nullable)
    → IsFresh types (type_on kind suffix element type)
type_on-IsFresh types kind suffix element type h at flat = record {
  alone = λ e n k on.
      let same : e ≡ element = cc in
      find_element-none kind element types 0 n h (subst (λ x. IsOn types kind x n) same on);
  inside =
      λ e k. let same : element ≡ e = cc in let l = get_elem?-lt types element at in omega arith;
  flat = λ e on k n at'.
      let same : e ≡ element = cc in
      let one : get_elem? types element ≡ some on =
        subst (λ x. get_elem? types x ≡ some on) same at' in
      let t : type ≡ on = cc in subst (λ x. x.kind ≢ nullable) t (flat n);
}

-- A request gives the number of a type of the kind on the element, in a table that has the types of the
-- one before under their numbers.
pub record IsGiven (kind : TypeKind) (element : ℕ) (t u : TypeTable) (n : ℕ) : Type 0 where
  pub on : IsOn u.types kind element n
  pub interned : IsInterned u.types
  pub keeps : Keeps t.types u.types

get_type_on-IsGiven :
    (kind : TypeKind) (suffix : Bytes) (element : ℕ) (t : TypeTable) {n : ℕ} {u : TypeTable}
    → IsInterned t.types
    → ((type : SemanticType)
        → kind ≡ nullable
        → get_elem? t.types element ≡ some type
        → type.kind ≢ nullable)
    → get_type_on kind suffix element t ≡ some (n, u)
    → IsGiven kind element t u n
unfolding get_type_on add_type
get_type_on-IsGiven kind suffix element t {n} {u} h flat e =
    given (find_element kind element t.types 0) refl e
  where
    given :
        (found : Option ℕ)
        → find_element kind element t.types 0 ≡ found
        → (elim found as (λ x. Option (ℕ × TypeTable)) [
          | some index ↦ some (index, t)
          | none ↦
              map_some
                (λ type. add_type (type_on kind suffix element type) t)
                (get_elem? t.types element)
        ])
          ≡ some (n, u)
        → IsGiven kind element t u n
    given (some index) f e =
        let (m, p, on) = find_element-some kind element t.types 0 f in
        let a : m ≡ n = omega (arith, p, ap (λ x. x.0) (some-inj e)) in
        let b : t ≡ u = ap (λ x. x.1) (some-inj e) in
        subst (IsGiven kind element t u) a (
          subst (λ u. IsGiven kind element t u m) b
            (record { on = on; interned = h; keeps = Keeps-refl t.types }))
    given none f e =
        let (type, at, p) =
          map_some-inv (λ type. add_type (type_on kind suffix element type) t)
            (get_elem? t.types element) e in
        let new = type_on kind suffix element type in
        subst (λ r. IsGiven kind element t r.1 r.0) p
          (record {
            on = record { type = new; at = get_elem?-last t.types new; same = refl; on = refl };
            interned =
                snoc-IsInterned t.types new h
                  (type_on-IsFresh t.types kind suffix element type f at (λ k. flat type k at));
            keeps = Keeps-append t.types (new ∷ []);
          })

pub get_array_type-IsGiven :
    (element : ℕ) (t : TypeTable) {n : ℕ} {u : TypeTable}
    → IsInterned t.types
    → get_array_type element t ≡ some (n, u)
    → IsGiven array element t u n
unfolding get_array_type
get_array_type-IsGiven element t h e =
    get_type_on-IsGiven array (codes "[]") element t h (λ type k at. absurd (array≢nullable k)) e

-- A request for a nullable type gives one, or the type itself where it is nullable already.
pub get_nullable_type-IsGiven :
    (underlying : ℕ) (t : TypeTable) {n : ℕ} {u : TypeTable}
    → IsInterned t.types
    → get_nullable_type underlying t ≡ some (n, u)
    → ((n ≡ underlying)
        × (t ≡ u)
        × ((type : SemanticType) × (get_elem? t.types n ≡ some type) × (type.kind ≡ nullable)))
      ⊎ IsGiven nullable underlying t u n
unfolding get_nullable_type
get_nullable_type-IsGiven underlying t {n} {u} h e =
    let (type, at, k) = >>=-eq-some (get_elem? t.types underlying) _ e in
    elim (Bool-cases (same_kind type.kind nullable)) [
      | inl s ↦
          let k' = rw s at k in
          let a : underlying ≡ n = ap (λ x. x.0) (some-inj k') in
          let b : t ≡ u = ap (λ x. x.1) (some-inj k') in
          inl (
            sym a,
            b,
            (type, ap (get_elem? t.types) (sym a) ∙ at, same_kind→eq type.kind nullable s),
          )
      | inr s ↦
          let k' = rw s at k in
          inr (
            get_type_on-IsGiven nullable (codes "?") underlying t h
              (λ other p at' q.
                let one : type ≡ other = some-inj (sym at ∙ at') in
                let c : same_kind type.kind nullable ≡ true =
                  ap (λ x. same_kind x nullable) (ap (λ x. x.kind) one ∙ q) in
                cc)
              k')
    ]
