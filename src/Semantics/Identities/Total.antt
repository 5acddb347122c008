-- ===== src/Semantics/Identities/Total.antt =====
-- In a verified model each type has a canonical text (src/sema/canonical_identity.cc), whatever the fuel
-- above its number.
use c_cloth.Base.{
  ℕ, zero, suc, ◌<◌, ◌≡◌, refl, ap, ◌∙◌, Bool, true, false, Option, none, some, arith, inl, inr,
}
use c_cloth.Base.Options.{◌>>=◌, map_some, Option-cases}
use c_cloth.Base.Text.{Bytes}
use c_cloth.Numeric.{
  TypeKind, object, error_class, file_class, interface, array, nullable, enum, struct,
}
use c_cloth.Identity.{canonical_array_identity}
use c_cloth.Semantics.{SemanticModel, SemanticType}
use c_cloth.Semantics.Identities.{
  TypeIdentityMode, file_identity, kind_identity, type_identity, canonical_type_identity,
  nullable_identity, core_identity,
}

-- The kinds of types that a file declares, and those of types on an element.
abbrev pub is_declared : TypeKind → Bool
is_declared file_class = true
is_declared interface = true
is_declared enum = true
is_declared struct = true
is_declared _ = false

abbrev pub is_on_element : TypeKind → Bool
is_on_element array = true
is_on_element nullable = true
is_on_element _ = false

abbrev pub IsSome {ℓ} : {A : Type ℓ} → Option A → Type ℓ
IsSome {A = A} o = (a : A) × (o ≡ some a)

-- What the code takes of a verified model: declared types have a file, and arrays and nullable types an
-- element, which was there before them.
pub record IsVerified (semantics : SemanticModel) : Type 0 where
  pub file :
      (type : ℕ) → is_declared (semantics.type type).kind ≡ true → IsSome (semantics.type type).file
  pub element :
      (type : ℕ)
      → is_on_element (semantics.type type).kind ≡ true
      → IsSome (semantics.type type).element_type
  pub below : (type e : ℕ) → (semantics.type type).element_type ≡ some e → e < type

module _ (semantics : SemanticModel) (mode : TypeIdentityMode) where
  file_identity-IsSome :
      (file : Option ℕ) → IsSome file → IsSome (file_identity semantics mode file)
  unfolding file_identity
  file_identity-IsSome none f = let e = f.1 in cc
  file_identity-IsSome (some file) f = (_, refl)

  core_identity-IsSome :
      (file : Option ℕ) (name : Bytes) → IsSome (core_identity semantics mode file name)
  unfolding file_identity core_identity
  core_identity-IsSome none name = (_, refl)
  core_identity-IsSome (some file) name = (_, refl)

  map_some-IsSome : (f : Bytes → Bytes) (o : Option Bytes) → IsSome o → IsSome (map_some f o)
  map_some-IsSome f none s = let e = s.1 in cc
  map_some-IsSome f (some a) s = (f a, refl)

  kind_identity-IsSome :
      (kind : TypeKind) (value : SemanticType) (element : Option Bytes)
      → (is_declared kind ≡ true → IsSome value.file)
      → (is_on_element kind ≡ true → IsSome element)
      → IsSome (kind_identity semantics mode kind value element)
  unfolding kind_identity file_identity
  kind_identity-IsSome object value element f g = core_identity-IsSome value.file _
  kind_identity-IsSome error_class value element f g = core_identity-IsSome value.file value.name
  kind_identity-IsSome file_class value element f g = file_identity-IsSome value.file (f refl)
  kind_identity-IsSome interface value element f g = file_identity-IsSome value.file (f refl)
  kind_identity-IsSome enum value element f g = file_identity-IsSome value.file (f refl)
  kind_identity-IsSome struct value element f g = file_identity-IsSome value.file (f refl)
  kind_identity-IsSome array value element f g =
      map_some-IsSome canonical_array_identity element (g refl)
  kind_identity-IsSome nullable value element f g =
      map_some-IsSome (nullable_identity mode) element (g refl)
  kind_identity-IsSome _ value element f g = (_, refl)

  type_identity-IsSome :
      (fuel type : ℕ)
      → IsVerified semantics
      → type < fuel
      → IsSome (type_identity semantics mode fuel type)
  unfolding type_identity
  type_identity-IsSome zero type v h = absurd (omega (arith, h))
  type_identity-IsSome (suc fuel) type v h =
      let value = semantics.type type in
      kind_identity-IsSome value.kind value
        (value.element_type >>= type_identity semantics mode fuel) (v.file type)
        (λ k.
          let (e, p) = v.element type k in
          let (text, q) = type_identity-IsSome fuel e v (omega (arith, h, v.below type e p)) in
          (text, ap (λ o. o >>= type_identity semantics mode fuel) p ∙ q))

  type_identity-fuel :
      (f g type : ℕ)
      → IsVerified semantics
      → type < f
      → type < g
      → type_identity semantics mode f type ≡ type_identity semantics mode g type
  unfolding type_identity
  type_identity-fuel zero g type v h k = absurd (omega (arith, h))
  type_identity-fuel (suc f) zero type v h k = absurd (omega (arith, k))
  type_identity-fuel (suc f) (suc g) type v h k =
      let value = semantics.type type in
      let at : ℕ → Option Bytes =
        λ fuel. value.element_type >>= type_identity semantics mode fuel in
      let same : at f ≡ at g = elim (Option-cases value.element_type) [
        | inl e ↦ rw e refl
        | inr e ↦
            let l = v.below type e.0 e.1 in
            rw e.1 (type_identity-fuel f g e.0 v (omega (arith, h, l)) (omega (arith, k, l)))
      ] in
      ap (kind_identity semantics mode value.kind value) same

-- The text of a type is there and does not depend on the fuel, where this is above the number of the type.
-- This holds in a verified model.
pub type_identity-canonical :
    (semantics : SemanticModel) (mode : TypeIdentityMode) (fuel type : ℕ)
    → IsVerified semantics
    → type < fuel
    → (text : Bytes) × (type_identity semantics mode fuel type ≡ some text)
      × (canonical_type_identity semantics mode type ≡ some text)
unfolding canonical_type_identity
type_identity-canonical semantics mode fuel type v h =
    let (text, p) = type_identity-IsSome semantics mode fuel type v h in
    let e = type_identity-fuel semantics mode (suc type) fuel type v (omega arith) h in
    (text, p, e ∙ p)
