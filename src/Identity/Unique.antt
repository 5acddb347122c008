-- ===== src/Identity/Unique.antt =====
-- The texts of src/identity/canonical_identity.cc name one type or member each, and so do the symbols.
use c_cloth.Base.{
  ℕ, zero, suc, ◌+◌, ◌/◌, ◌%◌, ◌≤◌, ◌<◌, ◌^◌, ◌≡◌, refl, sym, ap, ◌∙◌, List, [], ◌∷◌, ◌++◌, length,
  arith, All,
}
use mathlib.Core.List.{append_assoc, append-nil}
use c_cloth.Base.Text.{Bytes, codes, to_string}
use c_cloth.Unicode.Sequences.{AreBytes}
use c_cloth.Identity.{
  NominalKind, CanonicalMemberKind, class, NominalIdentity, count_bytes, append_count, count_dots,
  component_count, before_dot, find_after_dot, member_tag, kind_tag, domain_tag,
  canonical_nominal_identity, canonical_member_identity, hex_digit, hex_bytes,
  mangle_canonical_identity, compiler_abi_version,
}
use c_cloth.Identity.Components.{
  append-inj, Is64, count-inj, component, Fits, component-inj, append_component_lem, components,
  components-inj, append_parameters_lem, pieces, append_components_lem, join_dots, join-pieces,
  length-pieces,
}

kind_tag-inj : (k l : NominalKind) → kind_tag k ≡ kind_tag l → k ≡ l
unfolding kind_tag
kind_tag-inj class l h = ground arith
kind_tag-inj _ l h = ground arith

member_tag-inj : (k l : CanonicalMemberKind) → member_tag k ≡ member_tag l → k ≡ l
unfolding member_tag
member_tag-inj CanonicalMemberKind.function l h = ground arith
member_tag-inj _ l h = ground arith

kind_tag-Fits : (k : NominalKind) → Fits (kind_tag k)
unfolding kind_tag
kind_tag-Fits class = omega arith
kind_tag-Fits _ = omega arith

member_tag-Fits : (k : CanonicalMemberKind) → Fits (member_tag k)
unfolding member_tag
member_tag-Fits CanonicalMemberKind.function = omega arith
member_tag-Fits _ = omega arith

domain_tag-Fits : (name : Bytes) → Fits (domain_tag name)
domain_tag-Fits [] = omega arith
domain_tag-Fits (c ∷ name) = omega arith

length-before_dot : (text : Bytes) → length (before_dot text) ≤ length text
unfolding before_dot
length-before_dot [] = omega arith
length-before_dot (c ∷ text) = ground (arith, length-before_dot text)

length-find_after_dot :
    (begin text : Bytes)
    → length text ≤ length begin
    → length (find_after_dot begin text) ≤ length begin
unfolding find_after_dot
length-find_after_dot begin [] h = omega arith
length-find_after_dot begin (c ∷ text) h = ground (arith, length-find_after_dot begin text)

pieces-Fits : (n : ℕ) (text : Bytes) → Fits text → All Fits (pieces n text)
unfolding pieces
pieces-Fits zero text h = tt
pieces-Fits (suc n) text h = (
  omega (arith, length-before_dot text),
  pieces-Fits n (find_after_dot text text) (omega (arith, length-find_after_dot text text)),
)

count_dots-le : (text : Bytes) → count_dots text ≤ length text
unfolding count_dots
count_dots-le [] = omega arith
count_dots-le (c ∷ text) = ground (arith, count_dots-le text)

joined :
    (c : ℕ) (text : Bytes) → join_dots (pieces (component_count (c ∷ text)) (c ∷ text)) ≡ c ∷ text
unfolding component_count
joined c text =
    let e : 1 + count_dots (c ∷ text) ≡ suc (count_dots (c ∷ text)) = omega arith in
    rw e (join-pieces (count_dots (c ∷ text)) (c ∷ text) refl)

component_count-inj :
    (s t : Bytes)
    → component_count s ≡ component_count t
    → pieces (component_count s) s ≡ pieces (component_count t) t
    → s ≡ t
component_count-inj [] [] h e = refl
component_count-inj [] (d ∷ t) h e = unfold component_count in absurd (omega arith)
component_count-inj (c ∷ s) [] h e = unfold component_count in absurd (omega arith)
component_count-inj (c ∷ s) (d ∷ t) h e = sym (joined c s) ∙ ap join_dots e ∙ joined d t

component_count-le : (text : Bytes) → component_count text ≤ length text + 1
unfolding component_count
component_count-le [] = omega arith
component_count-le (c ∷ text) = omega (arith, count_dots-le (c ∷ text))

-- The sizes of an identity are counts of 64 bits.
pub record IsEncodable (a : NominalIdentity) : Type 0 where
  pub package_name : Fits a.package_identity.name
  pub package_version : Fits a.package_identity.version
  pub source : length a.source_package + 1 < 2 ^ 64
  pub name : Fits a.name

-- The text with its parts in a row.
abbrev tail_of : NominalIdentity → Bytes
tail_of a =
    let n = component_count a.source_package in
    component a.package_identity.name
    ++ (component a.package_identity.version
        ++ (count_bytes 8 n
            ++ (components (pieces n a.source_package)
                ++ (component a.name ++ (component (kind_tag a.kind) ++ [])))))

nominal_parts :
    (a : NominalIdentity)
    → canonical_nominal_identity a
      ≡ component (codes "nominal") ++ (component (domain_tag a.package_identity.name) ++ tail_of a)
unfolding canonical_nominal_identity append_count
nominal_parts a = simp (append_component_lem, append_components_lem, append_assoc, append-nil)

-- What an identity is read back from.
tail-inj : (a b : NominalIdentity) → IsEncodable a → IsEncodable b → tail_of a ≡ tail_of b → a ≡ b
tail-inj a b p q h =
    let e1 = component-inj _ _ _ _ p.package_name q.package_name h in
    let e2 = component-inj _ _ _ _ p.package_version q.package_version e1.1 in
    let m = component_count a.source_package in
    let n = component_count b.source_package in
    let e3 =
      count-inj m n _ _ (omega (arith, p.source, component_count-le a.source_package))
        (omega (arith, q.source, component_count-le b.source_package)) e2.1 in
    let e4 =
      components-inj (pieces m a.source_package) (pieces n b.source_package) _ _
        (length-pieces m a.source_package ∙ e3.0 ∙ sym (length-pieces n b.source_package))
        (pieces-Fits m a.source_package (omega (arith, p.source)))
        (pieces-Fits n b.source_package (omega (arith, q.source))) e3.1 in
    let s = component_count-inj a.source_package b.source_package e3.0 e4.0 in
    let e5 = component-inj _ _ _ _ p.name q.name e4.1 in
    let e6 = component-inj _ _ [] [] (kind_tag-Fits a.kind) (kind_tag-Fits b.kind) e5.1 in
    let k = kind_tag-inj a.kind b.kind e6.0 in cc (e1.0, e2.0, s, e5.0, k)

nominal-inj :
    (a b : NominalIdentity)
    → IsEncodable a
    → IsEncodable b
    → canonical_nominal_identity a ≡ canonical_nominal_identity b
    → a ≡ b
nominal-inj a b p q h =
    let e = sym (nominal_parts a) ∙ h ∙ nominal_parts b in
    let e1 = component-inj (codes "nominal") (codes "nominal") _ _ (omega arith) (omega arith) e in
    let e2 =
      component-inj _ _ _ _ (domain_tag-Fits a.package_identity.name)
        (domain_tag-Fits b.package_identity.name) e1.1 in
    tail-inj a b p q e2.1

-- A member: its owner, its kind, its name and the texts of its parameters' types.
pub record Member : Type 0 where
  pub owner : NominalIdentity
  pub kind : CanonicalMemberKind
  pub name : Bytes
  pub parameter_types : List Bytes

abbrev pub member_identity : Member → Bytes
member_identity m = canonical_member_identity m.owner m.kind m.name m.parameter_types

pub record IsEncodableMember (m : Member) : Type 0 where
  pub owner : IsEncodable m.owner
  pub identity : Fits (canonical_nominal_identity m.owner)
  pub name : Fits m.name
  pub parameter_count : Is64 (length m.parameter_types)
  pub parameter_types : All Fits m.parameter_types

member_parts :
    (m : Member)
    → member_identity m
      ≡ component (member_tag m.kind)
        ++ (component (canonical_nominal_identity m.owner)
            ++ (component m.name
                ++ (count_bytes 8 (length m.parameter_types)
                    ++ (components m.parameter_types ++ []))))
unfolding canonical_member_identity append_count
member_parts m = simp (append_component_lem, append_parameters_lem, append_assoc, append-nil)

member-inj :
    (a b : Member)
    → IsEncodableMember a
    → IsEncodableMember b
    → member_identity a ≡ member_identity b
    → a ≡ b
member-inj a b p q h =
    let e = sym (member_parts a) ∙ h ∙ member_parts b in
    let e1 = component-inj _ _ _ _ (member_tag-Fits a.kind) (member_tag-Fits b.kind) e in
    let e2 = component-inj _ _ _ _ p.identity q.identity e1.1 in
    let e3 = component-inj _ _ _ _ p.name q.name e2.1 in
    let e4 = count-inj _ _ _ _ p.parameter_count q.parameter_count e3.1 in
    let e5 =
      components-inj a.parameter_types b.parameter_types [] [] e4.0 p.parameter_types
        q.parameter_types e4.1 in
    let k = member_tag-inj a.kind b.kind e1.0 in
    let o = nominal-inj a.owner b.owner p.owner q.owner e2.0 in cc (k, o, e3.0, e5.0)

hex_digit-inj : (m n : ℕ) → m < 16 → n < 16 → hex_digit m ≡ hex_digit n → m ≡ n
unfolding hex_digit
hex_digit-inj m n p q h = ground arith

hex_bytes-inj : (a b : Bytes) → AreBytes a → AreBytes b → hex_bytes a ≡ hex_bytes b → a ≡ b
unfolding hex_bytes
hex_bytes-inj [] [] p q h = refl
hex_bytes-inj [] (y ∷ b) p q h = cc
hex_bytes-inj (x ∷ a) [] p q h = cc
hex_bytes-inj (x ∷ a) (y ∷ b) p q h =
    let high : hex_digit (x / 2 ^ 4) ≡ hex_digit (y / 2 ^ 4) = cc in
    let low : hex_digit (x % 2 ^ 4) ≡ hex_digit (y % 2 ^ 4) = cc in
    let rest : hex_bytes a ≡ hex_bytes b = cc in
    let i = hex_digit-inj (x / 2 ^ 4) (y / 2 ^ 4) (omega (arith, p.0)) (omega (arith, q.0)) high in
    let j = hex_digit-inj (x % 2 ^ 4) (y % 2 ^ 4) (omega arith) (omega arith) low in
    let e : x ≡ y = omega (arith, i, j) in cc (e, hex_bytes-inj a b p.1 q.1 rest)

-- Two members with one symbol are the same: the owner with its package, version, source package, name
-- and kind, the kind of member, its name and the texts of the types of its parameters agree. The
-- characters of the texts are bytes, and the sizes fit 64 bits.
pub mangle-member-inj :
    (a b : Member)
    → IsEncodableMember a
    → IsEncodableMember b
    → AreBytes (member_identity a)
    → AreBytes (member_identity b)
    → mangle_canonical_identity (member_identity a) ≡ mangle_canonical_identity (member_identity b)
    → a ≡ b
unfolding mangle_canonical_identity
mangle-member-inj a b p q r s h =
    let prefix = codes "_C" ++ to_string compiler_abi_version in
    member-inj a b p q (hex_bytes-inj _ _ r s (append-inj prefix prefix _ _ refl h).1)
