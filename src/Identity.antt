-- ===== src/Identity.antt =====
-- src/identity/canonical_identity.cc: the texts that name packages' types and members, and the
-- symbols made of them. A string that a function appends to is the text that it returns.
pub mod Components
pub mod Unique
use Prim.Native.Nat.{bit_xor}
use c_cloth.Base.{
  ℕ, zero, suc, ◌+◌, ◌*◌, ◌/◌, ◌%◌, ◌^◌, Bool, ◌==◌, if◌then◌else◌, ltb, ◌-◌, List, [], ◌∷◌, ◌++◌,
  length,
}
use c_cloth.Base.Text.{Bytes, codes, to_string}
use c_cloth.Base.Words.{shr, low_bits}

pub data NominalKind : Type 0 where
  class interface enum struct : NominalKind

pub data CanonicalMemberKind : Type 0 where
  function constructor constructor_initializer static_field instance_field descriptor enum_case :
      CanonicalMemberKind

pub record PackageIdentity : Type 0 where
  pub name : Bytes
  pub version : Bytes

pub record NominalIdentity : Type 0 where
  pub package_identity : PackageIdentity
  pub source_package : Bytes
  pub name : Bytes
  pub kind : NominalKind

-- The eight bytes of a count, the lowest first.
unfoldable pub count_bytes : ℕ → ℕ → Bytes
count_bytes zero value = []
count_bytes (suc n) value = value % 256 ∷ count_bytes n (value / 256)

unfoldable pub append_count : Bytes → ℕ → Bytes
unfolding count_bytes
append_count output value = output ++ count_bytes 8 value

unfoldable pub append_component : Bytes → Bytes → Bytes
unfolding append_count
append_component output value = append_count output (length value) ++ value

unfoldable pub member_tag : CanonicalMemberKind → Bytes
member_tag function = codes "function"
member_tag constructor = codes "constructor"
member_tag constructor_initializer = codes "constructor-initializer"
member_tag static_field = codes "static-field"
member_tag instance_field = codes "instance-field"
member_tag descriptor = codes "descriptor"
member_tag enum_case = codes "enum-case"

unfoldable pub kind_tag : NominalKind → Bytes
kind_tag struct = codes "struct"
kind_tag enum = codes "enum"
kind_tag class = codes "class"
kind_tag interface = codes "interface"

unfoldable pub wrapped_identity : Bytes → Bytes → Bytes
unfolding append_component
wrapped_identity tag element = append_component (append_component [] tag) element

unfoldable pub count_dots : Bytes → ℕ
count_dots [] = 0
count_dots (c ∷ text) = (if c == b'.' then 1 else 0) + count_dots text

unfoldable pub component_count : Bytes → ℕ
unfolding count_dots
component_count [] = 0
component_count (c ∷ text) = 1 + count_dots (c ∷ text)

-- The text up to the next dot, and the text after it, or the same text where there is none.
unfoldable pub before_dot : Bytes → Bytes
before_dot [] = []
before_dot (c ∷ text) = let rest = before_dot text in if c == b'.' then [] else c ∷ rest

unfoldable pub find_after_dot : Bytes → Bytes → Bytes
find_after_dot begin [] = begin
find_after_dot begin (c ∷ text) =
    let rest = find_after_dot begin text in if c == b'.' then text else rest

-- The loop over the components of the source package, with the text from `begin` on.
unfoldable pub append_components : ℕ → Bytes → Bytes → Bytes
unfolding append_component before_dot find_after_dot
append_components zero text output = output
append_components (suc n) text output =
    append_components n (find_after_dot text text) (append_component output (before_dot text))

abbrev pub domain_tag : Bytes → Bytes
domain_tag [] = codes "standalone"
domain_tag _ = codes "package"

unfoldable pub canonical_nominal_identity : NominalIdentity → Bytes
unfolding append_components component_count append_component append_count kind_tag
canonical_nominal_identity identity =
    let tagged = append_component [] (codes "nominal") in
    let domain = append_component tagged (domain_tag identity.package_identity.name) in
    let named = append_component domain identity.package_identity.name in
    let versioned = append_component named identity.package_identity.version in
    let count = component_count identity.source_package in
    let counted = append_count versioned count in
    let placed = append_components count identity.source_package counted in
    append_component (append_component placed identity.name) (kind_tag identity.kind)

unfoldable pub canonical_primitive_identity : Bytes → Bytes
unfolding wrapped_identity
canonical_primitive_identity name = wrapped_identity (codes "primitive") name

unfoldable pub canonical_array_identity : Bytes → Bytes
unfolding wrapped_identity
canonical_array_identity element = wrapped_identity (codes "array") element

unfoldable pub canonical_nullable_identity : Bytes → Bytes
unfolding wrapped_identity
canonical_nullable_identity element = wrapped_identity (codes "nullable") element

unfoldable pub append_parameters : List Bytes → Bytes → Bytes
unfolding append_component
append_parameters [] output = output
append_parameters (parameter ∷ parameters) output =
    append_parameters parameters (append_component output parameter)

unfoldable pub canonical_member_identity :
    NominalIdentity → CanonicalMemberKind → Bytes → List Bytes → Bytes
unfolding append_component append_count append_parameters member_tag canonical_nominal_identity
canonical_member_identity owner kind name parameter_types =
    let tagged = append_component [] (member_tag kind) in
    let owned = append_component tagged (canonical_nominal_identity owner) in
    let named = append_component owned name in
    append_parameters parameter_types (append_count named (length parameter_types))

-- The digit at a position below 16 of `kHex`.
unfoldable pub hex_digit : ℕ → ℕ
hex_digit n = if ltb n 10 then b'0' + n else b'a' + (n - 10)

unfoldable pub hex_bytes : Bytes → Bytes
unfolding hex_digit
hex_bytes [] = []
hex_bytes (byte ∷ identity) =
    hex_digit (shr byte 4) ∷ hex_digit (low_bits byte 4) ∷ hex_bytes identity

abbrev pub compiler_abi_version : ℕ
compiler_abi_version = 7

unfoldable pub mangle_canonical_identity : Bytes → Bytes
unfolding hex_bytes to_string
mangle_canonical_identity identity =
    (codes "_C" ++ to_string compiler_abi_version) ++ hex_bytes identity

-- The hash of the bytes in 64 bits.
unfoldable pub hash_bytes : ℕ → Bytes → ℕ
hash_bytes hash [] = hash
hash_bytes hash (byte ∷ identity) = hash_bytes (bit_xor hash byte * 1099511628211 % 2 ^ 64) identity

unfoldable pub canonical_interface_id : NominalIdentity → ℕ
unfolding hash_bytes canonical_nominal_identity
canonical_interface_id identity =
    hash_bytes 14695981039346656037 (canonical_nominal_identity identity)
