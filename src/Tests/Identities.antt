-- ===== src/Tests/Identities.antt =====
-- Concrete inputs for src/identity and src/artifact/sha256.cc.
use c_cloth.Base.{[], ◌∷◌, ◌≡◌, refl, some, length, ◌↔◌, arith, replicate}
use c_cloth.Base.Text.{codes, Bytes}
use c_cloth.Unicode.Sequences.{AreBytes}
use c_cloth.Identity.{
  NominalIdentity, NominalKind, CanonicalMemberKind, canonical_nominal_identity,
  canonical_member_identity,
}
use c_cloth.Identity.Unique.{
  Member, member_identity, IsEncodable, IsEncodableMember, mangle-member-inj,
}
use c_cloth.Artifact.Digest.{
  process_block, sha256, new_hasher, finish, artifact_digest_hex, parse_artifact_digest,
}
use c_cloth.Artifact.Digest.Stream.{update_all, digest_of, concat, finish-update_all}
use c_cloth.Artifact.Digest.Hex.{parse_artifact_digest_iff}

abbrev pub point : NominalIdentity
point = record {
  package_identity = record { name = codes "geo"; version = codes "1.0.0" };
  source_package = codes "geo.plane";
  name = codes "Point";
  kind = NominalKind.struct;
}

abbrev length_member : Member
length_member = record {
  owner = point;
  kind = CanonicalMemberKind.function;
  name = codes "Length";
  parameter_types = [];
}

point-IsEncodable : IsEncodable point
point-IsEncodable = record {
  package_name = omega arith;
  package_version = omega arith;
  source = omega arith;
  name = omega arith;
}

length_member-IsEncodable : IsEncodableMember length_member
unfolding canonical_nominal_identity
length_member-IsEncodable = record {
  owner = point-IsEncodable;
  identity = omega arith;
  name = omega arith;
  parameter_count = omega arith;
  parameter_types = tt;
}

length_member-AreBytes : AreBytes (member_identity length_member)
unfolding canonical_member_identity
length_member-AreBytes = omega arith

mangle-member-inj_example : length_member ≡ length_member
mangle-member-inj_example =
    mangle-member-inj length_member length_member length_member-IsEncodable
      length_member-IsEncodable length_member-AreBytes length_member-AreBytes refl

abc :
    artifact_digest_hex (sha256 (codes "abc"))
    ≡ codes "ba7816bf8f01cfea414140de5dae2223b00361a396177a9cb410ff61f20015ad"
unfolding artifact_digest_hex sha256 process_block
abc = refl

finish-update_all_example :
    (finish (update_all new_hasher (codes "a" ∷ codes "bc" ∷ []))).0
    ≡ digest_of (concat (codes "a" ∷ codes "bc" ∷ []))
finish-update_all_example = finish-update_all (codes "a" ∷ codes "bc" ∷ [])

abbrev zero_digest : Bytes
zero_digest = replicate 32 0

parse_artifact_digest_iff_example :
    (parse_artifact_digest (replicate 64 b'0') ≡ some zero_digest) ↔ (
      (artifact_digest_hex zero_digest ≡ replicate 64 b'0')
      × (length zero_digest ≡ 32)
      × AreBytes zero_digest)
parse_artifact_digest_iff_example = parse_artifact_digest_iff (replicate 64 b'0') zero_digest
