-- ===== src/Artifact.antt =====
-- Parts of src/artifact: the digest of an artifact.
pub mod Digest
