-- ===== src/Extern/Blake3.antt =====
-- The `blake3` crate, which the repository only calls: a hash of 32 bytes. That two different
-- blobs have different hashes is no law: theorems that need it say of which blobs.
use factory_cacher.Base.{◌≡◌, length}
use factory_cacher.Base.Words.{Bytes, be_bytes, of_le, length-be_bytes}

pub record Blake3 : Type 0 where
  pub hash : Bytes → Bytes
  pub length-hash : (b : Bytes) → length (hash b) ≡ 32

-- The law can be met.
abbrev pub number_hash : Blake3
number_hash = record {
  hash = λ b. be_bytes 32 (of_le b);
  length-hash = λ b. length-be_bytes 32 (of_le b);
}
