-- ===== src/Extern/Deflate.antt =====
-- The crate `miniz_oxide`, which the repository only calls: `deflate::compress_to_vec`,
-- `deflate::compress_to_vec_zlib` and `inflate::decompress_to_vec_zlib_with_limit`. The laws: what
-- was compressed is decompressed to the same, unless it is longer than the limit, and no result is.
use factory_cacher.Base.{ℕ, ◌≤◌, ◌≡◌, Option, none, some, length, leb, if◌then◌else◌, arith}
use factory_cacher.Base.Words.{Bytes}

pub record Deflate : Type 0 where
  pub compress_to_vec : Bytes → ℕ → Bytes
  pub compress_to_vec_zlib : Bytes → ℕ → Bytes
  pub decompress_to_vec_zlib_with_limit : Bytes → ℕ → Option Bytes
  pub decompress-compress :
      (b : Bytes) (level limit : ℕ)
      → length b ≤ limit
      → decompress_to_vec_zlib_with_limit (compress_to_vec_zlib b level) limit ≡ some b
  pub decompress-limit :
      (c b : Bytes) (limit : ℕ)
      → decompress_to_vec_zlib_with_limit c limit ≡ some b
      → length b ≤ limit

abbrev pub within : Bytes → ℕ → Option Bytes
within b limit = if leb (length b) limit then some b else none

pub within-short : (b : Bytes) (limit : ℕ) → length b ≤ limit → within b limit ≡ some b
within-short b limit h = ground arith

pub within-limit : (c b : Bytes) (limit : ℕ) → within c limit ≡ some b → length b ≤ limit
within-limit c b limit h = ground arith

-- The laws can be met: nothing is compressed.
abbrev pub no_deflate : Deflate
no_deflate = record {
  compress_to_vec = λ b level. b;
  compress_to_vec_zlib = λ b level. b;
  decompress_to_vec_zlib_with_limit = within;
  decompress-compress = λ b level limit h. within-short b limit h;
  decompress-limit = λ c b limit h. within-limit c b limit h;
}
