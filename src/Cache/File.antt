-- ===== src/Cache/File.antt =====
-- common/src/chunk_cache.rs: `write_chunk_cache` and `read_chunk_cache`, on the bytes that go into
-- the encoder and come out of the decoder of the `zstd` crate. `iter` of the linked map is its
-- entries in the order of use.
pub mod RoundTrip
use factory_cacher.Base.{
  ℕ, zero, suc, ◌^◌, Option, none, some, List, [], ◌∷◌, ◌++◌, ltb, if◌then◌else◌, length, take,
  drop, Outcome, ok, err, panic, ◌>>=◌, ◌>>◌, guard, unexpected_eof, chunk_too_large, not,
}
use factory_cacher.Base.HashMap.{HashMap}
use factory_cacher.Base.Words.{Bytes, le_bytes, of_le, same_bytes}
use factory_cacher.Extern.Blake3.{Blake3}
use factory_cacher.Extern.LinkedMap.{LinkedMap}
use factory_cacher.Cache.Raw
use factory_cacher.Cache.Raw.{RawCache}
use factory_cacher.Dedup.{ChunkKey}

-- `Read::read_exact`
unfoldable pub read_exact : ℕ → Bytes → Outcome (Bytes × Bytes)
read_exact n bytes =
    if ltb (length bytes) n then err unexpected_eof else ok (take n bytes, drop n bytes)

-- `u32::try_from(n).expect(…).to_le_bytes()`
pub u32_bytes : ℕ → Outcome Bytes
u32_bytes n = if ltb n (2 ^ 32) then ok (le_bytes 4 n) else panic

-- The longest chunk that `read_chunk_cache` takes.
unfoldable pub chunk_length_limit : ℕ
chunk_length_limit = 20000000

-- The loop of `write_chunk_cache`.
pub write_chunks : HashMap Bytes → Bytes → Outcome Bytes
write_chunks [] out = ok out
write_chunks ((key, chunk) ∷ entries) out = do
  size ← u32_bytes (length chunk)
  write_chunks entries (out ++ (key ++ (size ++ chunk)))

module _ (linked : LinkedMap) where
  -- `write_chunk_cache`
  pub write_chunk_cache : RawCache linked → Outcome Bytes
  write_chunk_cache cache = do
    count ← u32_bytes (linked.len cache.chunks)
    write_chunks (linked.entries cache.chunks) count

  module _ (blake3 : Blake3) where
    -- A chunk that was read is kept if it has the hash that its key says.
    pub keep_chunk : RawCache linked → ChunkKey → Bytes → Outcome (RawCache linked)
    keep_chunk cache key chunk =
        if not (same_bytes (blake3.hash chunk) key)
        then ok cache
        else Raw.insert linked cache key chunk

    -- The loop of `read_chunk_cache`.
    pub read_chunks : ℕ → RawCache linked → Bytes → Outcome (RawCache linked × Bytes)
    read_chunks zero cache input = ok (cache, input)
    read_chunks (suc count) cache input = do
      (key, input1) ← read_exact 32 input
      (size, input2) ← read_exact 4 input1
      let chunk_length = of_le size
      guard (not (ltb chunk_length_limit chunk_length)) (chunk_too_large chunk_length)
      (chunk, input3) ← read_exact chunk_length input2
      cache' ← keep_chunk cache key chunk
      read_chunks count cache' input3

    -- `read_chunk_cache`; an error gives the cache up, as `load_from_file` does.
    pub read_chunk_cache : RawCache linked → Bytes → Outcome (RawCache linked)
    read_chunk_cache cache input = do
      (count, input1) ← read_exact 4 input
      (cache', _) ← read_chunks (of_le count) cache input1
      ok cache'
