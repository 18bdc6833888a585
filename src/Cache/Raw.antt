-- ===== src/Cache/Raw.antt =====
-- common/src/chunk_cache.rs: `RawChunkCache`, a map in the order of use that is bounded by the
-- total size of its chunks.
pub mod Sizes
pub mod Eviction
pub mod Lookup
pub mod Recent
use factory_cacher.Base.{
  ℕ, zero, suc, ◌+◌, ◌-◌, ◌%◌, ◌^◌, Option, none, some, ltb, if◌then◌else◌, length, Outcome, ok,
  panic, stuck,
}
use factory_cacher.Base.Words.{Bytes}
use factory_cacher.Dedup.{ChunkKey}
use factory_cacher.Extern.LinkedMap.{LinkedMap}

-- u64 arithmetic, which wraps in a release build.
abbrev pub add_u64 : ℕ → ℕ → ℕ
add_u64 a b = (a + b) % 2 ^ 64

abbrev pub sub_u64 : ℕ → ℕ → ℕ
sub_u64 a b = (a + (2 ^ 64 - b)) % 2 ^ 64

-- The total after the chunk that was replaced, if any, is taken off.
abbrev pub without_old : ℕ → Option Bytes → ℕ
without_old total none = total
without_old total (some old_chunk) = sub_u64 total (length old_chunk)

module _ (linked : LinkedMap) where
  pub record RawCache : Type 0 where
    pub chunks : linked.M
    pub total_size : ℕ
    pub max_size : ℕ

  -- `RawChunkCache::new`
  pub new : ℕ → RawCache
  new max_size = record { chunks = linked.new; total_size = 0; max_size = max_size }

  -- The loop of `insert`: evict the entry at the front while the total is too large. `unwrap` on an
  -- empty map is a panic.
  unfoldable pub evict : ℕ → RawCache → Outcome RawCache
  evict zero cache = stuck
  evict (suc fuel) cache =
      if ltb cache.max_size cache.total_size
      then (elim (linked.pop_front cache.chunks) [
        | none ↦ panic
        | some (entry, chunks) ↦ evict fuel (record cache {
          chunks = chunks;
          total_size = sub_u64 cache.total_size (length entry.1);
        })
      ])
      else ok cache

  -- `RawChunkCache::insert`. An eviction takes an entry, so that the length of the map is enough
  -- fuel.
  unfoldable pub insert : RawCache → ChunkKey → Bytes → Outcome RawCache
  insert cache key chunk =
      let total = add_u64 cache.total_size (length chunk) in
      let (chunks, old) = linked.insert cache.chunks key chunk in
      evict (suc (linked.len chunks))
        (record cache { chunks = chunks; total_size = without_old total old })

  -- `RawChunkCache::get`: a hit makes the chunk the most recently used one.
  unfoldable pub get : RawCache → ChunkKey → Option Bytes × RawCache
  get cache key =
      let (found, chunks) = linked.to_back cache.chunks key in
      (found, record cache { chunks = chunks })
