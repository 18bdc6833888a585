-- ===== src/Cache/Tests.antt =====
-- common/src/chunk_cache.rs: the theorems on a cache with one chunk.
use factory_cacher.Base.{
  ℕ, ◌≤◌, ◌≡◌, some, refl, false, none, List, [], ◌∷◌, length, ok, panic, inl, inr, ◌⊎◌, arith,
}
use factory_cacher.Base.HashMap
use factory_cacher.Base.HashMap.{HashMap}
use factory_cacher.Base.Words.{Bytes, same_bytes, same_bytes_refl, be_bytes, of_le}
use factory_cacher.Extern.Blake3.{number_hash}
use factory_cacher.Extern.LinkedMap.{list_map, move_back}
use factory_cacher.Dedup.{ChunkKey, ChunkMap}
use factory_cacher.Cache.Raw
use factory_cacher.Cache.Raw.{RawCache}
use factory_cacher.Cache.Raw.Eviction.{IsValid, entries_of, insert-fit}
use factory_cacher.Cache.Raw.Recent.{insert-get}
use factory_cacher.Cache.Raw.Sizes.{fit}
use factory_cacher.Cache.Raw.Lookup.{SameChunks}
use factory_cacher.Cache.Batch.{Inner, Progress, begin_batch, fulfill, fulfill_chunks, finish_wait}
use factory_cacher.Cache.Batch.Select.{In, Accounted}
use factory_cacher.Cache.Batch.Begin.{fetched, awaited, begin_batch_lem}
use factory_cacher.Cache.Batch.Fulfill.{put_all, fulfill_lem, finish_wait-too_large}
use factory_cacher.Cache.File.{write_chunk_cache, read_chunk_cache}
use factory_cacher.Cache.File.RoundTrip.{read_chunk_cache-write_chunk_cache}

abbrev chunk : Bytes
chunk = 1 ∷ 2 ∷ []

abbrev key : ChunkKey
key = number_hash.hash chunk

abbrev cache : RawCache list_map
cache = record { chunks = (key, chunk) ∷ []; total_size = 2; max_size = 3 }

cache-IsValid : IsValid list_map cache
unfolding HashMap.get
cache-IsValid = record { counted = refl; bounded = omega arith; distinct = (refl, tt) }

abbrev inner : Inner list_map ℕ
inner = record { raw_cache = cache; pending_chunks = []; needs_saving = false }

insert-fit_example :
    (cache' : RawCache list_map) × (Raw.insert list_map cache (7 ∷ []) (8 ∷ 9 ∷ []) ≡ ok cache')
    × (entries_of list_map cache' ≡ fit 3 (move_back (7 ∷ []) (8 ∷ 9 ∷ []) ((key, chunk) ∷ [])))
    × (cache'.max_size ≡ 3)
    × IsValid list_map cache'
insert-fit_example = insert-fit list_map cache (7 ∷ []) (8 ∷ 9 ∷ []) cache-IsValid (omega arith)

cache_has : HashMap.get key ((key, chunk) ∷ []) ≡ some chunk
unfolding HashMap.get
cache_has = rw (same_bytes_refl key) refl

insert-get_example :
    ((Raw.get list_map cache key).0 ≡ some chunk)
    × (cache' : RawCache list_map) × (Raw.insert list_map
          (Raw.get list_map cache key).1
          (7 ∷ [])
          (8 ∷ [])
        ≡ ok cache')
    × (HashMap.get key (entries_of list_map cache') ≡ some chunk)
unfolding same_bytes be_bytes of_le
insert-get_example =
    insert-get list_map cache key chunk (7 ∷ []) (8 ∷ []) cache-IsValid cache_has refl (omega arith)
      (omega arith)

begin_batch_lem_example :
    (inner' : Inner list_map ℕ) × (kept : List ChunkKey) × (out' : ChunkMap) × (progress : Progress
      list_map ℕ)
    × (begin_batch list_map ℕ inner (key ∷ (7 ∷ []) ∷ []) [] 1 5
        ≡ ok (inner', kept, out', progress))
    × Accounted list_map ℕ [] 1 cache out'
        (fetched progress)
        (In (7 ∷ []) kept ⊎ In (7 ∷ []) (awaited progress))
        (7 ∷ [])
    × (length (fetched progress) ≤ 1)
    × SameChunks list_map cache inner'.raw_cache
begin_batch_lem_example =
    begin_batch_lem list_map ℕ inner (key ∷ (7 ∷ []) ∷ []) [] 1 5 (7 ∷ []) (omega arith)
      (inr (inl refl))

abbrev waiting : Inner list_map ℕ
waiting = record inner { pending_chunks = (7 ∷ [], 5) ∷ [] }

fulfill_lem_example :
    (inner' : Inner list_map ℕ) × (fulfill list_map ℕ waiting
        (record { event = 5; batch_keys = (7 ∷ []) ∷ [] })
        ((8 ∷ 9 ∷ []) ∷ [])
      ≡ ok (inner', 5))
    × IsValid list_map inner'.raw_cache
    × (entries_of list_map inner'.raw_cache
        ≡ put_all 3 ((7 ∷ []) ∷ []) ((8 ∷ 9 ∷ []) ∷ []) ((key, chunk) ∷ []))
    × (HashMap.get (7 ∷ []) inner'.pending_chunks ≡ none)
fulfill_lem_example =
    fulfill_lem list_map ℕ waiting (record { event = 5; batch_keys = (7 ∷ []) ∷ [] })
      ((8 ∷ 9 ∷ []) ∷ []) (7 ∷ []) refl cache-IsValid (omega arith, tt) (inl refl)

-- The cache is empty after a chunk of four bytes.
abbrev emptied : Inner list_map ℕ
emptied = record {
  raw_cache = record { chunks = []; total_size = 0; max_size = 3 };
  pending_chunks = [];
  needs_saving = false;
}

fulfilled :
    fulfill list_map ℕ waiting
      (record { event = 5; batch_keys = (7 ∷ []) ∷ [] })
      ((1 ∷ 2 ∷ 3 ∷ 4 ∷ []) ∷ [])
    ≡ ok (emptied, 5)
unfolding fulfill fulfill_chunks Raw.insert Raw.evict HashMap.remove HashMap.get same_bytes be_bytes
    of_le
fulfilled = refl

finish_wait-too_large_example : finish_wait list_map ℕ emptied ((7 ∷ [], 5) ∷ []) [] ≡ panic
finish_wait-too_large_example =
    finish_wait-too_large list_map ℕ waiting (7 ∷ []) 5 (1 ∷ 2 ∷ 3 ∷ 4 ∷ []) emptied [] []
      cache-IsValid (omega arith) (omega arith) fulfilled

read_chunk_cache-write_chunk_cache_example :
    (file : Bytes) × (cache' : RawCache list_map) × (write_chunk_cache list_map cache ≡ ok file)
    × (read_chunk_cache list_map number_hash (Raw.new list_map 3) file ≡ ok cache')
    × (entries_of list_map cache' ≡ (key, chunk) ∷ [])
    × IsValid list_map cache'
read_chunk_cache-write_chunk_cache_example =
    read_chunk_cache-write_chunk_cache list_map number_hash cache cache-IsValid (omega arith)
      (omega arith) ((refl, omega arith), tt)
