-- ===== src/Cache/Batch/Fulfill.antt =====
-- common/src/chunk_cache.rs: `fulfill`, and what the tasks that waited for its chunks find.
use factory_cacher.Base.{
  ℕ, ok-injective, ◌+◌, ◌^◌, ◌<◌, ◌≡◌, refl, sym, ap, ◌∙◌, inl, inr, none, List, [], ◌∷◌, length,
  Outcome, ok, panic, arith, All, ==_iff,
}
use factory_cacher.Base.HashMap
use factory_cacher.Base.HashMap.{HashMap}
use factory_cacher.Base.HashMap.Laws.{get-remove_self, get-remove-none}
use factory_cacher.Base.Words.{Bytes}
use factory_cacher.Dedup.{ChunkKey, ChunkMap}
use factory_cacher.Extern.LinkedMap.{LinkedMap, move_back}
use factory_cacher.Cache.Raw.Eviction.{entries_of, IsValid, insert-fit}
use factory_cacher.Cache.Raw.Sizes.{fit, fit-too_large}
use factory_cacher.Cache.Raw.Lookup.{get-found}
use factory_cacher.Cache.Batch.Select.{In}
use factory_cacher.Cache.Batch.{Inner, BatchRequest, finish_wait, fulfill_chunks, fulfill}

-- The entries after each chunk was put into a cache under its key, in order.
abbrev pub put_all : ℕ → List ChunkKey → List Bytes → HashMap Bytes → HashMap Bytes
put_all max_size (key ∷ keys) (chunk ∷ chunks) entries =
    put_all max_size keys chunks (fit max_size (move_back key chunk entries))
put_all max_size _ _ entries = entries

module _ (linked : LinkedMap) (Event : Type 0) where
  -- The keys of a batch that was put into the cache.
  pub record Puts (inner : Inner linked Event) (keys : List ChunkKey) (chunks : List Bytes)
      (r : Outcome (Inner linked Event)) : Type 0 where
    pub inner' : Inner linked Event
    pub run : r ≡ ok inner'
    pub valid : IsValid linked inner'.raw_cache
    pub put :
        entries_of linked inner'.raw_cache
        ≡ put_all inner.raw_cache.max_size keys chunks (entries_of linked inner.raw_cache)
    pub released : (key : ChunkKey) → In key keys → HashMap.get key inner'.pending_chunks ≡ none
    pub others :
        (key : ChunkKey)
        → HashMap.get key inner.pending_chunks ≡ none
        → HashMap.get key inner'.pending_chunks ≡ none

  fulfill_chunks-Puts :
      (inner : Inner linked Event) (keys : List ChunkKey) (chunks : List Bytes)
      → length keys ≡ length chunks
      → IsValid linked inner.raw_cache
      → All (λ chunk. inner.raw_cache.max_size + length chunk < 2 ^ 64) chunks
      → Puts inner keys chunks (fulfill_chunks linked Event inner keys chunks)
  unfolding fulfill_chunks
  fulfill_chunks-Puts inner [] chunks e valid small = record {
    inner' = inner;
    run = refl;
    valid = valid;
    put = refl;
    released = λ key h. absurd h;
    others = λ key h. h;
  }
  fulfill_chunks-Puts inner (key ∷ keys) [] e valid small = absurd (omega arith)
  fulfill_chunks-Puts inner (key ∷ keys) (chunk ∷ chunks) e valid small =
      let (raw, run, fits, limit, valid1) =
        insert-fit linked inner.raw_cache key chunk valid small.0 in
      let inner1 : Inner linked Event = record inner {
        raw_cache = raw;
        pending_chunks = HashMap.remove key inner.pending_chunks;
      } in
      let rest = fulfill_chunks-Puts inner1 keys chunks (omega arith) valid1 (rw limit small.1) in
      record {
        inner' = rest.inner';
        run = rw run rest.run;
        valid = rest.valid;
        put =
            rest.put
            ∙ ap (λ (m : ℕ). put_all m keys chunks (entries_of linked raw)) limit
            ∙ ap (put_all inner.raw_cache.max_size keys chunks) fits;
        released = λ k h. elim h [
          | inl same ↦ rw same (rest.others key (get-remove_self key inner.pending_chunks))
          | inr later ↦ rest.released k later
        ];
        others = λ k h. rest.others k (get-remove-none k key inner.pending_chunks h);
      }

  -- `fulfill` with one chunk for each key does not panic: the cache stays valid, no key of the batch
  -- is pending any more, no other key becomes pending, and the batch's event is closed.
  pub fulfill-Puts :
      (inner : Inner linked Event) (batch : BatchRequest linked Event) (chunks : List Bytes)
      → length batch.batch_keys ≡ length chunks
      → IsValid linked inner.raw_cache
      → All (λ chunk. inner.raw_cache.max_size + length chunk < 2 ^ 64) chunks
      → (inner' : Inner linked Event) × (fulfill linked Event inner batch chunks
          ≡ ok (inner', batch.event))
        × IsValid linked inner'.raw_cache
        × ((key : ChunkKey)
            → In key batch.batch_keys
            → HashMap.get key inner'.pending_chunks ≡ none)
        × ((key : ChunkKey)
            → HashMap.get key inner.pending_chunks ≡ none
            → HashMap.get key inner'.pending_chunks ≡ none)
        × (entries_of linked inner'.raw_cache
            ≡ put_all inner.raw_cache.max_size batch.batch_keys chunks
                (entries_of linked inner.raw_cache))
  unfolding fulfill
  fulfill-Puts inner batch chunks e valid small =
      let puts = fulfill_chunks-Puts inner batch.batch_keys chunks e valid small in
      (
        puts.inner',
        rw ((==_iff _ _).1 e, puts.run) refl,
        puts.valid,
        puts.released,
        puts.others,
        puts.put,
      )

  -- A batch is fulfilled with as many chunks as it has keys, of sizes that do not overflow the
  -- total, with no panic: the cache stays well formed and has the chunks under their keys, put in
  -- one after the other as the most recently used ones, less those that did not fit; the event of
  -- the batch is closed, and a key of the batch is no longer pending.
  pub fulfill_lem :
      (inner : Inner linked Event) (batch : BatchRequest linked Event) (chunks : List Bytes)
      (key : ChunkKey)
      → length batch.batch_keys ≡ length chunks
      → IsValid linked inner.raw_cache
      → All (λ chunk. inner.raw_cache.max_size + length chunk < 2 ^ 64) chunks
      → In key batch.batch_keys
      → (inner' : Inner linked Event) × (fulfill linked Event inner batch chunks
          ≡ ok (inner', batch.event))
        × IsValid linked inner'.raw_cache
        × (entries_of linked inner'.raw_cache
            ≡ put_all inner.raw_cache.max_size batch.batch_keys chunks
                (entries_of linked inner.raw_cache))
        × (HashMap.get key inner'.pending_chunks ≡ none)
  fulfill_lem inner batch chunks key e valid small asked =
      let (inner', run, valid', released, _, put) = fulfill-Puts inner batch chunks e valid small in
      (inner', run, valid', put, released key asked)

  -- A task that waits for a chunk that is not in the cache panics.
  finish_wait-missing :
      (inner : Inner linked Event) (key : ChunkKey) (event : Event)
      (requests : List (ChunkKey × Event)) (out : ChunkMap)
      → HashMap.get key (entries_of linked inner.raw_cache) ≡ none
      → finish_wait linked Event inner ((key, event) ∷ requests) out ≡ panic
  unfolding finish_wait
  finish_wait-missing inner key event requests out missing =
      rw (get-found linked inner.raw_cache key, missing)

  -- When a batch of one chunk that is larger than the whole valid cache (the sum of the limit and the
  -- chunk's size does not overflow a u64) is fulfilled, a task whose wait for this chunk ends next,
  -- as the first of its waits, panics: the chunk is evicted as soon as it is inserted.
  pub finish_wait-too_large :
      (inner : Inner linked Event) (key : ChunkKey) (event : Event) (chunk : Bytes)
      (inner' : Inner linked Event) (requests : List (ChunkKey × Event)) (out : ChunkMap)
      → IsValid linked inner.raw_cache
      → inner.raw_cache.max_size + length chunk < 2 ^ 64
      → inner.raw_cache.max_size < length chunk
      → fulfill linked Event inner (record { event = event; batch_keys = key ∷ [] }) (chunk ∷ [])
        ≡ ok (inner', event)
      → finish_wait linked Event inner' ((key, event) ∷ requests) out ≡ panic
  unfolding fulfill fulfill_chunks
  finish_wait-too_large inner key event chunk inner' requests out valid small large done =
      let (raw, run, fits, limit, valid1) =
        insert-fit linked inner.raw_cache key chunk valid small in
      let empty : entries_of linked raw ≡ [] =
        fits
        ∙ fit-too_large inner.raw_cache.max_size
            (HashMap.remove key (entries_of linked inner.raw_cache)) key chunk large in
      let after : Inner linked Event = record inner {
        raw_cache = raw;
        pending_chunks = HashMap.remove key inner.pending_chunks;
      } in
      let ran : fulfill linked Event inner (record { event = event; batch_keys = key ∷ [] })
            (chunk ∷ [])
          ≡ ok (after, event) =
        rw run refl in
      let same : after ≡ inner' =
        ap (λ (p : Inner linked Event × Event). p.0) (ok-injective (sym ran ∙ done)) in
      rw (← same)
        (finish_wait-missing after key event requests out (rw empty (unfold HashMap.get in refl)))
