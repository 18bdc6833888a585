-- ===== src/Cache/Batch.antt =====
-- common/src/chunk_cache.rs: `ChunkCache`. Chunks that are missing are fetched in batches; a chunk
-- that some task fetches is pending, under an event that the task closes when it is done. An event
-- is a `tokio::sync::Semaphore` with no permits, of which the model knows only that it is a value:
-- a new one is an argument, and the events that a task waits for are part of a call's result.
-- `get_chunks_batched` holds the lock twice, before and after its wait, and is two functions here;
-- what other tasks do to the cache during the wait stands between them.
pub mod Select
pub mod Shorter
pub mod Requested
pub mod Begin
pub mod Fulfill
use factory_cacher.Base.{
  ℕ, zero, suc, Bool, true, false, not, ◌&&◌, Option, none, some, List, [], ◌∷◌, ◌++◌, ltb, ◌==◌,
  if◌then◌else◌, length, is_empty, Outcome, ok, panic, stuck, err, ◌>>=◌, ◌>>◌, assert, expect,
}
use factory_cacher.Base.HashMap
use factory_cacher.Base.HashMap.{HashMap}
use factory_cacher.Base.Words.{Bytes, same_bytes}
use factory_cacher.Dedup.{ChunkKey, ChunkMap}
use factory_cacher.Extern.LinkedMap.{LinkedMap}
use factory_cacher.Cache.Raw
use factory_cacher.Cache.Raw.{RawCache}

-- `HashSet::contains`, on the set as a list.
unfoldable pub contains : List ChunkKey → ChunkKey → Bool
contains [] key = false
contains (k ∷ keys) key = if same_bytes k key then true else contains keys key

module _ (linked : LinkedMap) (Event : Type 0) where
  -- `ChunkCacheInner`
  pub record Inner : Type 0 where
    pub raw_cache : RawCache linked
    pub pending_chunks : HashMap Event
    pub needs_saving : Bool

  -- `ChunkCache::new`
  pub new : ℕ → Inner
  new max_size = record {
    raw_cache = Raw.new linked max_size;
    pending_chunks = [];
    needs_saving = false;
  }

  -- What the closure of `retain` reads and writes.
  pub record Selection : Type 0 where
    pub raw_cache : RawCache linked
    pub chunks_out : ChunkMap
    pub batch_set : List ChunkKey
    pub batch : List ChunkKey

  -- `if batch_set.insert(key) { batch.push(key); }`
  unfoldable pub add_to_batch : Selection → ChunkKey → Selection
  add_to_batch s key =
      if contains s.batch_set key
      then s
      else record s { batch_set = key ∷ s.batch_set; batch = s.batch ++ key ∷ [] }

  -- The closure of `retain`: the new state, and whether the key stays requested.
  unfoldable pub select_chunk : HashMap Event → ℕ → Selection → ChunkKey → Selection × Bool
  select_chunk pending batch_size s key =
      let (found, raw_cache) = Raw.get linked s.raw_cache key in
      let s1 = record s { raw_cache = raw_cache } in
      elim found [
        | some chunk ↦ (record s1 { chunks_out = HashMap.insert key chunk s1.chunks_out }, false)
        | none ↦
            if not (HashMap.contains_key key pending) && ltb (length s1.batch) batch_size
            then (add_to_batch s1 key, false)
            else (s1, true)
      ]

  -- `chunks_requested.retain(…)`: the new state, and the keys that stay.
  unfoldable pub select_chunks :
      HashMap Event → ℕ → Selection → List ChunkKey → Selection × List ChunkKey
  select_chunks pending batch_size s [] = (s, [])
  select_chunks pending batch_size s (key ∷ keys) =
      let (s1, retain) = select_chunk pending batch_size s key in
      let (s2, kept) = select_chunks pending batch_size s1 keys in
      (s2, if retain then key ∷ kept else kept)

  -- `BatchChunkRequest`
  pub record BatchRequest : Type 0 where
    pub event : Event
    pub batch_keys : List ChunkKey

  -- What `get_chunks_batched` has come to when it first gives the lock back.
  pub data Progress : Type 0 where
    fetch : BatchRequest → Progress
    wait : List (ChunkKey × Event) → Progress
    done : Progress

  -- `for &key in &batch { inner.pending_chunks.insert(key, event.clone()); }`
  unfoldable pub mark_pending : Event → List ChunkKey → HashMap Event → HashMap Event
  mark_pending event [] pending = pending
  mark_pending event (key ∷ keys) pending =
      mark_pending event keys (HashMap.insert key event pending)

  -- `for key in chunks_requested.drain(..)`: the event of each key.
  unfoldable pub pending_events : HashMap Event → List ChunkKey → Outcome (List (ChunkKey × Event))
  pending_events pending [] = ok []
  pending_events pending (key ∷ keys) = do
    event ← expect (HashMap.get key pending)
    rest ← pending_events pending keys
    ok ((key, event) ∷ rest)

  -- `get_chunks_batched` up to its wait: the cache, the keys still requested, the chunks found, and
  -- how it goes on. `event` is the new event of the batch.
  unfoldable pub begin_batch :
      Inner
      → List ChunkKey
      → ChunkMap
      → ℕ
      → Event
      → Outcome (Inner × List ChunkKey × ChunkMap × Progress)
  begin_batch inner requested out batch_size event =
      let start : Selection = record {
        raw_cache = inner.raw_cache;
        chunks_out = out;
        batch_set = [];
        batch = [];
      } in
      let (s, kept) = select_chunks inner.pending_chunks batch_size start requested in
      let inner1 = record inner { raw_cache = s.raw_cache } in
      if not (is_empty s.batch)
      then ok (
        record inner1 { pending_chunks = mark_pending event s.batch inner1.pending_chunks },
        kept,
        s.chunks_out,
        fetch (record { event = event; batch_keys = s.batch }),
      )
      else (do
        events ← pending_events inner1.pending_chunks kept
        if is_empty events
            then ok (inner1, [], s.chunks_out, done)
            else ok (inner1, [], s.chunks_out, wait events))

  -- `get_chunks_batched` behind its wait: every chunk that was waited for is expected in the cache.
  unfoldable pub finish_wait :
      Inner → List (ChunkKey × Event) → ChunkMap → Outcome (Inner × ChunkMap)
  finish_wait inner [] out = ok (inner, out)
  finish_wait inner ((key, _) ∷ requests) out =
      let (found, raw_cache) = Raw.get linked inner.raw_cache key in
      do
        chunk ← expect found
        finish_wait (record inner { raw_cache = raw_cache }) requests (HashMap.insert key chunk out)

  -- The loop of `fulfill` over the keys of the batch and their chunks.
  unfoldable pub fulfill_chunks : Inner → List ChunkKey → List Bytes → Outcome Inner
  fulfill_chunks inner [] chunks = ok inner
  fulfill_chunks inner (key ∷ keys) [] = ok inner
  fulfill_chunks inner (key ∷ keys) (chunk ∷ chunks) = do
    raw_cache ← Raw.insert linked inner.raw_cache key chunk
    fulfill_chunks
        (record inner {
          raw_cache = raw_cache;
          pending_chunks = HashMap.remove key inner.pending_chunks;
        })
        keys chunks

  -- `BatchChunkRequest::fulfill`: the cache, and the event that is closed.
  unfoldable pub fulfill : Inner → BatchRequest → List Bytes → Outcome (Inner × Event)
  fulfill inner batch chunks = do
    assert (length batch.batch_keys == length chunks)
    inner' ← fulfill_chunks inner batch.batch_keys chunks
    ok (inner', batch.event)

  -- `ChunkCache::mark_dirty`
  pub mark_dirty : Inner → Inner
  mark_dirty inner = record inner { needs_saving = true }

  -- The locked part of `try_save`: what is to be written, if anything.
  pub take_snapshot : Inner → Inner × Option (RawCache linked)
  take_snapshot inner =
      if not inner.needs_saving
      then (inner, none)
      else (record inner { needs_saving = false }, some inner.raw_cache)
