-- ===== src/Message/Batch.antt =====
-- common/src/protocol_utils.rs: `fetch_chunk_batch` and `get_chunk` of `ChunkFetcherProvider`. The
-- cache is shared: `meanwhile` is what other tasks do to it while this one awaits. What the other
-- side sends is a function of the message that it gets.
pub mod Answer
pub mod Answered
pub mod Settles
pub mod Ends
use factory_cacher.Base.{
  ℕ, zero, suc, ◌+◌, Option, none, some, List, [], is_empty, if◌then◌else◌, length, Outcome, ok,
  panic, stuck, ◌>>=◌, ◌++◌,
}
use factory_cacher.Base.HashMap
use factory_cacher.Base.Words.{Bytes}
use factory_cacher.Cache.Batch.{
  Inner, BatchRequest, Progress, fetch, wait, done, begin_batch, finish_wait,
}
use factory_cacher.Dedup.{ChunkKey, ChunkMap}
use factory_cacher.Extern.Blake3.{Blake3}
use factory_cacher.Extern.LinkedMap.{LinkedMap}
use factory_cacher.Message.{Fetcher, read_message, write_message, accept_response}

-- `MessageTransport` for the two messages that are fetched with: MessagePack and zstd.
pub record Transport : Type 0 where
  pub encode_request : List ChunkKey → Outcome Bytes
  pub decode_response : Bytes → Outcome (List Bytes)

module _ (linked : LinkedMap) (Event : Type 0) where
  -- What a fetching task works on: the shared cache, its own state, and the two streams.
  pub record Task : Type 0 where
    pub inner : Inner linked Event
    pub fetcher : Fetcher
    pub input : Bytes
    pub output : Bytes

  module _ (blake : Blake3) (transport : Transport)
      (meanwhile : Inner linked Event → Inner linked Event) (peer : Bytes → Bytes)
      (event : Event) where
    -- `fetch_chunk_batch` behind `get_chunks_batched` when there is a batch.
    unfoldable pub fetch_batch : Task → BatchRequest linked Event → Outcome Task
    fetch_batch t batch = do
      request_data ← transport.encode_request batch.batch_keys
      written ← write_message [] request_data
      (response_data, input) ← read_message (t.input ++ peer written)
      chunks ← transport.decode_response response_data
      let transferred = t.fetcher.total_transferred + length request_data + length response_data
      (inner, _, fetcher) ←
          accept_response blake linked Event (meanwhile t.inner)
            (record t.fetcher { total_transferred = transferred }) batch chunks
      ok (record { inner = inner; fetcher = fetcher; input = input; output = t.output ++ written })

    -- How `fetch_chunk_batch` goes on from what `get_chunks_batched` has come to.
    unfoldable pub go_on : Task → Progress linked Event → Outcome Task
    go_on t (fetch batch) = fetch_batch t batch
    go_on t (wait events) = do
      (inner, chunks_out) ←
          finish_wait linked Event (meanwhile t.inner) events t.fetcher.local_cache
      ok (record t { inner = inner; fetcher = record t.fetcher { local_cache = chunks_out } })
    go_on t done = ok t

    -- `fetch_chunk_batch`
    unfoldable pub fetch_chunk_batch : Task → Outcome Task
    fetch_chunk_batch t = do
      (inner, kept, chunks_out, progress) ←
          begin_batch linked Event t.inner t.fetcher.pending_chunks t.fetcher.local_cache 512 event
      go_on
          (record t {
            inner = inner;
            fetcher = record t.fetcher { pending_chunks = kept; local_cache = chunks_out };
          })
          progress

    -- The `loop` of `get_chunk`, with fuel for its turns.
    unfoldable pub get_chunk : ℕ → ChunkKey → Task → Outcome (Bytes × Task)
    get_chunk zero key t = stuck
    get_chunk (suc fuel) key t = elim (HashMap.get key t.fetcher.local_cache) [
      | some chunk ↦ ok (chunk, t)
      | none ↦
          if is_empty t.fetcher.pending_chunks
          then panic
          else fetch_chunk_batch t >>= get_chunk fuel key
    ]
