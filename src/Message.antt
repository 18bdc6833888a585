-- ===== src/Message.antt =====
-- common/src/protocol_utils.rs: messages on a stream, and the chunks that the proxies ask each other
-- for. A stream is the bytes that were not read yet, or those that were written. What `zstd` and
-- `rmp_serde` make of a message is not looked into: a request is its keys, a response its chunks.
pub mod Fetch
pub mod Provide
pub mod Batch
mod Tests
use factory_cacher.Base.{
  ℕ, ◌+◌, ◌%◌, ◌^◌, Option, none, some, List, [], ◌∷◌, ◌++◌, ltb, if◌then◌else◌, not, length, take,
  drop, Outcome, ok, err, panic, stuck, ◌>>=◌, ◌>>◌, assert, guard, ok_or, unexpected_eof,
  unknown_chunk, hash_mismatch, is_empty,
}
use factory_cacher.Base.HashMap
use factory_cacher.Base.HashMap.{HashMap}
use factory_cacher.Base.Words.{Bytes, le_bytes, of_le, same_bytes}
use factory_cacher.Cache.File.{read_exact}
use factory_cacher.Cache.Batch.{Inner, BatchRequest, fulfill}
use factory_cacher.Dedup.{ChunkKey, ChunkMap}
use factory_cacher.Extern.Blake3.{Blake3}
use factory_cacher.Extern.LinkedMap.{LinkedMap}

-- `MESSAGE_SIZE_LIMIT`
unfoldable pub message_size_limit : ℕ
message_size_limit = 20000000

-- `write_message`
unfoldable pub write_message : Bytes → Bytes → Outcome Bytes
write_message out msg_data = do
  assert (not (ltb message_size_limit (length msg_data)))
  ok (out ++ (le_bytes 4 (length msg_data % 2 ^ 32) ++ msg_data))

-- `read_message`: the message, and what is left of the stream.
unfoldable pub read_message : Bytes → Outcome (Bytes × Bytes)
read_message input = do
  (size, input1) ← read_exact 4 input
  let msg_size = of_le size
  assert (not (ltb message_size_limit msg_size))
  read_exact msg_size input1

-- The response of `provide_chunks_as_requested` to a request.
pub find_chunks : ChunkMap → List ChunkKey → Outcome (List Bytes)
find_chunks chunks [] = ok []
find_chunks chunks (key ∷ keys) = do
  chunk ← ok_or (HashMap.get key chunks) unknown_chunk
  rest ← find_chunks chunks keys
  ok (chunk ∷ rest)

-- `ChunkFetcherProvider`: its own state.
pub record Fetcher : Type 0 where
  pub local_cache : ChunkMap
  pub pending_chunks : List ChunkKey
  pub total_transferred : ℕ

-- `ChunkFetcherProvider::new`
pub new : Fetcher
new = record { local_cache = []; pending_chunks = []; total_transferred = 0 }

-- The filter of `prefetch`.
pub missing : ChunkMap → List ChunkKey → List ChunkKey
missing local_cache [] = []
missing local_cache (key ∷ keys) =
    let rest = missing local_cache keys in
    if not (HashMap.contains_key key local_cache) then key ∷ rest else rest

-- `ChunkProvider::prefetch`
pub prefetch : Fetcher → List ChunkKey → Fetcher
prefetch f keys = record f { pending_chunks = f.pending_chunks ++ missing f.local_cache keys }

module _ (blake : Blake3) where
  -- The loop of `fetch_chunk_batch` over the keys of the batch and the chunks of the response.
  unfoldable pub accept_chunks : List ChunkKey → List Bytes → ChunkMap → Outcome ChunkMap
  accept_chunks [] chunks local_cache = ok local_cache
  accept_chunks (key ∷ keys) [] local_cache = ok local_cache
  accept_chunks (key ∷ keys) (chunk ∷ chunks) local_cache = do
    guard (same_bytes (blake.hash chunk) key) hash_mismatch
    accept_chunks keys chunks (HashMap.insert key chunk local_cache)

  -- The end of `fetch_chunk_batch`, with the chunks of the response: the cache and the event that
  -- is closed.
  unfoldable pub accept_response :
      (linked : LinkedMap) (Event : Type 0)
      → Inner linked Event
      → Fetcher
      → BatchRequest linked Event
      → List Bytes
      → Outcome (Inner linked Event × Event × Fetcher)
  accept_response linked Event inner f batch chunks = do
    local_cache ← accept_chunks batch.batch_keys chunks f.local_cache
    (inner', event) ← fulfill linked Event inner batch chunks
    ok (inner', event, record f { local_cache = local_cache })
