-- ===== src/Message/Provide.antt =====
-- common/src/protocol_utils.rs: `provide_chunks_as_requested`, the loop that answers requests for
-- chunks until the stream ends. The stream from the other side is its bytes.
pub mod Answers
use factory_cacher.Base.{ℕ, zero, suc, ◌+◌, List, length, Outcome, ok, err, panic, stuck, ◌>>=◌}
use factory_cacher.Base.Words.{Bytes}
use factory_cacher.Dedup.{ChunkKey, ChunkMap}
use factory_cacher.Message.{read_message, write_message, find_chunks}

-- `decode_message` and `encode_message` of `MessageTransport`, for the two messages of the loop:
-- MessagePack and zstd.
module _ (decode_message : Bytes → Outcome (List ChunkKey))
    (encode_message : List Bytes → Outcome Bytes) (chunks : ChunkMap) where
  -- The body of the loop: what is written, and the number of bytes that went either way.
  unfoldable pub answer_request : Bytes → Bytes → Outcome (Bytes × ℕ)
  answer_request request_data out = do
    requested_chunks ← decode_message request_data
    response ← find_chunks chunks requested_chunks
    response_data ← encode_message response
    out' ← write_message out response_data
    ok (out', length request_data + length response_data)

  -- One turn of the loop, on what `read_message` gave; `next` is the rest of the loop. A message
  -- that cannot be read ends it well.
  unfoldable pub on_request :
      (Bytes → Bytes → ℕ → Outcome (Bytes × ℕ))
      → Outcome (Bytes × Bytes)
      → Bytes
      → ℕ
      → Outcome (Bytes × ℕ)
  on_request next (ok (request_data, input)) out total_transferred = do
    (out', bytes) ← answer_request request_data out
    next input out' (total_transferred + bytes)
  on_request next (err _) out total_transferred = ok (out, total_transferred)
  on_request next panic out total_transferred = panic
  on_request next stuck out total_transferred = stuck

  -- The loop; each message takes at least the four bytes of its length from the stream.
  unfoldable pub answer_requests : ℕ → Bytes → Bytes → ℕ → Outcome (Bytes × ℕ)
  answer_requests zero input out total_transferred = stuck
  answer_requests (suc fuel) input out total_transferred =
      on_request (answer_requests fuel) (read_message input) out total_transferred

  -- `provide_chunks_as_requested`
  unfoldable pub provide_chunks_as_requested : Bytes → Bytes → Outcome (Bytes × ℕ)
  provide_chunks_as_requested input out = answer_requests (suc (length input)) input out 0
