-- ===== src/Message/Batch/Answer.antt =====
-- common/src/protocol_utils.rs: `fetch_chunk_batch` of the one proxy with the loop body of
-- `provide_chunks_as_requested` of the other: one batch.
use factory_cacher.Base.{
  ℕ, suc, none, ◌+◌, ◌^◌, ◌≤◌, ◌<◌, ◌≡◌, refl, sym, ap, ◌∙◌, subst, inl, inr, none, List, [], ◌∷◌,
  ◌++◌, length, Outcome, ok, ok-injective, ◌>>=◌, All, append-nil,
}
use factory_cacher.Base.HashMap
use factory_cacher.Base.Words.{Bytes}
use factory_cacher.Cache.Batch.{Inner, BatchRequest}
use factory_cacher.Cache.Batch.Fulfill.{fulfill-Puts}
use factory_cacher.Cache.Batch.Select.{In}
use factory_cacher.Cache.Raw.Eviction.{IsValid}
use factory_cacher.Dedup.{ChunkKey, ChunkMap}
use factory_cacher.Extern.Blake3.{Blake3}
use factory_cacher.Extern.LinkedMap.{LinkedMap}
use factory_cacher.Message.{read_message, find_chunks, accept_chunks, accept_response}
use factory_cacher.Message.Fetch.{IsStored, Agrees, accept_chunks-Agrees}
use factory_cacher.Message.Provide.{answer_request}
use factory_cacher.Message.Provide.Answers.{frame, write_message-frame, read_message-frame}
use factory_cacher.Message.Batch.{Task, Transport, fetch_batch}

-- A message that was read and its answer, as the stream has it.
abbrev sent : Outcome (Bytes × ℕ) → Bytes
sent (ok (out, bytes)) = out
sent _ = []

pub find_chunks-found :
    (blake : Blake3) (chunks : ChunkMap) (keys : List ChunkKey)
    → All (IsStored blake chunks) keys
    → (found : List Bytes) × (find_chunks chunks keys ≡ ok found) × (length keys ≡ length found)
unfolding find_chunks
find_chunks-found blake chunks [] h = ([], refl, refl)
find_chunks-found blake chunks (key ∷ keys) ((chunk, there, _), h) =
    let (found, run, same) = find_chunks-found blake chunks keys h in
    (chunk ∷ found, rw (there, run) refl, ap suc same)

pub All-In :
    (P : ChunkKey → Type 0) (key : ChunkKey) (keys : List ChunkKey)
    → All P keys
    → In key keys
    → P key
All-In P key (k ∷ keys) (p, ps) (inl same) = subst P (sym same) p
All-In P key (k ∷ keys) (p, ps) (inr later) = All-In P key keys ps later
All-In P key [] ps h = absurd h

module _ (decode_request : Bytes → Outcome (List ChunkKey))
    (encode_response : List Bytes → Outcome Bytes) (chunks : ChunkMap) where
  -- What the serving proxy sends when it gets a message.
  abbrev pub answer : Bytes → Bytes
  answer written =
      sent
        (read_message written >>= λ r. answer_request decode_request encode_response chunks r.0 [])

  -- A request and its response, as they are encoded on the one side and decoded on the other.
  pub record Travels (transport : Transport) (keys : List ChunkKey) : Type 0 where
    pub request : Bytes
    pub response : Bytes
    pub found : List Bytes
    pub asks : transport.encode_request keys ≡ ok request
    pub asked : decode_request request ≡ ok keys
    pub finds : find_chunks chunks keys ≡ ok found
    pub answers : encode_response found ≡ ok response
    pub answered : transport.decode_response response ≡ ok found
    pub request_small : length request ≤ 20000000
    pub response_small : length response ≤ 20000000

  answer-frame :
      (transport : Transport) (keys : List ChunkKey) (travels : Travels transport keys)
      → answer (frame travels.request) ≡ frame travels.response
  unfolding answer_request
  answer-frame transport keys travels =
      let arrives =
        rw (append-nil (frame travels.request)) at
          (read_message-frame travels.request [] travels.request_small) in
      rw
        (
          arrives,
          travels.asked,
          travels.finds,
          travels.answers,
          write_message-frame [] travels.response travels.response_small,
        )
        refl

  module _ (linked : LinkedMap) (Event : Type 0) (blake : Blake3) (transport : Transport)
      (meanwhile : Inner linked Event → Inner linked Event) (event : Event) where
    pub fetch_batch-answered :
        (t : Task linked Event) (batch : BatchRequest linked Event)
        (travels : Travels transport batch.batch_keys)
        → t.input ≡ []
        → All (IsStored blake chunks) batch.batch_keys
        → IsValid linked (meanwhile t.inner).raw_cache
        → All
            (λ chunk. (meanwhile t.inner).raw_cache.max_size + length chunk < 2 ^ 64)
            travels.found
        → (t' : Task linked Event) × (fetch_batch linked Event blake transport meanwhile answer
              event t batch
            ≡ ok t')
          × All (Agrees t'.fetcher.local_cache chunks) batch.batch_keys
          × ((key : ChunkKey)
              → Agrees t.fetcher.local_cache chunks key
              → Agrees t'.fetcher.local_cache chunks key)
          × IsValid linked t'.inner.raw_cache
          × ((key : ChunkKey)
              → In key batch.batch_keys
              → HashMap.get key t'.inner.pending_chunks ≡ none)
          × (t'.input ≡ [])
          × (t'.output ≡ t.output ++ frame travels.request)
          × (t'.fetcher.pending_chunks ≡ t.fetcher.pending_chunks)
    unfolding fetch_batch accept_response
    fetch_batch-answered t batch travels nothing stored valid small =
        let keys = batch.batch_keys in
        let (found, local', found_run, accepted, agree, kept) =
          accept_chunks-Agrees blake chunks keys t.fetcher.local_cache stored in
        let (found2, found2_run, same_length) = find_chunks-found blake chunks keys stored in
        let same : found ≡ travels.found = ok-injective (sym found_run ∙ travels.finds) in
        let same2 : found2 ≡ travels.found = ok-injective (sym found2_run ∙ travels.finds) in
        let (inner', fulfilled, valid', released, _, _) =
          fulfill-Puts linked Event (meanwhile t.inner) batch travels.found
            (same_length ∙ ap length same2) valid small in
        let accepted' : accept_chunks blake keys travels.found t.fetcher.local_cache ≡ ok local' =
          rw (sym same) accepted in
        let came : read_message (t.input ++ answer (frame travels.request))
            ≡ ok (travels.response, []) =
          rw
            (
              nothing,
              answer-frame transport keys travels,
              sym (append-nil (frame travels.response)),
            )
            (read_message-frame travels.response [] travels.response_small) in
        (
          record {
            inner = inner';
            fetcher = record {
              local_cache = local';
              pending_chunks = t.fetcher.pending_chunks;
              total_transferred =
                  t.fetcher.total_transferred + length travels.request + length travels.response;
            };
            input = [];
            output = t.output ++ frame travels.request;
          },
          rw
              (
                travels.asks,
                write_message-frame [] travels.request travels.request_small,
                came,
                travels.answered,
                accepted',
                fulfilled,
              )
              refl,
          agree,
          kept,
          valid',
          released,
          refl,
          refl,
          refl,
        )
