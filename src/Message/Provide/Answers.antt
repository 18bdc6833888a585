-- ===== src/Message/Provide/Answers.antt =====
-- common/src/protocol_utils.rs: what `provide_chunks_as_requested` makes of a stream of requests.
use factory_cacher.Base.{
  ℕ, zero, suc, ◌+◌, ◌%◌, ◌^◌, ◌≤◌, ◌<◌, ◌≡◌, refl, sym, ap, ap₂, ◌∙◌, List, [], ◌∷◌, ◌++◌, length,
  Outcome, ok, err, unexpected_eof, arith, append_assoc, append-nil, length-append, not-lt→ltb,
}
use factory_cacher.Base.Words.{Bytes, le_bytes, length-le_bytes}
use factory_cacher.Dedup.{ChunkKey, ChunkMap}
use factory_cacher.Message.{read_message, write_message, find_chunks, message_size_limit}
use factory_cacher.Cache.File.RoundTrip.{read_exact-short}
use factory_cacher.Message.Fetch.{read_message-write_message}
use factory_cacher.Message.Provide.{
  answer_request, answer_requests, on_request, provide_chunks_as_requested,
}

-- A message on a stream: its length, and itself.
abbrev pub frame : Bytes → Bytes
frame message = le_bytes 4 (length message) ++ message

pub write_message-frame :
    (out message : Bytes)
    → length message ≤ 20000000
    → write_message out message ≡ ok (out ++ frame message)
unfolding write_message message_size_limit
write_message-frame out message small =
    let same : length message % 2 ^ 32 ≡ length message = omega arith in
    rw (not-lt→ltb 20000000 (length message) small, same) refl

pub read_message-frame :
    (message rest : Bytes)
    → length message ≤ 20000000
    → read_message (frame message ++ rest) ≡ ok (message, rest)
read_message-frame message rest small =
    rw (write_message-frame [] message small) at (read_message-write_message message rest small)

read_message-end : read_message [] ≡ err unexpected_eof
unfolding read_message
read_message-end = rw (read_exact-short 4 [] (omega arith)) refl

module _ (decode_message : Bytes → Outcome (List ChunkKey))
    (encode_message : List Bytes → Outcome Bytes) (chunks : ChunkMap) where
  -- A request, and the response with the chunks that it asks for.
  pub record IsExchange (request response : Bytes) : Type 0 where
    pub keys : List ChunkKey
    pub found : List Bytes
    pub asks : decode_message request ≡ ok keys
    pub finds : find_chunks chunks keys ≡ ok found
    pub answers : encode_message found ≡ ok response
    pub request_small : length request ≤ 20000000
    pub response_small : length response ≤ 20000000

  abbrev pub requests : List (Bytes × Bytes) → Bytes
  requests [] = []
  requests ((request, response) ∷ rest) = frame request ++ requests rest

  abbrev pub responses : List (Bytes × Bytes) → Bytes
  responses [] = []
  responses ((request, response) ∷ rest) = frame response ++ responses rest

  abbrev pub transferred : List (Bytes × Bytes) → ℕ
  transferred [] = 0
  transferred ((request, response) ∷ rest) = length request + length response + transferred rest

  abbrev pub AllExchanges : List (Bytes × Bytes) → Type 0
  AllExchanges [] = Unit {0}
  AllExchanges ((request, response) ∷ rest) = IsExchange request response × AllExchanges rest

  answer_requests-exchanges :
      (exchanges : List (Bytes × Bytes)) (fuel : ℕ) (out : Bytes) (total : ℕ)
      → length (requests exchanges) < fuel
      → AllExchanges exchanges
      → answer_requests decode_message encode_message chunks fuel (requests exchanges) out total
        ≡ ok (out ++ responses exchanges, total + transferred exchanges)
  unfolding answer_requests answer_request on_request
  answer_requests-exchanges exchanges zero out total enough h = absurd (omega arith)
  answer_requests-exchanges [] (suc fuel) out total enough h =
      rw read_message-end
        (ap₂ (λ (o : Bytes) (n : ℕ). ok (o, n)) (sym (append-nil out)) (omega arith))
  answer_requests-exchanges ((request, response) ∷ rest) (suc fuel) out total enough (here, later) =
      rw
        (
          read_message-frame request (requests rest) here.request_small,
          here.asks,
          here.finds,
          here.answers,
          write_message-frame out response here.response_small,
          answer_requests-exchanges rest fuel (out ++ frame response)
              (total + (length request + length response)) (shorter) later,
        )
        (ap₂ (λ (o : Bytes) (n : ℕ). ok (o, n)) (append_assoc out (frame response) (responses rest))
          (omega arith))
    where
      shorter : length (requests rest) < fuel
      shorter = omega (
        arith,
        length-append (frame request) (requests rest),
        length-append (le_bytes 4 (length request)) request,
        length-le_bytes 4 (length request),
      )

  -- On a stream of requests, each for chunks that are there, with messages of at most 20 million
  -- bytes: `provide_chunks_as_requested` ends with no error when the stream does, has written the
  -- responses in the order of the requests, and has counted the bytes of both.
  pub provide_chunks_as_requested-exchanges :
      (exchanges : List (Bytes × Bytes)) (out : Bytes)
      → AllExchanges exchanges
      → provide_chunks_as_requested decode_message encode_message chunks (requests exchanges) out
        ≡ ok (out ++ responses exchanges, transferred exchanges)
  unfolding provide_chunks_as_requested
  provide_chunks_as_requested-exchanges exchanges out h =
      answer_requests-exchanges exchanges (suc (length (requests exchanges))) out 0 (omega arith) h
      ∙ ap (λ (n : ℕ). ok (out ++ responses exchanges, n)) (omega arith)
