-- ===== src/Message/Tests.antt =====
-- common/src/protocol_utils.rs: the theorems at concrete inputs.
use factory_cacher.Base.{
  ◌≡◌, refl, ℕ, none, inl, ◌⊎◌, false, List, [], ◌∷◌, ◌++◌, ok, ◌>>=◌, some, arith, Outcome, concat,
}
use factory_cacher.Base.HashMap
use factory_cacher.Base.Words.{Bytes, same_bytes_refl}
use factory_cacher.Extern.Blake3.{number_hash}
use factory_cacher.Dedup.{ChunkKey}
use factory_cacher.Dedup.Tests.{three, three_key, three_chunks}
use factory_cacher.Message.{write_message, read_message, find_chunks}
use factory_cacher.Message.Provide.{provide_chunks_as_requested}
use factory_cacher.Message.Provide.Answers.{
  IsExchange, requests, responses, provide_chunks_as_requested-exchanges,
}
use factory_cacher.Message.Batch.Settles.{Settles}
use factory_cacher.Message.Batch.{Task, Transport, fetch_chunk_batch}
use factory_cacher.Message.Batch.Answer.{answer, Travels}
use factory_cacher.Message.Batch.Answered.{fetch_chunk_batch-answered}
use factory_cacher.Extern.LinkedMap.{list_map}
use factory_cacher.Cache.Raw
use factory_cacher.Cache.Raw.Eviction.{IsValid}
use factory_cacher.Cache.Batch.Select.{In}
use factory_cacher.Cache.Batch.{
  Inner, BatchRequest, fetch, begin_batch, select_chunks, select_chunk, add_to_batch, mark_pending,
  contains,
}
use factory_cacher.Message.Fetch.{Agrees, read_message-write_message}

read_message-write_message_example :
    (write_message [] (1 ∷ 2 ∷ []) >>= λ stream. read_message (stream ++ 3 ∷ []))
    ≡ ok (1 ∷ 2 ∷ [], 3 ∷ [])
read_message-write_message_example = read_message-write_message (1 ∷ 2 ∷ []) (3 ∷ []) (omega arith)

three_found : HashMap.get three_key three_chunks ≡ some three
unfolding HashMap.get
three_found = rw (same_bytes_refl three_key) refl

abbrev ask_three : Bytes → Outcome (List ChunkKey)
ask_three request = ok (three_key ∷ [])

abbrev join : List Bytes → Outcome Bytes
join found = ok (concat found)

three-IsExchange : IsExchange ask_three join three_chunks (7 ∷ []) three
unfolding find_chunks
three-IsExchange = record {
  keys = three_key ∷ [];
  found = three ∷ [];
  asks = refl;
  finds = rw three_found refl;
  answers = refl;
  request_small = omega arith;
  response_small = omega arith;
}

provide_chunks_as_requested-exchanges_example :
    provide_chunks_as_requested ask_three join three_chunks
      (requests ask_three join three_chunks ((7 ∷ [], three) ∷ (7 ∷ [], three) ∷ []))
      (5 ∷ [])
    ≡ ok (
      (5 ∷ []) ++ responses ask_three join three_chunks ((7 ∷ [], three) ∷ (7 ∷ [], three) ∷ []),
      8,
    )
provide_chunks_as_requested-exchanges_example =
    provide_chunks_as_requested-exchanges ask_three join three_chunks
      ((7 ∷ [], three) ∷ (7 ∷ [], three) ∷ []) (5 ∷ []) (three-IsExchange, (three-IsExchange, tt))

-- A task with an empty cache that asks for one chunk.
abbrev empty_inner : Inner list_map ℕ
empty_inner = record {
  raw_cache = record { chunks = []; total_size = 0; max_size = 100 };
  pending_chunks = [];
  needs_saving = false;
}

abbrev asking : Task list_map ℕ
asking = record {
  inner = empty_inner;
  fetcher = record { local_cache = []; pending_chunks = three_key ∷ []; total_transferred = 0 };
  input = [];
  output = [];
}

abbrev marked : Inner list_map ℕ
marked = record empty_inner { pending_chunks = (three_key, 5) ∷ [] }

abbrev three_batch : BatchRequest list_map ℕ
three_batch = record { event = 5; batch_keys = three_key ∷ [] }

three_begun :
    begin_batch list_map ℕ empty_inner (three_key ∷ []) [] 512 5
    ≡ ok (marked, [], [], fetch three_batch)
unfolding begin_batch select_chunks select_chunk add_to_batch mark_pending Raw.get contains
    HashMap.get HashMap.contains_key
three_begun = refl

abbrev one_transport : Transport
one_transport = record {
  encode_request = λ keys. ok (7 ∷ []);
  decode_response = λ response. ok (response ∷ []);
}

three_sent : find_chunks three_chunks (three_key ∷ []) ≡ ok (three ∷ [])
unfolding find_chunks
three_sent = rw three_found refl

abbrev three_travels : Travels ask_three join three_chunks one_transport (three_key ∷ [])
three_travels = record {
  request = 7 ∷ [];
  response = three;
  found = three ∷ [];
  asks = refl;
  asked = refl;
  finds = three_sent;
  answers = refl;
  answered = refl;
  request_small = omega arith;
  response_small = omega arith;
}

marked-IsValid : IsValid list_map marked.raw_cache
marked-IsValid = record { counted = refl; bounded = omega arith; distinct = tt }

fetch_chunk_batch-answered_example :
    (t' : Task list_map ℕ) × (fetch_chunk_batch list_map ℕ number_hash one_transport
        (λ c. c)
        (answer ask_three join three_chunks)
        5
        asking
      ≡ ok t')
    × (Agrees t'.fetcher.local_cache three_chunks three_key
        ⊎ In three_key t'.fetcher.pending_chunks)
    × (In three_key (three_key ∷ []) → HashMap.get three_key t'.inner.pending_chunks ≡ none)
    × IsValid list_map t'.inner.raw_cache
    × (t'.input ≡ [])
unfolding HashMap.get
fetch_chunk_batch-answered_example =
    fetch_chunk_batch-answered ask_three join three_chunks list_map ℕ number_hash one_transport
      (λ c. c) 5 asking marked [] [] three_batch three_travels three_key three_begun refl
      ((three, three_found, refl), tt) marked-IsValid (omega arith, tt) (inl refl) (λ chunk h. cc)
