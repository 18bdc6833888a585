-- ===== src/Message/Batch/Answered.antt =====
-- common/src/protocol_utils.rs: `fetch_chunk_batch` and `get_chunk` of the one proxy, answered by
-- `provide_chunks_as_requested` of the other.
use factory_cacher.Base.{
  ℕ, suc, is_empty, false, none, ◌+◌, ◌^◌, ◌<◌, ◌≡◌, refl, sym, ◌∙◌, subst, ◌⊎◌, inl, inr, none,
  some, List, [], ◌∷◌, length, Outcome, ok, ok-injective, All, arith,
}
use factory_cacher.Base.HashMap
use factory_cacher.Base.Words.{Bytes}
use factory_cacher.Cache.Batch.{Inner, BatchRequest, Progress, fetch, begin_batch}
use factory_cacher.Cache.Batch.Begin.{begin_batch_lem, fetched, awaited}
use factory_cacher.Cache.Batch.Select.{In, Accounted}
use factory_cacher.Cache.Raw.Eviction.{IsValid, entries_of}
use factory_cacher.Dedup.{ChunkKey, ChunkMap}
use factory_cacher.Extern.Blake3.{Blake3}
use factory_cacher.Extern.LinkedMap.{LinkedMap}
use factory_cacher.Message.Fetch.{IsStored, Agrees}
use factory_cacher.Message.Batch.{Task, Transport, fetch_chunk_batch, go_on, get_chunk}
use factory_cacher.Message.Batch.Answer.{answer, Travels, fetch_batch-answered, All-In}

In-not_empty : (key : ChunkKey) (keys : List ChunkKey) → In key keys → is_empty keys ≡ false
In-not_empty key (k ∷ keys) h = refl
In-not_empty key [] h = absurd h

module _ (decode_request : Bytes → Outcome (List ChunkKey))
    (encode_response : List Bytes → Outcome Bytes) (chunks : ChunkMap) where
  module _ (linked : LinkedMap) (Event : Type 0) (blake : Blake3) (transport : Transport)
      (meanwhile : Inner linked Event → Inner linked Event) (event : Event) where
    -- When `get_chunks_batched` gives a batch, the other side has each requested chunk under its
    -- hash, and the cache has no other chunk for a requested key, messages arrive as they were
    -- sent, and the cache has room in its total, then `fetch_chunk_batch` has no error and no
    -- panic: of each requested key it has the chunk of the other side, or it still requests it. A
    -- key of the batch is no longer pending, the cache stays well formed, and nothing is left in
    -- the stream.
    pub fetch_chunk_batch-answered :
        (t : Task linked Event) (inner1 : Inner linked Event) (kept : List ChunkKey)
        (out : ChunkMap) (batch : BatchRequest linked Event)
        (travels : Travels decode_request encode_response chunks transport batch.batch_keys)
        (key : ChunkKey)
        → begin_batch linked Event t.inner t.fetcher.pending_chunks t.fetcher.local_cache 512 event
          ≡ ok (inner1, kept, out, fetch batch)
        → t.input ≡ []
        → All (IsStored blake chunks) batch.batch_keys
        → IsValid linked (meanwhile inner1).raw_cache
        → All (λ chunk. (meanwhile inner1).raw_cache.max_size + length chunk < 2 ^ 64) travels.found
        → In key t.fetcher.pending_chunks
        → ((chunk : Bytes)
            → HashMap.get key (entries_of linked t.inner.raw_cache) ≡ some chunk
            → HashMap.get key chunks ≡ some chunk)
        → (t' : Task linked Event) × (fetch_chunk_batch linked Event blake transport meanwhile
              (answer decode_request encode_response chunks)
              event
              t
            ≡ ok t')
          × (Agrees t'.fetcher.local_cache chunks key ⊎ In key t'.fetcher.pending_chunks)
          × (In key batch.batch_keys → HashMap.get key t'.inner.pending_chunks ≡ none)
          × IsValid linked t'.inner.raw_cache
          × (t'.input ≡ [])
    unfolding fetch_chunk_batch go_on
    fetch_chunk_batch-answered t inner1 kept out batch travels key begun nothing stored valid small
          asked known =
        let (_, _, _, _, run0, is_accounted, _, _) =
          begin_batch_lem linked Event t.inner t.fetcher.pending_chunks t.fetcher.local_cache 512
            event key (omega arith) asked in
        let accounted : Accounted linked Event t.inner.pending_chunks 512 t.inner.raw_cache out
            batch.batch_keys (In key kept ⊎ In key []) key =
          subst
            (λ (r : Inner linked Event × List ChunkKey × ChunkMap × Progress linked Event).
              Accounted linked Event t.inner.pending_chunks 512 t.inner.raw_cache r.2 (fetched r.3)
                (In key r.1 ⊎ In key (awaited r.3)) key)
            (ok-injective (sym run0 ∙ begun)) is_accounted in
        let (t', run, agree, same, valid', released, done, _, waits) =
          fetch_batch-answered decode_request encode_response chunks linked Event blake transport
            meanwhile event
            (record t {
              inner = inner1;
              fetcher = record t.fetcher { pending_chunks = kept; local_cache = out };
            })
            batch travels nothing stored valid small in
        (
          t',
          rw (begun, run) refl,
          elim accounted [
            | inl (chunk, cached, put) ↦ inl (same key (put ∙ sym (known chunk cached)))
            | inr (inl taken) ↦
                inl (All-In (Agrees t'.fetcher.local_cache chunks) key batch.batch_keys agree taken)
            | inr (inr (inl stays)) ↦ inr (rw waits stays)
            | inr (inr (inr gone)) ↦ absurd gone
          ],
          released key,
          valid',
          done,
        )

    here :
        (fuel : ℕ) (key : ChunkKey) (t : Task linked Event) (chunk : Bytes)
        → HashMap.get key t.fetcher.local_cache ≡ some chunk
        → get_chunk linked Event blake transport meanwhile
            (answer decode_request encode_response chunks)
            event
            (suc fuel)
            key
            t
          ≡ ok (chunk, t)
    unfolding get_chunk
    here fuel key t chunk arrived = rw (get_chunk, arrived) refl

    one_turn :
        (fuel : ℕ) (key : ChunkKey) (t t' : Task linked Event)
        → HashMap.get key t.fetcher.local_cache ≡ none
        → is_empty t.fetcher.pending_chunks ≡ false
        → fetch_chunk_batch linked Event blake transport meanwhile
            (answer decode_request encode_response chunks)
            event
            t
          ≡ ok t'
        → get_chunk linked Event blake transport meanwhile
            (answer decode_request encode_response chunks)
            event
            (suc fuel)
            key
            t
          ≡ get_chunk linked Event blake transport meanwhile
              (answer decode_request encode_response chunks)
              event
              fuel
              key
              t'
    unfolding get_chunk
    one_turn fuel key t t' absent pending run = rw (get_chunk, absent, pending, run) refl

    -- On the same terms, `get_chunk` of a key that the batch has and the task has not yet ends after
    -- one turn of its loop, with the chunk of the other side.
    pub get_chunk-answered :
        (fuel : ℕ) (t : Task linked Event) (inner1 : Inner linked Event) (kept : List ChunkKey)
        (out : ChunkMap) (batch : BatchRequest linked Event)
        (travels : Travels decode_request encode_response chunks transport batch.batch_keys)
        (key : ChunkKey)
        → begin_batch linked Event t.inner t.fetcher.pending_chunks t.fetcher.local_cache 512 event
          ≡ ok (inner1, kept, out, fetch batch)
        → t.input ≡ []
        → All (IsStored blake chunks) batch.batch_keys
        → IsValid linked (meanwhile inner1).raw_cache
        → All (λ chunk. (meanwhile inner1).raw_cache.max_size + length chunk < 2 ^ 64) travels.found
        → In key t.fetcher.pending_chunks
        → In key batch.batch_keys
        → HashMap.get key t.fetcher.local_cache ≡ none
        → (chunk : Bytes) × (t' : Task linked Event) × (get_chunk linked Event blake transport
              meanwhile
              (answer decode_request encode_response chunks)
              event
              (suc (suc fuel))
              key
              t
            ≡ ok (chunk, t'))
          × (HashMap.get key chunks ≡ some chunk)
    unfolding fetch_chunk_batch go_on
    get_chunk-answered fuel t inner1 kept out batch travels key begun nothing stored valid small
          asked taken absent =
        let (t', run, agree, _, _, _, _, _, _) =
          fetch_batch-answered decode_request encode_response chunks linked Event blake transport
            meanwhile event
            (record t {
              inner = inner1;
              fetcher = record t.fetcher { pending_chunks = kept; local_cache = out };
            })
            batch travels nothing stored valid small in
        let (chunk, there, _) = All-In (IsStored blake chunks) key batch.batch_keys stored taken in
        let arrived : HashMap.get key t'.fetcher.local_cache ≡ some chunk =
          All-In (Agrees t'.fetcher.local_cache chunks) key batch.batch_keys agree taken ∙ there in
        (
          chunk,
          t',
          one_turn (suc fuel) key t t' absent (In-not_empty key t.fetcher.pending_chunks asked)
                (rw (begun, run) refl)
              ∙ here fuel key t' chunk arrived,
          there,
        )
