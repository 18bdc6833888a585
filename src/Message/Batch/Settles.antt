-- ===== src/Message/Batch/Settles.antt =====
-- common/src: what `fetch_chunk_batch` calls comes to an outcome of the program: a value, an error or
-- a panic. The one loop with fuel below it is the eviction of the cache.
use factory_cacher.Base.{
  ℕ, zero, suc, ◌<◌, ◌≡◌, refl, inl, inr, Option, none, some, List, [], ◌∷◌, ltb, not, length,
  Outcome, ok, err, panic, stuck, ◌>>=◌, true, false, Bool, arith, Bool-cases, subst, assert, guard,
  expect, is_empty, hash_mismatch,
}
use factory_cacher.Base.HashMap
use factory_cacher.Base.HashMap.{HashMap}
use factory_cacher.Base.Words.{Bytes, same_bytes, of_le}
use factory_cacher.Cache.File.{read_exact}
use factory_cacher.Cache.Raw
use factory_cacher.Cache.Raw.{RawCache, evict, insert, sub_u64}
use factory_cacher.Cache.Batch.{
  Inner, Selection, BatchRequest, begin_batch, select_chunks, pending_events, finish_wait, fulfill,
  fulfill_chunks,
}
use factory_cacher.Cache.Batch.Select.{start}
use factory_cacher.Dedup.{ChunkKey, ChunkMap}
use factory_cacher.Extern.Blake3.{Blake3}
use factory_cacher.Extern.LinkedMap.{LinkedMap, Pops}
use factory_cacher.Message.{
  read_message, write_message, message_size_limit, accept_response, accept_chunks, Fetcher,
}

-- Not `stuck`.
unfoldable pub Settles {ℓ} : {A : Type ℓ} → Outcome A → Type 0
Settles (ok a) = Unit
Settles (err e) = Unit
Settles panic = Unit
Settles stuck = ⊥

pub Settles-bind {ℓ} :
    {A B : Type ℓ} (m : Outcome A) (f : A → Outcome B)
    → Settles m
    → ((a : A) → Settles (f a))
    → Settles (m >>= f)
unfolding Settles
Settles-bind (ok a) f s h = h a
Settles-bind (err e) f s h = tt
Settles-bind panic f s h = tt
Settles-bind stuck f s h = absurd s

assert-Settles : (b : Bool) → Settles (assert b)
unfolding Settles
assert-Settles true = tt
assert-Settles false = tt

guard-Settles : (b : Bool) → Settles (guard b hash_mismatch)
unfolding Settles
guard-Settles true = tt
guard-Settles false = tt

expect-Settles {ℓ} : {A : Type ℓ} (o : Option A) → Settles (expect o)
unfolding Settles
expect-Settles none = tt
expect-Settles (some a) = tt

pub write_message-Settles : (out msg : Bytes) → Settles (write_message out msg)
unfolding write_message Settles
write_message-Settles out msg = elim (Bool-cases (ltb message_size_limit (length msg))) [
  | inl long ↦ rw long tt
  | inr short ↦ rw short tt
]

read_exact-Settles : (n : ℕ) (b : Bytes) → Settles (read_exact n b)
unfolding read_exact Settles
read_exact-Settles n b = elim (Bool-cases (ltb (length b) n)) [
  | inl short ↦ rw short tt
  | inr long ↦ rw long tt
]

pub read_message-Settles : (input : Bytes) → Settles (read_message input)
unfolding read_message
read_message-Settles input = Settles-bind (read_exact 4 input) _ (read_exact-Settles 4 input) (λ r.
    Settles-bind (assert (not (ltb message_size_limit (of_le r.0)))) _ (assert-Settles _)
      (λ u. read_exact-Settles (of_le r.0) r.1))

accept_chunks-Settles :
    (blake : Blake3) (keys : List ChunkKey) (chunks : List Bytes) (local : ChunkMap)
    → Settles (accept_chunks blake keys chunks local)
unfolding accept_chunks Settles
accept_chunks-Settles blake [] chunks local = tt
accept_chunks-Settles blake (key ∷ keys) [] local = tt
accept_chunks-Settles blake (key ∷ keys) (chunk ∷ chunks) local =
    Settles-bind (guard (same_bytes (blake.hash chunk) key) hash_mismatch) _ (guard-Settles _)
      (λ u. accept_chunks-Settles blake keys chunks (HashMap.insert key chunk local))

module _ (linked : LinkedMap) where
  -- An eviction ends: with fewer entries than fuel it comes to an empty map at last.
  evict-Settles :
      (es : HashMap Bytes) (fuel : ℕ) (cache : RawCache linked)
      → linked.entries cache.chunks ≡ es
      → length es < fuel
      → Settles (evict linked fuel cache)
  unfolding evict Settles
  evict-Settles es zero cache e enough = absurd (omega arith)
  evict-Settles [] (suc fuel) cache e enough =
      let nothing : linked.pop_front cache.chunks ≡ none =
        subst (λ (l : HashMap Bytes). Pops linked.entries l (linked.pop_front cache.chunks)) e
          (linked.pop_front-Pops cache.chunks) in
      elim (Bool-cases (ltb cache.max_size cache.total_size)) [
        | inl large ↦ rw (large, nothing, evict) tt
        | inr fits ↦ rw (fits, evict) tt
      ]
  evict-Settles ((k, v) ∷ es) (suc fuel) cache e enough =
      let (m, popped, rest) =
        subst (λ (l : HashMap Bytes). Pops linked.entries l (linked.pop_front cache.chunks)) e
          (linked.pop_front-Pops cache.chunks) in
      elim (Bool-cases (ltb cache.max_size cache.total_size)) [
        | inl large ↦
            rw (large, popped, evict)
              (evict-Settles es fuel
                (record cache { chunks = m; total_size = sub_u64 cache.total_size (length v) }) rest
                (omega arith))
        | inr fits ↦ rw (fits, evict) tt
      ]

  insert-Settles :
      (cache : RawCache linked) (key : ChunkKey) (chunk : Bytes)
      → Settles (insert linked cache key chunk)
  unfolding insert
  insert-Settles cache key chunk =
      let inserted = linked.insert cache.chunks key chunk in
      evict-Settles (linked.entries inserted.0) (suc (linked.len inserted.0)) _ refl
        (omega (arith, linked.len-entries inserted.0))

  module _ (Event : Type 0) where
    fulfill_chunks-Settles :
        (inner : Inner linked Event) (keys : List ChunkKey) (chunks : List Bytes)
        → Settles (fulfill_chunks linked Event inner keys chunks)
    unfolding fulfill_chunks Settles
    fulfill_chunks-Settles inner [] chunks = tt
    fulfill_chunks-Settles inner (key ∷ keys) [] = tt
    fulfill_chunks-Settles inner (key ∷ keys) (chunk ∷ chunks) =
        Settles-bind (insert linked inner.raw_cache key chunk) _
          (insert-Settles inner.raw_cache key chunk)
          (λ raw.
            fulfill_chunks-Settles
              (record inner {
                raw_cache = raw;
                pending_chunks = HashMap.remove key inner.pending_chunks;
              })
              keys chunks)

    fulfill-Settles :
        (inner : Inner linked Event) (batch : BatchRequest linked Event) (chunks : List Bytes)
        → Settles (fulfill linked Event inner batch chunks)
    unfolding fulfill Settles
    fulfill-Settles inner batch chunks = Settles-bind (assert _) _ (assert-Settles _) (λ u.
        Settles-bind (fulfill_chunks linked Event inner batch.batch_keys chunks) _
          (fulfill_chunks-Settles inner batch.batch_keys chunks) (λ i. tt))

    pub accept_response-Settles :
        (blake : Blake3) (inner : Inner linked Event) (f : Fetcher)
        (batch : BatchRequest linked Event) (chunks : List Bytes)
        → Settles (accept_response blake linked Event inner f batch chunks)
    unfolding accept_response Settles
    accept_response-Settles blake inner f batch chunks =
        Settles-bind (accept_chunks blake batch.batch_keys chunks f.local_cache) _
          (accept_chunks-Settles blake batch.batch_keys chunks f.local_cache)
          (λ local.
            Settles-bind (fulfill linked Event inner batch chunks) _
              (fulfill-Settles inner batch chunks) (λ r. tt))

    pub finish_wait-Settles :
        (inner : Inner linked Event) (events : List (ChunkKey × Event)) (out : ChunkMap)
        → Settles (finish_wait linked Event inner events out)
    unfolding finish_wait Settles
    finish_wait-Settles inner [] out = tt
    finish_wait-Settles inner ((key, event) ∷ events) out =
        Settles-bind (expect (Raw.get linked inner.raw_cache key).0) _ (expect-Settles _) (λ chunk.
          finish_wait-Settles (record inner { raw_cache = (Raw.get linked inner.raw_cache key).1 })
            events (HashMap.insert key chunk out))

    pending_events-Settles :
        (pending : HashMap Event) (keys : List ChunkKey)
        → Settles (pending_events linked Event pending keys)
    unfolding pending_events Settles
    pending_events-Settles pending [] = tt
    pending_events-Settles pending (key ∷ keys) =
        Settles-bind (expect (HashMap.get key pending)) _ (expect-Settles _) (λ event.
          Settles-bind (pending_events linked Event pending keys) _
            (pending_events-Settles pending keys) (λ rest. tt))

    pub begin_batch-Settles :
        (inner : Inner linked Event) (requested : List ChunkKey) (out : ChunkMap) (batch_size : ℕ)
        (event : Event)
        → Settles (begin_batch linked Event inner requested out batch_size event)
    unfolding begin_batch Settles
    begin_batch-Settles inner requested out batch_size event =
        elim (Bool-cases (is_empty s.0.batch)) [
          | inr some_batch ↦ rw some_batch tt
          | inl no_batch ↦ rw no_batch (
              Settles-bind (pending_events linked Event inner.pending_chunks s.1) _
                (pending_events-Settles inner.pending_chunks s.1)
                (λ events. elim (Bool-cases (is_empty events)) [
                  | inl nothing ↦ rw nothing tt
                  | inr something ↦ rw something tt
                ]))
        ]
      where
        s : Selection linked Event × List ChunkKey
        s =
            select_chunks linked Event inner.pending_chunks batch_size
              (start linked Event inner.pending_chunks batch_size inner.raw_cache out) requested
