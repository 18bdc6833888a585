-- ===== src/Cache/Batch/Begin.antt =====
-- common/src/chunk_cache.rs: `get_chunks_batched` up to its wait, and what becomes of each key.
use factory_cacher.Base.{
  ℕ, ◌≤◌, ◌<◌, ◌≡◌, refl, sym, ap, ◌⊎◌, inl, inr, true, List, [], ◌∷◌, length, is_empty, Outcome,
  ok, arith, Bool-cases, map, subst,
}
use factory_cacher.Base.HashMap
use factory_cacher.Base.HashMap.{HashMap}
use factory_cacher.Dedup.{ChunkKey, ChunkMap}
use factory_cacher.Extern.LinkedMap.{LinkedMap}
use factory_cacher.Cache.Raw.Lookup.{SameChunks}
use factory_cacher.Cache.Batch.Select.{In, start, Accounted}
use factory_cacher.Cache.Batch.{
  Inner, Selection, Progress, fetch, wait, done, select_chunks, mark_pending, begin_batch,
}
use factory_cacher.Cache.Batch.Requested.{
  SelectsAll, Accounted-earlier, select_chunks-SelectsAll, pending_events-ok,
}

is_empty→eq : (xs : List ChunkKey) → is_empty xs ≡ true → xs ≡ []
is_empty→eq [] h = refl
is_empty→eq (x ∷ xs) h = cc

-- The keys that the caller is to fetch, and those that it is to wait for.
abbrev pub fetched : {linked : LinkedMap} {Event : Type 0} → Progress linked Event → List ChunkKey
fetched (fetch r) = r.batch_keys
fetched _ = []

abbrev pub awaited : {linked : LinkedMap} {Event : Type 0} → Progress linked Event → List ChunkKey
awaited (wait events) = map (λ r. r.0) events
awaited _ = []

module _ (linked : LinkedMap) (Event : Type 0) where
  -- What a call has come to: it gave the cache, the keys still requested, the chunks found and how
  -- it goes on, and every requested key is accounted for.
  pub record Begins (inner : Inner linked Event) (requested : List ChunkKey) (batch_size : ℕ)
      (r : Outcome (Inner linked Event × List ChunkKey × ChunkMap × Progress linked Event))
      : Type 0 where
    pub inner' : Inner linked Event
    pub kept : List ChunkKey
    pub out : ChunkMap
    pub progress : Progress linked Event
    pub run : r ≡ ok (inner', kept, out, progress)
    pub accounted :
        (key : ChunkKey)
        → In key requested
        → Accounted linked Event inner.pending_chunks batch_size inner.raw_cache out
            (fetched progress)
            (In key kept ⊎ In key (awaited progress))
            key
    pub bounded : length (fetched progress) ≤ batch_size
    pub same : SameChunks linked inner.raw_cache inner'.raw_cache

  -- With room for one chunk in a batch, `get_chunks_batched` does not panic before it waits. Each
  -- requested chunk is put out if it is cached, or is in the batch to be fetched, or stays
  -- requested, or is waited for; the batch is within its size, and no chunk is evicted.
  pub begin_batch-Begins :
      (inner : Inner linked Event) (requested : List ChunkKey) (out : ChunkMap) (batch_size : ℕ)
      (event : Event)
      → 0 < batch_size
      → Begins inner requested batch_size
          (begin_batch linked Event inner requested out batch_size event)
  unfolding begin_batch
  begin_batch-Begins inner requested out batch_size event pos =
      elim (Bool-cases (is_empty s.batch)) [
        | inr some_batch ↦ record {
          inner' = record inner {
            raw_cache = s.raw_cache;
            pending_chunks = mark_pending linked Event event s.batch pending;
          };
          kept = r.1;
          out = s.chunks_out;
          progress = fetch (record { event = event; batch_keys = s.batch });
          run = rw some_batch refl;
          accounted = λ key h.
              relax s.batch (In key r.1) (In key r.1 ⊎ In key []) key inl (all.accounted key h);
          bounded = all.step.bounded (omega arith);
          same = all.step.same;
        }
        | inl no_batch ↦
            let (events, run, names) =
              pending_events-ok linked Event pending batch_size r.1
                (all_pending (is_empty→eq s.batch no_batch)) in
            let settled : (key : ChunkKey)
                → In key requested
                → Accounted linked Event pending batch_size inner.raw_cache s.chunks_out []
                    (In key r.1) key =
              λ key h.
                subst
                  (λ (b : List ChunkKey).
                    Accounted linked Event pending batch_size inner.raw_cache s.chunks_out b
                      (In key r.1) key)
                  (is_empty→eq s.batch no_batch) (all.accounted key h) in
            elim (Bool-cases (is_empty events)) [
              | inl nothing ↦ record {
                inner' = record inner { raw_cache = s.raw_cache };
                kept = [];
                out = s.chunks_out;
                progress = done;
                run = rw (no_batch, run, nothing) refl;
                accounted = λ key h.
                    relax [] (In key r.1) (In key [] ⊎ In key []) key
                      (λ k. absurd (none_kept events nothing names key k)) (settled key h);
                bounded = omega arith;
                same = all.step.same;
              }
              | inr something ↦ record {
                inner' = record inner { raw_cache = s.raw_cache };
                kept = [];
                out = s.chunks_out;
                progress = wait events;
                run = rw (no_batch, run, something) refl;
                accounted = λ key h.
                    relax [] (In key r.1) (In key [] ⊎ In key (map (λ e. e.0) events)) key
                      (λ k. inr (rw names k)) (settled key h);
                bounded = omega arith;
                same = all.step.same;
              }
            ]
      ]
    where
      pending : HashMap Event
      pending = inner.pending_chunks

      s0 : Selection linked Event
      s0 = start linked Event pending batch_size inner.raw_cache out

      r : Selection linked Event × List ChunkKey
      r = select_chunks linked Event pending batch_size s0 requested

      s : Selection linked Event
      s = r.0

      all : SelectsAll linked Event pending batch_size s0 requested r
      all = select_chunks-SelectsAll linked Event pending batch_size s0 requested (λ k h. h)

      relax :
          (batch : List ChunkKey) (A B : Type 0) (key : ChunkKey)
          → (A → B)
          → Accounted linked Event pending batch_size inner.raw_cache s.chunks_out batch A key
          → Accounted linked Event pending batch_size inner.raw_cache s.chunks_out batch B key
      relax batch A B key f =
          Accounted-earlier linked Event pending batch_size inner.raw_cache inner.raw_cache
            s.chunks_out batch A B key (λ j. refl) f

      all_pending :
          s.batch ≡ [] → (key : ChunkKey) → In key r.1 → HashMap.contains_key key pending ≡ true
      all_pending e key h = elim (all.waits key h) [
        | inl p ↦ p
        | inr full ↦ absurd (omega (arith, full, pos, ap length e))
      ]

      none_kept :
          (events : List (ChunkKey × Event))
          → is_empty events ≡ true
          → map (λ e. e.0) events ≡ r.1
          → (key : ChunkKey) → In key r.1
          → ⊥
      none_kept [] nothing names key h = subst (In key) (sym names) h
      none_kept (e ∷ events) nothing names key h = cc

  -- With room for one chunk in a batch, `get_chunks_batched` comes to its wait, or its end, with no
  -- panic. A requested chunk is put out if it is cached, or is in the batch to be fetched, or stays
  -- requested, or is waited for; the batch is within its size, and no chunk is evicted.
  pub begin_batch_lem :
      (inner : Inner linked Event) (requested : List ChunkKey) (out : ChunkMap) (batch_size : ℕ)
      (event : Event) (key : ChunkKey)
      → 0 < batch_size
      → In key requested
      → (inner' : Inner linked Event) × (kept : List ChunkKey) × (out' : ChunkMap)
        × (progress : Progress linked Event) × (begin_batch linked Event inner requested out
              batch_size event
            ≡ ok (inner', kept, out', progress))
        × Accounted linked Event inner.pending_chunks batch_size inner.raw_cache out'
            (fetched progress)
            (In key kept ⊎ In key (awaited progress))
            key
        × (length (fetched progress) ≤ batch_size)
        × SameChunks linked inner.raw_cache inner'.raw_cache
  begin_batch_lem inner requested out batch_size event key pos asked =
      let begins = begin_batch-Begins inner requested out batch_size event pos in
      (
        begins.inner',
        begins.kept,
        begins.out,
        begins.progress,
        begins.run,
        begins.accounted key asked,
        begins.bounded,
        begins.same,
      )
