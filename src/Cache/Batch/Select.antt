-- ===== src/Cache/Batch/Select.antt =====
-- common/src/chunk_cache.rs: what `get_chunks_batched` does with each requested key before it waits.
use factory_cacher.Base.{
  ℕ, ◌≤◌, ◌<◌, ◌≡◌, refl, sym, ap, ◌∙◌, ◌⊎◌, inl, inr, Bool, true, false, not, ◌&&◌, Option, none,
  some, some-injective, List, [], ◌∷◌, ◌++◌, ltb, ltb→lt, if◌then◌else◌, length, arith, Bool-cases,
  Option-cases, length-append,
}
use factory_cacher.Base.HashMap
use factory_cacher.Base.HashMap.{HashMap}
use factory_cacher.Base.Words.{Bytes, same_bytes, same_bytes_refl, same_bytes→eq}
use factory_cacher.Dedup.{ChunkKey, ChunkMap}
use factory_cacher.Extern.LinkedMap.{LinkedMap}
use factory_cacher.Cache.Raw
use factory_cacher.Cache.Raw.{RawCache}
use factory_cacher.Cache.Raw.Lookup.{SameChunks, get-SameChunks, get-found}
use factory_cacher.Cache.Raw.Eviction.{entries_of}
use factory_cacher.Cache.Batch.{Selection, contains, add_to_batch, select_chunk}

-- The key is in the list.
abbrev pub In : ChunkKey → List ChunkKey → Type 0
In key [] = ⊥
In key (k ∷ keys) = (key ≡ k) ⊎ In key keys

In-append_left : (key : ChunkKey) (xs ys : List ChunkKey) → In key xs → In key (xs ++ ys)
In-append_left key [] ys h = absurd h
In-append_left key (x ∷ xs) ys (inl e) = inl e
In-append_left key (x ∷ xs) ys (inr h) = inr (In-append_left key xs ys h)

In-append_last : (key : ChunkKey) (xs : List ChunkKey) → In key (xs ++ key ∷ [])
In-append_last key [] = inl refl
In-append_last key (x ∷ xs) = inr (In-append_last key xs)

In-contains : (key : ChunkKey) (keys : List ChunkKey) → contains keys key ≡ true → In key keys
unfolding contains
In-contains key [] h = cc
In-contains key (k ∷ keys) h = elim (Bool-cases (same_bytes k key)) [
  | inl same ↦ inl (sym (same_bytes→eq k key same))
  | inr other ↦ inr (In-contains key keys (ground arith))
]

module _ (linked : LinkedMap) (Event : Type 0) (pending : HashMap Event) (batch_size : ℕ) where
  abbrev pub stored : Selection linked Event → ChunkKey → Option Bytes
  stored s key = HashMap.get key (entries_of linked s.raw_cache)

  abbrev pub start : RawCache linked → ChunkMap → Selection linked Event
  start raw out = record { raw_cache = raw; chunks_out = out; batch_set = []; batch = [] }

  -- The three ways of the closure.
  pub select_hit :
      (s : Selection linked Event) (key : ChunkKey) (chunk : Bytes)
      → stored s key ≡ some chunk
      → select_chunk linked Event pending batch_size s key ≡ (
        record s {
          raw_cache = (Raw.get linked s.raw_cache key).1;
          chunks_out = HashMap.insert key chunk s.chunks_out;
        },
        false,
      )
  unfolding select_chunk
  select_hit s key chunk hit = rw (get-found linked s.raw_cache key, hit, select_chunk)

  pub select_miss :
      (s : Selection linked Event) (key : ChunkKey)
      → stored s key ≡ none
      → select_chunk linked Event pending batch_size s key ≡ (
          let s1 : Selection linked Event = record s {
            raw_cache = (Raw.get linked s.raw_cache key).1;
          } in
          if not (HashMap.contains_key key pending) && ltb (length s.batch) batch_size
          then (add_to_batch linked Event s1 key, false)
          else (s1, true))
  unfolding select_chunk
  select_miss s key miss = rw (get-found linked s.raw_cache key, miss, select_chunk)

  -- The set holds only keys of the batch.
  abbrev pub InStep : Selection linked Event → Type 0
  InStep s = (k : ChunkKey) → In k s.batch_set → In k s.batch

  -- What a key comes to: its chunk is put out, it is in the batch, or it stays requested.
  abbrev pub Accounted : RawCache linked → ChunkMap → List ChunkKey → Type 0 → ChunkKey → Type 0
  Accounted raw out batch Kept key =
      ((v : Bytes) × (HashMap.get key (entries_of linked raw) ≡ some v)
        × (HashMap.get key out ≡ some v))
      ⊎ In key batch
      ⊎ Kept

  pub record Step (s s' : Selection linked Event) : Type 0 where
    pub same : SameChunks linked s.raw_cache s'.raw_cache
    pub in_step : InStep s'
    pub longer : length s.batch ≤ length s'.batch
    pub bounded : length s.batch ≤ batch_size → length s'.batch ≤ batch_size
    pub batch_kept : (k : ChunkKey) → In k s.batch → In k s'.batch
    pub out_kept :
        (k : ChunkKey) (v : Bytes)
        → stored s k ≡ some v
        → HashMap.get k s.chunks_out ≡ some v
        → HashMap.get k s'.chunks_out ≡ some v

  pub record Selects (s : Selection linked Event) (key : ChunkKey)
      (r : Selection linked Event × Bool) : Type 0 where
    pub step : Step s r.0
    pub accounted : Accounted s.raw_cache r.0.chunks_out r.0.batch (r.1 ≡ true) key
    pub waits :
        r.1 ≡ true → (HashMap.contains_key key pending ≡ true) ⊎ (batch_size ≤ length s.batch)

  get-insert :
      (j k : ChunkKey) (v w : Bytes) (m : ChunkMap)
      → (j ≡ k → v ≡ w)
      → HashMap.get j m ≡ some v
      → HashMap.get j (HashMap.insert k w m) ≡ some v
  unfolding HashMap.get
  get-insert j k v w m agree h = elim (Bool-cases (same_bytes k j)) [
    | inl same ↦ rw same (ap some (sym (agree (sym (same_bytes→eq k j same)))))
    | inr other ↦ rw other h
  ]

  get-insert_self :
      (k : ChunkKey) (v : Bytes) (m : ChunkMap) → HashMap.get k (HashMap.insert k v m) ≡ some v
  unfolding HashMap.get
  get-insert_self k v m = rw (same_bytes_refl k)

  hit-Selects :
      (s : Selection linked Event) (key : ChunkKey) (chunk : Bytes)
      → stored s key ≡ some chunk
      → InStep s
      → Selects s key (select_chunk linked Event pending batch_size s key)
  hit-Selects s key chunk hit inv = rw (select_hit s key chunk hit) (record {
    step = record {
      same = get-SameChunks linked s.raw_cache key;
      in_step = inv;
      longer = omega arith;
      bounded = λ h. h;
      batch_kept = λ k h. h;
      out_kept = λ k v there h.
          get-insert k key v chunk s.chunks_out (λ e. some-injective v chunk (sym there ∙ rw e hit))
            h;
    };
    accounted = inl (chunk, hit, get-insert_self key chunk s.chunks_out);
    waits = λ e. cc;
  })

  add_to_batch-Step :
      (s : Selection linked Event) (raw : RawCache linked) (key : ChunkKey)
      → SameChunks linked s.raw_cache raw
      → InStep s
      → length s.batch < batch_size
      → Step s (add_to_batch linked Event (record s { raw_cache = raw }) key)
        × In key (add_to_batch linked Event (record s { raw_cache = raw }) key).batch
  unfolding add_to_batch
  add_to_batch-Step s raw key same inv room = elim (Bool-cases (contains s.batch_set key)) [
    | inl old ↦ rw old (
      record {
        same = same;
        in_step = inv;
        longer = omega arith;
        bounded = λ h. h;
        batch_kept = λ k h. h;
        out_kept = λ k v there h. h;
      },
      inv key (In-contains key s.batch_set old),
    )
    | inr new ↦ rw new (
      record {
        same = same;
        in_step = λ k h. pushed k h;
        longer = omega (arith, length-append s.batch (key ∷ []));
        bounded = λ h. omega (arith, length-append s.batch (key ∷ []));
        batch_kept = λ k h. In-append_left k s.batch (key ∷ []) h;
        out_kept = λ k v there h. h;
      },
      In-append_last key s.batch,
    )
  ]
    where
      pushed : (k : ChunkKey) → In k (key ∷ s.batch_set) → In k (s.batch ++ key ∷ [])
      pushed k (inl e) = rw e (In-append_last key s.batch)
      pushed k (inr h) = In-append_left k s.batch (key ∷ []) (inv k h)

  keep-Step :
      (s : Selection linked Event) (raw : RawCache linked)
      → SameChunks linked s.raw_cache raw
      → InStep s
      → Step s (record s { raw_cache = raw })
  keep-Step s raw same inv = record {
    same = same;
    in_step = inv;
    longer = omega arith;
    bounded = λ h. h;
    batch_kept = λ k h. h;
    out_kept = λ k v there h. h;
  }

  miss-Selects :
      (s : Selection linked Event) (key : ChunkKey)
      → stored s key ≡ none
      → InStep s
      → Selects s key (select_chunk linked Event pending batch_size s key)
  miss-Selects s key miss inv =
      rw (select_miss s key miss) (elim (Bool-cases (HashMap.contains_key key pending)) [
        | inl other ↦ rw other (record {
          step = keep-Step s raw same inv;
          accounted = inr (inr refl);
          waits = λ e. inl other;
        })
        | inr free ↦ elim (Bool-cases (ltb (length s.batch) batch_size)) [
          | inl room ↦
              rw (free, room)
                (let (step, taken) = add_to_batch-Step s raw key same inv (ltb→lt _ _ room) in
                  record { step = step; accounted = inr (inl taken); waits = λ e. cc })
          | inr full ↦
              rw (free, full)
                (record {
                  step = keep-Step s raw same inv;
                  accounted = inr (inr refl);
                  waits = λ e. inr (ground arith);
                })
        ]
      ])
    where
      raw : RawCache linked
      raw = (Raw.get linked s.raw_cache key).1

      same : SameChunks linked s.raw_cache raw
      same = get-SameChunks linked s.raw_cache key

  -- Each key is accounted for, and only keys that are pending, or too many for the batch, wait.
  pub select_chunk-Selects :
      (s : Selection linked Event) (key : ChunkKey)
      → InStep s
      → Selects s key (select_chunk linked Event pending batch_size s key)
  select_chunk-Selects s key inv = elim (Option-cases (stored s key)) [
    | inl miss ↦ miss-Selects s key miss inv
    | inr (chunk, hit) ↦ hit-Selects s key chunk hit inv
  ]
