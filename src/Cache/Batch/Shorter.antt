-- ===== src/Cache/Batch/Shorter.antt =====
-- common/src/chunk_cache.rs: each call of `get_chunks_batched` takes keys off those that are
-- requested.
use factory_cacher.Base.{
  ℕ, suc, ◌+◌, ◌≤◌, ◌<◌, ◌≡◌, inl, inr, Bool, true, false, not, ◌&&◌, List, [], ◌∷◌, ltb, is_empty,
  if◌then◌else◌, length, length-append, Outcome, ok, err, panic, stuck, ◌>>=◌, arith, Bool-cases,
  Option-cases,
}
use factory_cacher.Base.HashMap
use factory_cacher.Base.HashMap.{HashMap}
use factory_cacher.Dedup.{ChunkKey, ChunkMap}
use factory_cacher.Extern.LinkedMap.{LinkedMap}
use factory_cacher.Cache.Raw
use factory_cacher.Cache.Batch.{
  Inner, Selection, add_to_batch, select_chunk, select_chunks, pending_events, contains,
  begin_batch,
}
use factory_cacher.Cache.Batch.Select.{select_hit, select_miss, stored, start}

-- What holds of the value of a call, if it has one.
unfoldable pub IfOk {ℓ} : {A : Type ℓ} → (A → Type 0) → Outcome A → Type 0
IfOk P (ok a) = P a
IfOk P (err e) = Unit
IfOk P panic = Unit
IfOk P stuck = Unit

pub IfOk-bind {ℓ} :
    {A B : Type ℓ} (P : A → Type 0) (Q : B → Type 0) (m : Outcome A) (f : A → Outcome B)
    → IfOk P m
    → ((a : A) → P a → IfOk Q (f a))
    → IfOk Q (m >>= f)
unfolding IfOk
IfOk-bind P Q (ok a) f p h = h a p
IfOk-bind P Q (err e) f p h = tt
IfOk-bind P Q panic f p h = tt
IfOk-bind P Q stuck f p h = tt

pub IfOk-any {ℓ} : {A : Type ℓ} (m : Outcome A) → IfOk (λ a. Unit) m
unfolding IfOk
IfOk-any (ok a) = tt
IfOk-any (err e) = tt
IfOk-any panic = tt
IfOk-any stuck = tt

pub not_empty→pos {ℓ} : {A : Type ℓ} (xs : List A) → is_empty xs ≡ false → 0 < length xs
not_empty→pos (x ∷ xs) h = omega arith
not_empty→pos [] h = cc

module _ (linked : LinkedMap) (Event : Type 0) (pending : HashMap Event) (batch_size : ℕ) where
  abbrev Sel : Type 0
  Sel = Selection linked Event

  abbrev one_if : Bool → ℕ
  one_if b = if b then 1 else 0

  add_to_batch-length :
      (s : Sel) (key : ChunkKey)
      → length (add_to_batch linked Event s key).batch ≤ suc (length s.batch)
  unfolding add_to_batch
  add_to_batch-length s key = elim (Bool-cases (contains s.batch_set key)) [
    | inl there ↦ rw there (omega arith)
    | inr other ↦ rw other (omega (arith, length-append s.batch (key ∷ [])))
  ]

  select_chunk-shorter :
      (s : Sel) (key : ChunkKey)
      → (let r = select_chunk linked Event pending batch_size s key in
          one_if r.1 + length r.0.batch ≤ suc (length s.batch))
  select_chunk-shorter s key = elim (Option-cases (stored linked Event pending batch_size s key)) [
    | inr (chunk, hit) ↦
        rw (select_hit linked Event pending batch_size s key chunk hit) (omega arith)
    | inl miss ↦
        rw (select_miss linked Event pending batch_size s key miss)
          (elim (Bool-cases
            (not (HashMap.contains_key key pending) && ltb (length s.batch) batch_size)) [
              | inl room ↦
                  let s1 : Sel = record s { raw_cache = (Raw.get linked s.raw_cache key).1 } in
                  rw room (omega (arith, add_to_batch-length s1 key))
              | inr none_left ↦ rw none_left (omega arith)
            ])
  ]

  length-keep :
      (retain : Bool) (key : ChunkKey) (kept : List ChunkKey)
      → length (if retain then key ∷ kept else kept) ≡ one_if retain + length kept
  length-keep true key kept = omega arith
  length-keep false key kept = omega arith

  select_chunks-shorter :
      (s : Sel) (keys : List ChunkKey)
      → (let r = select_chunks linked Event pending batch_size s keys in
          length r.1 + length r.0.batch ≤ length s.batch + length keys)
  unfolding select_chunks
  select_chunks-shorter s [] = omega arith
  select_chunks-shorter s (key ∷ keys) =
      let r = select_chunk linked Event pending batch_size s key in
      let rest = select_chunks linked Event pending batch_size r.0 keys in
      omega (
        arith,
        select_chunk-shorter s key,
        select_chunks-shorter r.0 keys,
        length-keep r.1 key rest.1,
      )

module _ (linked : LinkedMap) (Event : Type 0) where
  -- A call that has keys to ask for leaves fewer of them.
  pub begin_batch-shorter :
      (inner : Inner linked Event) (requested : List ChunkKey) (out : ChunkMap) (batch_size : ℕ)
      (event : Event)
      → is_empty requested ≡ false
      → IfOk
          (λ r. length r.1 < length requested)
          (begin_batch linked Event inner requested out batch_size event)
  unfolding begin_batch IfOk
  begin_batch-shorter inner requested out batch_size event some_key =
      elim (Bool-cases (is_empty s1.batch)) [
        | inr some_batch ↦ rw some_batch (
            omega (
              arith,
              select_chunks-shorter linked Event inner.pending_chunks batch_size s0 requested,
              not_empty→pos s1.batch some_batch,
            ))
        | inl no_batch ↦ rw no_batch (
            IfOk-bind (λ events. Unit) (λ r. length r.1 < length requested)
              (pending_events linked Event inner.pending_chunks kept) _
              (IfOk-any (pending_events linked Event inner.pending_chunks kept))
              (λ events h. elim (Bool-cases (is_empty events)) [
                | inl nothing ↦ rw nothing (not_empty→pos requested some_key)
                | inr something ↦ rw something (not_empty→pos requested some_key)
              ]))
      ]
    where
      s0 : Selection linked Event
      s0 = start linked Event inner.pending_chunks batch_size inner.raw_cache out

      s1 : Selection linked Event
      s1 = (select_chunks linked Event inner.pending_chunks batch_size s0 requested).0

      kept : List ChunkKey
      kept = (select_chunks linked Event inner.pending_chunks batch_size s0 requested).1
