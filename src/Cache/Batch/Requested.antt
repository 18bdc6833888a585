-- ===== src/Cache/Batch/Requested.antt =====
-- common/src/chunk_cache.rs: the requested keys of `get_chunks_batched`, one after the other, and the
-- events that it then waits for.
use factory_cacher.Base.{
  ℕ, ◌≤◌, ◌≡◌, refl, sym, ap, ◌∙◌, ◌⊎◌, inl, inr, Bool, true, false, some, List, [], ◌∷◌,
  if◌then◌else◌, length, ok, arith, Bool-cases, map, subst,
}
use factory_cacher.Base.HashMap
use factory_cacher.Base.HashMap.{HashMap}
use factory_cacher.Base.Words.{same_bytes}
use factory_cacher.Dedup.{ChunkKey, ChunkMap}
use factory_cacher.Extern.LinkedMap.{LinkedMap}
use factory_cacher.Cache.Raw.{RawCache}
use factory_cacher.Cache.Raw.Lookup.{SameChunks}
use factory_cacher.Cache.Batch.Select.{In, InStep, Accounted, Step, Selects, select_chunk-Selects}
use factory_cacher.Cache.Batch.{Selection, select_chunk, select_chunks, pending_events}

get-contains :
    {V : Type 0} (key : ChunkKey) (m : HashMap V)
    → HashMap.contains_key key m ≡ true
    → (v : V) × (HashMap.get key m ≡ some v)
unfolding HashMap.get HashMap.contains_key
get-contains key [] h = cc
get-contains key ((j, v) ∷ m) h = elim (Bool-cases (same_bytes j key)) [
  | inl same ↦ (v, rw same)
  | inr other ↦ let (w, there) = get-contains key m (ground arith) in (w, rw other there)
]

module _ (linked : LinkedMap) (Event : Type 0) (pending : HashMap Event) (batch_size : ℕ) where
  abbrev pub Sel : Type 0
  Sel = Selection linked Event

  -- What holds of a key at a later state, when it held at an earlier one.
  Accounted-later :
      (raw : RawCache linked) (s s' : Sel) (A B : Type 0) (key : ChunkKey)
      → SameChunks linked raw s.raw_cache
      → Step linked Event pending batch_size s s'
      → (A → B)
      → Accounted linked Event pending batch_size raw s.chunks_out s.batch A key
      → Accounted linked Event pending batch_size raw s'.chunks_out s'.batch B key
  Accounted-later raw s s' A B key same step f (inl (v, there, out)) =
      inl (v, there, step.out_kept key v (same key ∙ there) out)
  Accounted-later raw s s' A B key same step f (inr (inl h)) = inr (inl (step.batch_kept key h))
  Accounted-later raw s s' A B key same step f (inr (inr a)) = inr (inr (f a))

  Step-trans :
      (s t u : Sel)
      → Step linked Event pending batch_size s t
      → Step linked Event pending batch_size t u
      → Step linked Event pending batch_size s u
  Step-trans s t u p q = record {
    same = λ j. q.same j ∙ p.same j;
    in_step = q.in_step;
    longer = omega (arith, p.longer, q.longer);
    bounded = λ h. q.bounded (p.bounded h);
    batch_kept = λ k h. q.batch_kept k (p.batch_kept k h);
    out_kept = λ k v there h. q.out_kept k v (p.same k ∙ there) (p.out_kept k v there h);
  }

  pub record SelectsAll (s : Sel) (keys : List ChunkKey) (r : Sel × List ChunkKey) : Type 0 where
    pub step : Step linked Event pending batch_size s r.0
    pub accounted :
        (key : ChunkKey)
        → In key keys
        → Accounted linked Event pending batch_size s.raw_cache r.0.chunks_out r.0.batch
            (In key r.1)
            key
    pub waits :
        (key : ChunkKey)
        → In key r.1
        → (HashMap.contains_key key pending ≡ true) ⊎ (batch_size ≤ length r.0.batch)

  same-Step :
      (s : Sel)
      → InStep linked Event pending batch_size s
      → Step linked Event pending batch_size s s
  same-Step s inv = record {
    same = λ j. refl;
    in_step = inv;
    longer = omega arith;
    bounded = λ h. h;
    batch_kept = λ k h. h;
    out_kept = λ k v there h. h;
  }

  abbrev pub keep : Bool → ChunkKey → List ChunkKey → List ChunkKey
  keep retain key kept = if retain then key ∷ kept else kept

  In-keep :
      (retain : Bool) (key k : ChunkKey) (kept : List ChunkKey)
      → In k kept
      → In k (keep retain key kept)
  In-keep true key k kept h = inr h
  In-keep false key k kept h = h

  In-keep_self :
      (retain : Bool) (key : ChunkKey) (kept : List ChunkKey)
      → retain ≡ true
      → In key (keep retain key kept)
  In-keep_self true key kept h = inl refl
  In-keep_self false key kept h = cc

  In-keep_cases :
      (retain : Bool) (key k : ChunkKey) (kept : List ChunkKey)
      → In k (keep retain key kept)
      → ((retain ≡ true) × (k ≡ key)) ⊎ In k kept
  In-keep_cases true key k kept (inl e) = inl (refl, e)
  In-keep_cases true key k kept (inr h) = inr h
  In-keep_cases false key k kept h = inr h

  pub Accounted-earlier :
      (raw raw' : RawCache linked) (out : ChunkMap) (batch : List ChunkKey) (A B : Type 0)
      (key : ChunkKey)
      → SameChunks linked raw raw'
      → (A → B)
      → Accounted linked Event pending batch_size raw' out batch A key
      → Accounted linked Event pending batch_size raw out batch B key
  Accounted-earlier raw raw' out batch A B key same f (inl (v, there, put)) =
      inl (v, sym (same key) ∙ there, put)
  Accounted-earlier raw raw' out batch A B key same f (inr (inl h)) = inr (inl h)
  Accounted-earlier raw raw' out batch A B key same f (inr (inr a)) = inr (inr (f a))

  module _ (s : Sel) (key : ChunkKey) (keys : List ChunkKey) (r1 : Sel × Bool)
      (r2 : Sel × List ChunkKey) (one : Selects linked Event pending batch_size s key r1)
      (all : SelectsAll r1.0 keys r2) where
    settle :
        (k : ChunkKey)
        → In k (key ∷ keys)
        → Accounted linked Event pending batch_size s.raw_cache r2.0.chunks_out r2.0.batch
            (In k (keep r1.1 key r2.1))
            k
    settle k (inl e) =
        subst
          (λ (j : ChunkKey).
            Accounted linked Event pending batch_size s.raw_cache r2.0.chunks_out r2.0.batch
              (In j (keep r1.1 key r2.1)) j)
          (sym e)
          (Accounted-later s.raw_cache r1.0 r2.0 (r1.1 ≡ true) (In key (keep r1.1 key r2.1)) key
            one.step.same all.step (In-keep_self r1.1 key r2.1) one.accounted)
    settle k (inr h) =
        Accounted-earlier s.raw_cache r1.0.raw_cache r2.0.chunks_out r2.0.batch (In k r2.1)
          (In k (keep r1.1 key r2.1)) k one.step.same (In-keep r1.1 key k r2.1) (all.accounted k h)

    wait_cause :
        (k : ChunkKey)
        → In k (keep r1.1 key r2.1)
        → (HashMap.contains_key k pending ≡ true) ⊎ (batch_size ≤ length r2.0.batch)
    wait_cause k h = elim (In-keep_cases r1.1 key k r2.1 h) [
      | inr later ↦ all.waits k later
      | inl (kept, e) ↦ elim (one.waits kept) [
        | inl other ↦ inl (rw e other)
        | inr full ↦ inr (omega (arith, full, one.step.longer, all.step.longer))
      ]
    ]

    SelectsAll-cons : SelectsAll s (key ∷ keys) (r2.0, keep r1.1 key r2.1)
    SelectsAll-cons = record {
      step = Step-trans s r1.0 r2.0 one.step all.step;
      accounted = settle;
      waits = wait_cause;
    }

  pub select_chunks-SelectsAll :
      (s : Sel) (keys : List ChunkKey)
      → InStep linked Event pending batch_size s
      → SelectsAll s keys (select_chunks linked Event pending batch_size s keys)
  unfolding select_chunks
  select_chunks-SelectsAll s [] inv = record {
    step = same-Step s inv;
    accounted = λ key h. absurd h;
    waits = λ key h. absurd h;
  }
  select_chunks-SelectsAll s (key ∷ keys) inv =
      let one = select_chunk-Selects linked Event pending batch_size s key inv in
      let r1 = select_chunk linked Event pending batch_size s key in
      SelectsAll-cons s key keys r1 (select_chunks linked Event pending batch_size r1.0 keys) one
        (select_chunks-SelectsAll r1.0 keys one.step.in_step)

  abbrev pub waited_keys : List (ChunkKey × Event) → List ChunkKey
  waited_keys = map (λ r. r.0)

  -- No `expect` fails when every key is pending.
  pub pending_events-ok :
      (keys : List ChunkKey)
      → ((key : ChunkKey) → In key keys → HashMap.contains_key key pending ≡ true)
      → (events : List (ChunkKey × Event)) × (pending_events linked Event pending keys ≡ ok events)
        × (waited_keys events ≡ keys)
  unfolding pending_events
  pending_events-ok [] all = ([], refl, refl)
  pending_events-ok (key ∷ keys) all =
      let (event, there) = get-contains key pending (all key (inl refl)) in
      let (events, run, names) = pending_events-ok keys (λ k h. all k (inr h)) in
      ((key, event) ∷ events, rw (there, run), ap (◌∷◌ key) names)
