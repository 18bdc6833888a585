-- ===== src/Message/Batch/Ends.antt =====
-- common/src/protocol_utils.rs: the turns of the loop of `get_chunk`.
use factory_cacher.Base.{
  ℕ, zero, suc, ◌<◌, ◌≡◌, refl, inl, inr, List, [], is_empty, length, ◌++◌, Outcome, ok, err, panic,
  stuck, ◌>>=◌, false, arith, Bool-cases, Option-cases,
}
use factory_cacher.Base.HashMap
use factory_cacher.Base.Words.{Bytes}
use factory_cacher.Cache.Batch.{
  Inner, BatchRequest, Progress, fetch, wait, done, finish_wait, fulfill,
}
use factory_cacher.Cache.Batch.Shorter.{IfOk, IfOk-bind, IfOk-any, begin_batch-shorter}
use factory_cacher.Dedup.{ChunkKey}
use factory_cacher.Extern.Blake3.{Blake3}
use factory_cacher.Extern.LinkedMap.{LinkedMap}
use factory_cacher.Message.{Fetcher, read_message, write_message, accept_response, accept_chunks}
use factory_cacher.Message.Batch.Settles.{Settles}
use factory_cacher.Message.Batch.{Task, Transport, fetch_batch, go_on, fetch_chunk_batch, get_chunk}

IfOk-then {ℓ} :
    {A B : Type ℓ} (Q : B → Type 0) (m : Outcome A) (f : A → Outcome B)
    → ((a : A) → IfOk Q (f a))
    → IfOk Q (m >>= f)
IfOk-then Q m f h = IfOk-bind (λ a. Unit) Q m f (IfOk-any m) (λ a u. h a)

IfOk-map {ℓ} :
    {A : Type ℓ} (P Q : A → Type 0) (m : Outcome A) → ((a : A) → P a → Q a) → IfOk P m → IfOk Q m
unfolding IfOk
IfOk-map P Q (ok a) f p = f a p
IfOk-map P Q (err e) f p = tt
IfOk-map P Q panic f p = tt
IfOk-map P Q stuck f p = tt

-- What follows a call need only agree on the values that it can give.
bind-same {ℓ} :
    {A B : Type ℓ} (P : A → Type 0) (m : Outcome A) (f g : A → Outcome B)
    → IfOk P m
    → ((a : A) → P a → f a ≡ g a)
    → (m >>= f) ≡ (m >>= g)
unfolding IfOk
bind-same P (ok a) f g p h = h a p
bind-same P (err e) f g p h = refl
bind-same P panic f g p h = refl
bind-same P stuck f g p h = refl

module _ (linked : LinkedMap) (Event : Type 0) (blake : Blake3) where
  accept_response-pending :
      (inner : Inner linked Event) (f : Fetcher) (batch : BatchRequest linked Event)
      (chunks : List Bytes)
      → IfOk
          (λ r. r.2.pending_chunks ≡ f.pending_chunks)
          (accept_response blake linked Event inner f batch chunks)
  unfolding accept_response IfOk
  accept_response-pending inner f batch chunks =
      IfOk-then (λ r. r.2.pending_chunks ≡ f.pending_chunks)
        (accept_chunks blake batch.batch_keys chunks f.local_cache) _
        (λ local.
          IfOk-then (λ r. r.2.pending_chunks ≡ f.pending_chunks)
            (fulfill linked Event inner batch chunks) _ (λ r. refl))

  module _ (transport : Transport) (meanwhile : Inner linked Event → Inner linked Event)
      (peer : Bytes → Bytes) (event : Event) where
    abbrev Same : List ChunkKey → Task linked Event → Type 0
    Same pending t' = t'.fetcher.pending_chunks ≡ pending

    fetch_batch-pending :
        (t : Task linked Event) (batch : BatchRequest linked Event)
        → IfOk
            (Same t.fetcher.pending_chunks)
            (fetch_batch linked Event blake transport meanwhile peer event t batch)
    unfolding fetch_batch IfOk
    fetch_batch-pending t batch =
        IfOk-then (Same t.fetcher.pending_chunks) (transport.encode_request batch.batch_keys) _
          (λ request.
            IfOk-then (Same t.fetcher.pending_chunks) (write_message [] request) _ (λ written.
              IfOk-then (Same t.fetcher.pending_chunks) (read_message (t.input ++ peer written)) _
                (λ response.
                  IfOk-then (Same t.fetcher.pending_chunks) (transport.decode_response response.0) _
                    (λ chunks.
                      IfOk-bind (λ r. r.2.pending_chunks ≡ t.fetcher.pending_chunks)
                        (Same t.fetcher.pending_chunks) _ _
                        (accept_response-pending (meanwhile t.inner) _ batch chunks)
                        (λ r same. same)))))

    go_on-pending :
        (t : Task linked Event) (progress : Progress linked Event)
        → IfOk
            (Same t.fetcher.pending_chunks)
            (go_on linked Event blake transport meanwhile peer event t progress)
    unfolding go_on IfOk
    go_on-pending t (fetch batch) = fetch_batch-pending t batch
    go_on-pending t (wait events) =
        IfOk-then (Same t.fetcher.pending_chunks)
          (finish_wait linked Event (meanwhile t.inner) events t.fetcher.local_cache) _ (λ r. refl)
    go_on-pending t done = refl

    fetch_chunk_batch-shorter :
        (t : Task linked Event)
        → is_empty t.fetcher.pending_chunks ≡ false
        → IfOk
            (λ t'. length t'.fetcher.pending_chunks < length t.fetcher.pending_chunks)
            (fetch_chunk_batch linked Event blake transport meanwhile peer event t)
    unfolding fetch_chunk_batch
    fetch_chunk_batch-shorter t some_key =
        IfOk-bind (λ r. length r.1 < length t.fetcher.pending_chunks)
          (λ t'. length t'.fetcher.pending_chunks < length t.fetcher.pending_chunks) _ _
          (begin_batch-shorter linked Event t.inner t.fetcher.pending_chunks t.fetcher.local_cache
            512 event some_key)
          (λ r less.
            let t1 : Task linked Event = record t {
              inner = r.0;
              fetcher = record t.fetcher { pending_chunks = r.1; local_cache = r.2 };
            } in
            IfOk-map (Same r.1)
              (λ t'. length t'.fetcher.pending_chunks < length t.fetcher.pending_chunks) _
              (λ t' same. rw same less) (go_on-pending t1 r.3))

    -- The loop of `get_chunk` ends after as many turns as keys are pending, and one: with more fuel
    -- than there are keys it comes to the same, whatever the fuel, the other side and the other
    -- tasks are.
    pub get_chunk-fuel :
        (fuel fuel' : ℕ) (key : ChunkKey) (t : Task linked Event)
        → length t.fetcher.pending_chunks < fuel
        → length t.fetcher.pending_chunks < fuel'
        → get_chunk linked Event blake transport meanwhile peer event fuel key t
          ≡ get_chunk linked Event blake transport meanwhile peer event fuel' key t
    unfolding get_chunk
    get_chunk-fuel zero fuel' key t enough enough' = absurd (omega arith)
    get_chunk-fuel (suc fuel) zero key t enough enough' = absurd (omega arith)
    get_chunk-fuel (suc fuel) (suc fuel') key t enough enough' =
        elim (Option-cases (HashMap.get key t.fetcher.local_cache)) [
          | inr (chunk, there) ↦ rw (get_chunk, there) refl
          | inl absent ↦ elim (Bool-cases (is_empty t.fetcher.pending_chunks)) [
            | inl nothing ↦ rw (get_chunk, absent, nothing) refl
            | inr some_key ↦
                rw (get_chunk, absent, some_key)
                  (bind-same
                    (λ t'. length t'.fetcher.pending_chunks < length t.fetcher.pending_chunks)
                    (fetch_chunk_batch linked Event blake transport meanwhile peer event t) _ _
                    (fetch_chunk_batch-shorter t some_key)
                    (λ t' less. get_chunk-fuel fuel fuel' key t' (omega arith) (omega arith)))
          ]
        ]
