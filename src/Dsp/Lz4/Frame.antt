-- ===== src/Dsp/Lz4/Frame.antt =====
-- dsp-nebula-cacher/src/lz4_frame_encoder.rs: the encoder against a frame written down in one go.
use factory_cacher.Base.{
  ℕ, zero, suc, ◌-◌, ◌≤◌, ◌<◌, ◌≡◌, refl, sym, ap, ◌∙◌, min, Option, none, some, List, [], ◌∷◌,
  ◌++◌, leb, length, take, drop, is_empty, arith, concat, append_assoc, append-nil,
  take-append_front, drop-append_front, length-append, length-drop, length-take, Bool-cases, leb→le,
  true, false, eq-nil_of_length, inl, inr,
}
use native.Mathlib.Numerals.{unary_clauses}
use factory_cacher.Base.Words.{Bytes, le_bytes}
use factory_cacher.Extern.ByteBuf.{ByteBuf}
use factory_cacher.Extern.XxHash.{XxHash}
use factory_cacher.Dsp.Lz4.Spec.{
  blocks, blocks_within, body, frame, block-eq, body_lem, max_block_size-pos,
}
use factory_cacher.Dsp.Lz4.{
  Encoder, max_block_size, new, build_block, build_blocks, add_data, finish, send_fragments,
  emitted, send,
}

module _ {ℓ} {A : Type ℓ} where
  take-min : (n : ℕ) (xs : List A) → take (min n (length xs)) xs ≡ take n xs
  take-min zero xs = simp unary_clauses
  take-min (suc n) [] = simp unary_clauses
  take-min (suc n) (x ∷ xs) = simp unary_clauses (ap (◌∷◌ x) (take-min n xs))

  drop-min : (n : ℕ) (xs : List A) → drop (min n (length xs)) xs ≡ drop n xs
  drop-min zero xs = simp unary_clauses
  drop-min (suc n) [] = simp unary_clauses
  drop-min (suc n) (x ∷ xs) = simp unary_clauses (drop-min n xs)

length-take-min : (n : ℕ) (xs : Bytes) → min n (length xs) ≡ length (take n xs)
length-take-min n xs = sym (length-take n xs)

concat-send :
    (o : Option Bytes) (rest : List Bytes) → concat (send o rest) ≡ emitted o ++ concat rest
concat-send none rest = refl
concat-send (some f) rest = refl

is_empty→eq_nil : (xs : Bytes) → is_empty xs ≡ true → xs ≡ []
is_empty→eq_nil [] h = refl
is_empty→eq_nil (x ∷ xs) h = cc

not-is_empty→pos : (xs : Bytes) → is_empty xs ≡ false → 0 < length xs
not-is_empty→pos [] h = cc
not-is_empty→pos (x ∷ xs) h = omega arith

module _ (io : ByteBuf) (xx : XxHash) where
  -- What an encoder still has to give out when `bytes` are all that it is fed from now on.
  pub outstanding : Encoder xx.State → Bytes → Bytes
  outstanding e bytes = e.buffer ++ body xx e.content_hasher (e.pending_data ++ bytes)

  build_block_step :
      (e : Encoder xx.State) (bytes : Bytes)
      → 0 < length e.pending_data
      → take max_block_size (e.pending_data ++ bytes) ≡ take max_block_size e.pending_data
      → drop max_block_size (e.pending_data ++ bytes) ≡ drop max_block_size e.pending_data ++ bytes
      → outstanding (build_block io xx e) bytes ≡ outstanding e bytes
  unfolding build_block outstanding
  build_block_step e bytes pos front back =
      rw
        (
          take-min max_block_size e.pending_data,
          drop-min max_block_size e.pending_data,
          io.put_le_lem,
          length-take-min,
          ← back,
          ← front,
          body_lem xx e.content_hasher (e.pending_data ++ bytes)
              (omega (arith, length-append e.pending_data bytes)),
          block-eq,
        )
        (simp append_assoc)

  build_block_full :
      (e : Encoder xx.State) (bytes : Bytes)
      → max_block_size ≤ length e.pending_data
      → outstanding (build_block io xx e) bytes ≡ outstanding e bytes
  build_block_full e bytes h =
      build_block_step e bytes (omega (arith, max_block_size-pos))
        (take-append_front max_block_size e.pending_data bytes h)
        (drop-append_front max_block_size e.pending_data bytes h)

  length-build_block :
      (e : Encoder xx.State)
      → length (build_block io xx e).pending_data ≡ length e.pending_data - max_block_size
  unfolding build_block
  length-build_block e =
      omega (arith, length-drop (min max_block_size (length e.pending_data)) e.pending_data)

  -- The loop gives out nothing else than what was outstanding, and stops below a full block.
  build_blocks_lem :
      (fuel : ℕ) (e : Encoder xx.State) (bytes : Bytes)
      → length e.pending_data ≤ fuel
      → (outstanding (build_blocks io xx fuel e) bytes ≡ outstanding e bytes)
        × (length (build_blocks io xx fuel e).pending_data < max_block_size)
  unfolding build_blocks
  build_blocks_lem zero e bytes h = (refl, omega (arith, max_block_size-pos))
  build_blocks_lem (suc fuel) e bytes h =
      elim (Bool-cases (leb max_block_size (length e.pending_data))) [
        | inl full ↦
            let (same, small) =
              build_blocks_lem fuel (build_block io xx e) bytes
                (omega (arith, length-build_block e, max_block_size-pos)) in
            rw full (same ∙ build_block_full e bytes (leb→le _ _ full), small)
        | inr small ↦ rw small (refl, ground arith)
      ]

  -- `add_data` gives out a part of what is outstanding, and leaves less than a full block pending.
  pub add_data_lem :
      (e : Encoder xx.State) (chunk bytes : Bytes)
      → (emitted (add_data io xx e chunk).1 ++ outstanding (add_data io xx e chunk).0 bytes
          ≡ outstanding e (chunk ++ bytes))
        × (length (add_data io xx e chunk).0.pending_data < max_block_size)
  unfolding add_data outstanding
  add_data_lem e chunk bytes =
      let e1 = record e { pending_data = e.pending_data ++ chunk } in
      let regroup : outstanding e1 bytes ≡ outstanding e (chunk ++ bytes) =
        ap (λ (t : Bytes). e.buffer ++ body xx e.content_hasher t)
          (append_assoc e.pending_data chunk bytes) in
      elim (Bool-cases (leb max_block_size (length (e.pending_data ++ chunk)))) [
        | inl full ↦
            let (same, small) =
              build_blocks_lem (length (e.pending_data ++ chunk)) e1 bytes (omega arith) in
            rw full (same ∙ regroup, small)
        | inr small ↦ rw small (regroup, ground arith)
      ]

  -- The end mark and the checksum are all that is outstanding once nothing is pending.
  outstanding_empty :
      (e : Encoder xx.State)
      → e.pending_data ≡ []
      → io.put_le 4 (xx.finish_32 e.content_hasher) (io.put_le 4 0 e.buffer) ≡ outstanding e []
  unfolding outstanding body blocks blocks_within
  outstanding_empty e none_left =
      rw (none_left, xx.write-nil e.content_hasher, io.put_le_lem, io.put_le_lem)
        (simp append_assoc)

  finish_lem :
      (e : Encoder xx.State)
      → length e.pending_data < max_block_size
      → finish io xx e ≡ outstanding e []
  unfolding finish
  finish_lem e h = elim (Bool-cases (is_empty e.pending_data)) [
    | inl done ↦ rw (done, finish) (outstanding_empty e (is_empty→eq_nil e.pending_data done))
    | inr more ↦
        rw (more, finish)
          (outstanding_empty (build_block io xx e)
              (eq-nil_of_length _ (omega (arith, length-build_block e)))
            ∙ build_block_step e [] (not-is_empty→pos e.pending_data more)
                (ap (take max_block_size) (append-nil e.pending_data))
                (ap (drop max_block_size) (append-nil e.pending_data)
                  ∙ sym (append-nil (drop max_block_size e.pending_data))))
  ]

  -- Whatever the chunks, the fragments add up to what one frame over all the data is.
  pub send_fragments-outstanding :
      (e : Encoder xx.State) (chunks : List Bytes)
      → length e.pending_data < max_block_size
      → concat (send_fragments io xx e chunks) ≡ outstanding e (concat chunks)
  unfolding send_fragments
  send_fragments-outstanding e [] h = append-nil _ ∙ finish_lem e h
  send_fragments-outstanding e (chunk ∷ chunks) h =
      let (same, small) = add_data_lem e chunk (concat chunks) in
      let rest = send_fragments-outstanding (add_data io xx e chunk).0 chunks small in
      concat-send (add_data io xx e chunk).1 _
      ∙ ap (◌++◌ (emitted (add_data io xx e chunk).1)) rest
      ∙ same

  new_pending : length (new io xx).pending_data < max_block_size
  unfolding new
  new_pending = max_block_size-pos

  new_outstanding : (bytes : Bytes) → outstanding (new io xx) bytes ≡ frame xx bytes
  unfolding new frame outstanding le_bytes
  new_outstanding bytes = rw (io.put_le_lem, io.put_le_lem, io.put_le_lem, io.put_le_lem) refl

  -- However the data is cut into chunks, the fragments that are sent for them, one after the
  -- other, are the frame over all of the data.
  pub send_fragments-frame :
      (chunks : List Bytes)
      → concat (send_fragments io xx (new io xx) chunks) ≡ frame xx (concat chunks)
  send_fragments-frame chunks =
      send_fragments-outstanding (new io xx) chunks new_pending ∙ new_outstanding (concat chunks)
