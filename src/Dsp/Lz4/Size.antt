-- ===== src/Dsp/Lz4/Size.antt =====
-- dsp-nebula-cacher/src/lz4_frame_encoder.rs: the size that is announced before the frame is sent.
use factory_cacher.Base.{
  ℕ, zero, suc, ◌+◌, ◌*◌, ◌/◌, ◌^◌, ◌≤◌, ◌<◌, ◌≡◌, refl, sym, ap, ◌∙◌, List, [], ◌∷◌, ◌++◌, length,
  take, drop, arith, concat, length-append, length-drop, length-take,
}
use factory_cacher.Base.Words.{Bytes, le_bytes, length-le_bytes}
use factory_cacher.Extern.ByteBuf.{ByteBuf}
use factory_cacher.Extern.XxHash.{XxHash}
use factory_cacher.Dsp.Lz4.{max_block_size, framed_size, send_fragments, new}
use factory_cacher.Dsp.Lz4.Frame.{send_fragments-frame}
use factory_cacher.Dsp.Lz4.Spec.{max_block_size-eq, block, blocks, blocks_within, body, frame}

length-block : (bytes : Bytes) → length (block bytes) ≡ 4 + length bytes
unfolding block
length-block bytes = omega (arith, length-append (le_bytes 4 _) bytes, length-le_bytes 4 _)

-- Each block adds 4 bytes to its contents.
length-blocks_within :
    (fuel : ℕ) (bytes : Bytes)
    → length bytes ≤ fuel
    → length (blocks_within fuel bytes) ≡ (length bytes + 63_999) / 64_000 * 4 + length bytes
unfolding blocks_within
length-blocks_within zero [] h = refl
length-blocks_within zero (b ∷ bs) h = absurd (omega arith)
length-blocks_within (suc fuel) [] h = refl
length-blocks_within (suc fuel) (b ∷ bs) h =
    let front = take max_block_size (b ∷ bs) in
    let back = drop max_block_size (b ∷ bs) in
    omega (
      arith,
      max_block_size-eq,
      length-append (block front) (blocks_within fuel back),
      length-block front,
      length-take max_block_size (b ∷ bs),
      length-drop max_block_size (b ∷ bs),
      length-blocks_within fuel back
          (omega (arith, max_block_size-eq, length-drop max_block_size (b ∷ bs))),
    )

length-body :
    (xx : XxHash) (h : xx.State) (bytes : Bytes)
    → length (body xx h bytes) ≡ (length bytes + 63_999) / 64_000 * 4 + length bytes + 8
unfolding body blocks
length-body xx h bytes =
    let front = blocks_within (length bytes) bytes in
    omega (
      arith,
      length-append (front ++ le_bytes 4 0) (le_bytes 4 (xx.finish_32 (xx.write h bytes))),
      length-append front (le_bytes 4 0),
      length-le_bytes 4 0,
      length-le_bytes 4 (xx.finish_32 (xx.write h bytes)),
      length-blocks_within (length bytes) bytes (omega arith),
    )

length-frame :
    (xx : XxHash) (bytes : Bytes)
    → length (frame xx bytes) ≡ (length bytes + 63_999) / 64_000 * 4 + length bytes + 15
unfolding frame le_bytes
length-frame xx bytes = omega (arith, length-body xx (xx.with_seed 0) bytes)

framed_size-eq : (n : ℕ) → n < 2 ^ 63 → framed_size n ≡ (n + 63_999) / 64_000 * 4 + n + 15
unfolding framed_size max_block_size
framed_size-eq n h = omega arith

-- For data below 2 ^ 63 bytes, however it is cut into chunks, `framed_size` of its length is the
-- number of bytes in the fragments that are sent.
pub framed_size-send_fragments :
    (io : ByteBuf) (xx : XxHash) (chunks : List Bytes)
    → length (concat chunks) < 2 ^ 63
    → length (concat (send_fragments io xx (new io xx) chunks))
      ≡ framed_size (length (concat chunks))
framed_size-send_fragments io xx chunks h =
    ap length (send_fragments-frame io xx chunks)
    ∙ length-frame xx (concat chunks)
    ∙ sym (framed_size-eq (length (concat chunks)) h)
