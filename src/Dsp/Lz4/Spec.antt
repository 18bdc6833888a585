-- ===== src/Dsp/Lz4/Spec.antt =====
-- The LZ4 frame format of uncompressed blocks, written down in one go: what the encoder of
-- dsp-nebula-cacher/src/lz4_frame_encoder.rs is to produce.
use Prim.Native.Nat.{bit_or}
use factory_cacher.Base.{
  ℕ, zero, suc, ◌/◌, ◌%◌, ◌^◌, ◌≤◌, ◌<◌, ◌≡◌, refl, ap, [], ◌∷◌, ◌++◌, length, take, drop, arith,
  append_assoc, length-drop, take-append-drop,
}
use factory_cacher.Base.Words.{Bytes, le_bytes}
use factory_cacher.Extern.XxHash.{XxHash}
use factory_cacher.Dsp.Lz4.{max_block_size}

-- One uncompressed block.
unfoldable pub block : Bytes → Bytes
block contents = le_bytes 4 (bit_or 0x8000_0000 (length contents)) ++ contents

-- The blocks of some data: full ones, and a last one for what is left over.
unfoldable pub blocks_within : ℕ → Bytes → Bytes
blocks_within zero bytes = []
blocks_within (suc fuel) [] = []
blocks_within (suc fuel) (b ∷ bs) =
    block (take max_block_size (b ∷ bs)) ++ blocks_within fuel (drop max_block_size (b ∷ bs))

unfoldable pub blocks : Bytes → Bytes
blocks bytes = blocks_within (length bytes) bytes

pub max_block_size-eq : max_block_size ≡ 64_000
unfolding max_block_size
max_block_size-eq = refl

pub max_block_size-pos : 0 < max_block_size
unfolding max_block_size
max_block_size-pos = omega arith

drop_shorter : (b : ℕ) (bs : Bytes) → length (drop max_block_size (b ∷ bs)) ≤ length bs
drop_shorter b bs = omega (arith, length-drop max_block_size (b ∷ bs), max_block_size-pos)

blocks_fuel :
    (f g : ℕ) (bytes : Bytes)
    → length bytes ≤ f
    → length bytes ≤ g
    → blocks_within f bytes ≡ blocks_within g bytes
unfolding blocks_within
blocks_fuel zero zero bytes p q = refl
blocks_fuel zero (suc g) [] p q = refl
blocks_fuel (suc f) zero [] p q = refl
blocks_fuel (suc f) (suc g) [] p q = refl
blocks_fuel zero g (b ∷ bs) p q = absurd (omega arith)
blocks_fuel (suc f) zero (b ∷ bs) p q = absurd (omega arith)
blocks_fuel (suc f) (suc g) (b ∷ bs) p q = ap (◌++◌ (block (take max_block_size (b ∷ bs)))) (
    blocks_fuel f g (drop max_block_size (b ∷ bs)) (omega (arith, drop_shorter b bs))
      (omega (arith, drop_shorter b bs)))

-- The first block of data that is not empty.
pub blocks_lem :
    (bytes : Bytes)
    → 0 < length bytes
    → blocks bytes ≡ block (take max_block_size bytes) ++ blocks (drop max_block_size bytes)
unfolding blocks blocks_within
blocks_lem [] h = absurd (omega arith)
blocks_lem (b ∷ bs) h =
    ap (◌++◌ (block (take max_block_size (b ∷ bs))))
      (blocks_fuel (length bs) _ (drop max_block_size (b ∷ bs)) (drop_shorter b bs) (omega arith))

pub block-eq :
    (bytes : Bytes) → block bytes ≡ le_bytes 4 (bit_or 0x8000_0000 (length bytes)) ++ bytes
unfolding block
block-eq bytes = refl

module _ (xx : XxHash) where
  -- What follows the header when the content hash stands at `h`: the blocks of the data, the end
  -- mark, the content checksum.
  unfoldable pub body : xx.State → Bytes → Bytes
  body h bytes = blocks bytes ++ le_bytes 4 0 ++ le_bytes 4 (xx.finish_32 (xx.write h bytes))

  pub body_lem :
      (h : xx.State) (bytes : Bytes)
      → 0 < length bytes
      → body h bytes
        ≡ block (take max_block_size bytes)
          ++ body (xx.write h (take max_block_size bytes)) (drop max_block_size bytes)
  unfolding body
  body_lem h bytes pos =
      rw
        (
          blocks_lem bytes pos,
          xx.write-append h (take max_block_size bytes) (drop max_block_size bytes),
          take-append-drop max_block_size bytes,
        )
        (simp append_assoc)

  -- The frame over some data, written down in one go: magic number, descriptor with its checksum
  -- byte, blocks, end mark, content checksum.
  unfoldable pub frame : Bytes → Bytes
  frame bytes =
      le_bytes 4 0x184D2204
      ++ (0x64 ∷ 0x40 ∷ le_bytes 1 (xx.oneshot 0 (0x64 ∷ 0x40 ∷ []) / 2 ^ 8 % 256))
      ++ body (xx.with_seed 0) bytes
