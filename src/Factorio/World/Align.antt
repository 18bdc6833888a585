-- ===== src/Factorio/World/Align.antt =====
-- factorio-cacher/src/factorio_world.rs: the end of `finalize_world`, which pads the world and the
-- auxiliary data to whole blocks.
use factory_cacher.Base.{
  ℕ, ◌+◌, ◌-◌, ◌*◌, ◌/◌, ◌%◌, ◌^◌, ◌≤◌, ◌<◌, ◌≡◌, refl, ap, ap₂, ◌∙◌, true, ◌++◌, length, replicate,
  ok, arith, length-append, length-replicate, take_of_length-le, ◌==◌, ==_iff,
}
use factory_cacher.Base.Words.{Bytes}
use factory_cacher.Extern.ByteBuf.{ByteBuf}
use factory_cacher.Extern.Crc.{Crc}
use factory_cacher.Extern.Deflate.{Deflate}
use factory_cacher.Factorio.Protocol.{transfer_block_size}
use factory_cacher.Factorio.Server.{block_count}
use factory_cacher.Factorio.World.{resize, aligned_length, padded_length, align_world}

-- A size, rounded up to whole blocks.
abbrev pub up : ℕ → ℕ
up size = (size + 502) / 503 * 503

pub aligned_length-up : (size : ℕ) → size + 503 ≤ 2 ^ 32 → aligned_length size ≡ up size
unfolding aligned_length block_count transfer_block_size
aligned_length-up size h = omega arith

pub padded_length-up :
    (size len : ℕ)
    → size + 503 ≤ 2 ^ 32
    → len < 2 ^ 34
    → padded_length (aligned_length size) size len ≡ len + (up size - size)
unfolding padded_length
padded_length-up size len h bound = omega (arith, aligned_length-up size h)

pub resize-grow : (n : ℕ) (b : Bytes) → resize (length b + n) b ≡ b ++ replicate n 0
unfolding resize
resize-grow n b =
    ap₂ ◌++◌ (take_of_length-le (length b + n) b (omega arith))
      (ap (λ (k : ℕ). replicate k 0) (left (length b) n))
  where
    left : (m n : ℕ) → m + n - m ≡ n
    left m n = omega arith

-- The padding behind data of a size.
abbrev pub padding : ℕ → Bytes
padding size = replicate (up size - size) 0

pub pad :
    (size : ℕ) (b : Bytes)
    → size + 503 ≤ 2 ^ 32
    → length b < 2 ^ 34
    → resize (padded_length (aligned_length size) size (length b)) b ≡ b ++ padding size
pad size b h bound =
    ap (λ (n : ℕ). resize n b) (padded_length-up size (length b) h bound)
    ∙ resize-grow (up size - size) b

length-pad : (size : ℕ) (b : Bytes) → length (b ++ padding size) ≡ length b + (up size - size)
length-pad size b =
    length-append b (padding size) ∙ ap (◌+◌ (length b)) (length-replicate (up size - size) 0)

module _ (io : ByteBuf) (deflate : Deflate) (crc : Crc) where
  pub align_world-padding :
      (aux_data output : Bytes) (current_size target_world_size : ℕ)
      → current_size + length output ≡ target_world_size
      → target_world_size + 503 ≤ 2 ^ 32
      → length aux_data + 503 ≤ 2 ^ 32
      → align_world io deflate crc aux_data current_size target_world_size output
        ≡ ok (output ++ padding target_world_size ++ aux_data ++ padding (length aux_data))
  unfolding align_world transfer_block_size
  align_world-padding aux_data output current_size target_world_size size fit aux_fit =
      rw (step1, step2, blocks) refl
    where
      world : Bytes
      world = output ++ padding target_world_size

      world_size : length world ≡ length output + (up target_world_size - target_world_size)
      world_size = length-pad target_world_size output

      with_aux : Bytes
      with_aux = world ++ aux_data

      with_aux_size : length with_aux ≡ length world + length aux_data
      with_aux_size = length-append world aux_data

      step1 :
          resize
            (padded_length (aligned_length target_world_size) target_world_size (length output))
            output
          ≡ world
      step1 = pad target_world_size output fit (omega arith)

      step2 :
          resize
            (padded_length (aligned_length (length aux_data)) (length aux_data) (length with_aux))
            with_aux
          ≡ with_aux ++ padding (length aux_data)
      step2 = pad (length aux_data) with_aux aux_fit (omega (arith, with_aux_size, world_size))

      blocks : ((current_size + length (with_aux ++ padding (length aux_data))) % 503 == 0) ≡ true
      blocks =
          (==_iff ((current_size + length (with_aux ++ padding (length aux_data))) % 503) 0).1
            (omega (arith, length-pad (length aux_data) with_aux, with_aux_size, world_size))
