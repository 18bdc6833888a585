-- ===== src/Dsp/Lz4.antt =====
-- dsp-nebula-cacher/src/lz4_frame_encoder.rs: LZ4 frames of uncompressed blocks, and the loop of
-- `reconstruct_lz4_data` (dsp-nebula-cacher/src/nebula_protocol/mod.rs) that feeds the encoder.
pub mod Spec
pub mod Frame
pub mod Size
use Prim.Native.Nat.{bit_or}
use factory_cacher.Base.{
  ℕ, zero, suc, ◌+◌, ◌-◌, ◌*◌, ◌/◌, ◌%◌, ◌^◌, min, Option, none, some, List, [], ◌∷◌, ◌++◌, leb,
  if◌then◌else◌, length, take, drop, is_empty,
}
use factory_cacher.Base.Words.{Bytes}
use factory_cacher.Extern.ByteBuf.{ByteBuf}
use factory_cacher.Extern.XxHash.{XxHash}

unfoldable pub max_block_size : ℕ
max_block_size = 64_000

pub record Encoder (State : Type 0) : Type 0 where
  pub pending_data : Bytes
  pub buffer : Bytes
  pub content_hasher : State

-- What an optional fragment adds to the output.
abbrev pub emitted : Option Bytes → Bytes
emitted none = []
emitted (some fragment) = fragment

-- `if let Some(fragment) = ... { out_sink.send(fragment) }` before what is sent later.
abbrev pub send : Option Bytes → List Bytes → List Bytes
send none rest = rest
send (some fragment) rest = fragment ∷ rest

module _ (io : ByteBuf) (xx : XxHash) where
  -- `Lz4DeterministicFrameEncoder::new`: the header is 7 bytes.
  pub new : Encoder xx.State
  new =
      let buffer = io.put_le 1 0b0100_0000 (io.put_le 1 0b0110_0100 (io.put_le 4 0x184D2204 [])) in
      let header_checksum = xx.oneshot 0 (drop 4 buffer) in
      record {
        pending_data = [];
        buffer = io.put_le 1 (header_checksum / 2 ^ 8 % 256) buffer;
        content_hasher = xx.with_seed 0;
      }

  -- A block is its size, with the top bit set for "not compressed", and its contents.
  pub build_block : Encoder xx.State → Encoder xx.State
  build_block e =
      let block_size = min max_block_size (length e.pending_data) in
      let block_contents = take block_size e.pending_data in
      record {
        pending_data = drop block_size e.pending_data;
        buffer = io.put_le 4 (bit_or 0x8000_0000 block_size) e.buffer ++ block_contents;
        content_hasher = xx.write e.content_hasher block_contents;
      }

  -- `while self.pending_data.len() >= MAX_BLOCK_SIZE { self.build_block(); }`
  pub build_blocks : ℕ → Encoder xx.State → Encoder xx.State
  build_blocks zero e = e
  build_blocks (suc fuel) e =
      let rest = build_blocks fuel (build_block e) in
      if leb max_block_size (length e.pending_data) then rest else e

  -- A block takes a byte at least, so that the length of the pending data is enough fuel.
  pub add_data : Encoder xx.State → Bytes → Encoder xx.State × Option Bytes
  add_data e bytes =
      let e1 = record e { pending_data = e.pending_data ++ bytes } in
      if leb max_block_size (length e1.pending_data)
      then (let e2 = build_blocks (length e1.pending_data) e1 in
          (record e2 { buffer = [] }, some e2.buffer))
      else (e1, none)

  pub finish : Encoder xx.State → Bytes
  finish e =
      let e1 = if is_empty e.pending_data then e else build_block e in
      io.put_le 4 (xx.finish_32 e1.content_hasher) (io.put_le 4 0 e1.buffer)

  -- The fragments that `reconstruct_lz4_data` sends to `out_sink` for a stream of chunks.
  pub send_fragments : Encoder xx.State → List Bytes → List Bytes
  send_fragments e [] = finish e ∷ []
  send_fragments e (chunk ∷ chunks) =
      let (e', fragment) = add_data e chunk in send fragment (send_fragments e' chunks)

-- u64 additions and multiplications, which wrap in a release build.
abbrev pub u64 : ℕ → ℕ
u64 n = n % 2 ^ 64

unfoldable pub framed_size : ℕ → ℕ
framed_size original_len =
    let header = 4 + 3 in
    let rounded_up = u64 (u64 (original_len + max_block_size) + (2 ^ 64 - 1)) in
    let total_blocks = rounded_up / max_block_size in
    let with_blocks = u64 (u64 (header + u64 (total_blocks * 4)) + original_len) in
    u64 (u64 (with_blocks + 4) + 4)
