-- ===== src/Factorio/Server/Transfer.antt =====
-- factorio-cacher/src/proxy/server_proxy.rs: `transfer_world_data`, the task that `finalize_world`
-- starts when all blocks of the world have arrived. The task's answers to requests for chunks are
-- `provide_chunks_as_requested` of Message/Provide.antt.
pub mod Sorted
pub mod Parts
use factory_cacher.Base.{
  ℕ, ◌+◌, ◌-◌, ◌*◌, ◌%◌, ◌^◌, Bool, List, [], ◌∷◌, ◌++◌, not, ltb, leb, if◌then◌else◌, length, take,
  drop, Outcome, ok, ◌>>=◌, ◌>>◌, assert, guard, download_too_short,
}
use factory_cacher.Base.Slice.{slice}
use factory_cacher.Base.Words.{Bytes}
use factory_cacher.Extern.Blake3.{Blake3}
use factory_cacher.Extern.ByteBuf.{ByteBuf}
use factory_cacher.Extern.Deflate.{Deflate}
use factory_cacher.Dedup.{ChunkMap}
use factory_cacher.Factorio.Protocol.{TransferBlock, transfer_block_size}
use factory_cacher.Factorio.Server.{Downloading}
use factory_cacher.Factorio.World.{deconstruct_world}
use factory_cacher.Factorio.Client.Transfer.{WorldReady}
use factory_cacher.Message.{write_message}

-- `sort_by_key(|block| block.block_id)`, which is stable.
unfoldable pub insert_block : TransferBlock → List TransferBlock → List TransferBlock
insert_block block [] = block ∷ []
insert_block block (other ∷ rest) =
    let later = insert_block block rest in
    if leb block.block_id other.block_id then block ∷ other ∷ rest else other ∷ later

unfoldable pub sort_blocks : List TransferBlock → List TransferBlock
sort_blocks [] = []
sort_blocks (block ∷ blocks) = insert_block block (sort_blocks blocks)

-- The loop that puts the blocks together.
unfoldable pub extend_blocks : Bytes → List TransferBlock → Bytes
extend_blocks received_data [] = received_data
extend_blocks received_data (block ∷ blocks) = extend_blocks (received_data ++ block.bytes) blocks

-- The world and the auxiliary data in the blocks of a download.
unfoldable pub received_parts : Downloading → Outcome (Bytes × Bytes)
received_parts state = do
  let received_data = extend_blocks [] (sort_blocks state.received_blocks)
  let aux_data_offset = (state.world_block_count * transfer_block_size) % 2 ^ 32
  guard (not (ltb (length received_data) (aux_data_offset + state.world_info.aux_size)))
      download_too_short
  world_data ← slice 0 state.world_info.world_size received_data
  aux_data ←
      slice aux_data_offset ((aux_data_offset + state.world_info.aux_size) % 2 ^ 32) received_data
  ok (world_data, aux_data)

module _ (io : ByteBuf) (deflate : Deflate) (blake : Blake3) where
  -- The message that announces the world, and the chunks that the other side may ask for.
  unfoldable pub prepare_world :
      (Bytes → Outcome (List (Outcome (Bytes × Bytes))))
      → Downloading
      → Outcome (WorldReady × ChunkMap)
  prepare_world open_archive state = do
    (world_data, aux_data) ← received_parts state
    (world, chunks) ← deconstruct_world io deflate blake open_archive world_data aux_data
    ok (
      record { world = world; old_info = state.world_info; new_info = state.new_world_info },
      chunks,
    )

  -- `transfer_world_data` up to its loop: what is written to the stream, and the chunks.
  -- `encode_message` is the encoding of MessagePack and zstd.
  unfoldable pub announce_world :
      (Bytes → Outcome (List (Outcome (Bytes × Bytes))))
      → (WorldReady → Outcome Bytes)
      → Downloading
      → Bytes
      → Outcome (Bytes × ChunkMap)
  announce_world open_archive encode_message state out = do
    (world_ready, chunks) ← prepare_world open_archive state
    message ← encode_message world_ready
    out' ← write_message out message
    ok (out', chunks)
