-- ===== src/Factorio/Client/Blocks.antt =====
-- factorio-cacher/src/proxy/client_proxy.rs: the blocks that a part of the world has.
use factory_cacher.Base.{
  ℕ, ◌+◌, ◌*◌, ◌≡◌, refl, Option, none, some, leb, leb→le, length, take, drop, if◌then◌else◌, ok,
  Bool-cases, inl, inr,
}
use factory_cacher.Base.Slice.{slice-within}
use factory_cacher.Base.Words.{Bytes}
use factory_cacher.Factorio.Protocol.{TransferBlock, transfer_block_size}
use factory_cacher.Factorio.Client.{try_fulfill_block_request}

-- The block with a number, when the data reaches to its end.
unfoldable pub block_at : Bytes → ℕ → Option TransferBlock
block_at world_data block_id =
    if leb (block_id * transfer_block_size + transfer_block_size) (length world_data)
    then some (record {
      block_id = block_id;
      bytes = take transfer_block_size (drop (block_id * transfer_block_size) world_data);
    })
    else none

-- The slice is never out of bounds.
pub try_fulfill-block_at :
    (world_data : Bytes) (block_id : ℕ)
    → try_fulfill_block_request world_data block_id ≡ ok (block_at world_data block_id)
unfolding try_fulfill_block_request block_at
try_fulfill-block_at world_data block_id =
    let offset = block_id * transfer_block_size in
    elim (Bool-cases (leb (offset + transfer_block_size) (length world_data))) [
      | inl there ↦
          rw (there, slice-within offset transfer_block_size world_data (leb→le _ _ there)) refl
      | inr short ↦ rw short refl
    ]
