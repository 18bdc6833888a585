-- ===== src/Factorio/Client/Stable.antt =====
-- factorio-cacher/src/proxy/client_proxy.rs: blocks that are sent before the world is complete.
use factory_cacher.Base.{
  ◌⊎◌, ◌<◌, refl, false, length-take, take-append-drop, sym, ok, ℕ, ◌+◌, ◌*◌, ◌≤◌, ◌≡◌, ap, ◌∙◌,
  none, some, ◌++◌, leb, leb→le, le→leb, length, take, drop, length-append, length-drop,
  drop-append_front, take-append_front, Bool-cases, inl, inr, arith,
}
use factory_cacher.Base.Words.{Bytes}
use factory_cacher.Factorio.Protocol.{TransferBlock, transfer_block_size}
use factory_cacher.Factorio.Client.Blocks.{block_at, try_fulfill-block_at}
use factory_cacher.Factorio.Client.{try_fulfill_block_request}

slice-append :
    (offset size : ℕ) (front rest : Bytes)
    → offset + size ≤ length front
    → take size (drop offset (front ++ rest)) ≡ take size (drop offset front)
slice-append offset size front rest h =
    ap (take size) (drop-append_front offset front rest (omega arith))
    ∙ take-append_front size (drop offset front) rest (omega (arith, length-drop offset front))

leb-false→lt : (a b : ℕ) → leb a b ≡ false → b < a
leb-false→lt a b h = ground arith

none-some : (block : TransferBlock) → none ≡ some block → ⊥
none-some block h = cc

-- The block that has the number stands at its place in the data, whole.
abbrev pub IsBlockOf : Bytes → ℕ → TransferBlock → Type 0
IsBlockOf world_data block_id block =
    (front : Bytes) × (rest : Bytes) × (world_data ≡ front ++ (block.bytes ++ rest))
    × (length front ≡ block_id * transfer_block_size)
    × (length block.bytes ≡ transfer_block_size)
    × (block.block_id ≡ block_id)

block_at-cases :
    (world_data : Bytes) (block_id : ℕ)
    → ((block : TransferBlock) × IsBlockOf world_data block_id block
        × (block_at world_data block_id ≡ some block))
      ⊎ ((block_at world_data block_id ≡ none)
          × (length world_data < block_id * transfer_block_size + transfer_block_size))
unfolding block_at
block_at-cases world_data block_id =
    let offset = block_id * transfer_block_size in
    elim (Bool-cases (leb (offset + transfer_block_size) (length world_data))) [
      | inl there ↦ rw there (
          inl (
            record {
              block_id = block_id;
              bytes = take transfer_block_size (drop offset world_data);
            },
            (
              take offset world_data,
              drop transfer_block_size (drop offset world_data),
              sym (take-append-drop offset world_data)
                  ∙ ap (◌++◌ (take offset world_data))
                      (sym (take-append-drop transfer_block_size (drop offset world_data))),
              omega (arith, leb→le _ _ there, length-take offset world_data),
              omega (
                arith,
                leb→le _ _ there,
                length-take transfer_block_size (drop offset world_data),
                length-drop offset world_data,
              ),
              refl,
            ),
            refl,
          ))
      | inr short ↦ rw short (inr (refl, leb-false→lt _ _ short))
    ]

pub block_at-append :
    (world_data more : Bytes) (block_id : ℕ) (block : TransferBlock)
    → block_at world_data block_id ≡ some block
    → block_at (world_data ++ more) block_id ≡ some block
unfolding block_at
block_at-append world_data more block_id block found =
    elim (Bool-cases
      (leb (block_id * transfer_block_size + transfer_block_size) (length world_data))) [
        | inl there ↦
            let reached = leb→le _ _ there in
            let longer =
              le→leb (block_id * transfer_block_size + transfer_block_size)
                (length (world_data ++ more)) (omega (arith, length-append world_data more)) in
            rw
              (
                longer,
                slice-append (block_id * transfer_block_size) transfer_block_size world_data more
                    reached,
              )
              (rw there at found)
        | inr short ↦ absurd (none-some block (rw short at found))
      ]

-- A request either gets the whole block at its place in a part of the world's data, and then the
-- same block when more data has arrived, or the data ends before the block does and there is no
-- block yet. It never panics.
pub try_fulfill_block_request-append :
    (world_data more : Bytes) (block_id : ℕ)
    → ((block : TransferBlock) × IsBlockOf world_data block_id block
        × (try_fulfill_block_request world_data block_id ≡ ok (some block))
        × (try_fulfill_block_request (world_data ++ more) block_id ≡ ok (some block)))
      ⊎ ((try_fulfill_block_request world_data block_id ≡ ok none)
          × (length world_data < block_id * transfer_block_size + transfer_block_size))
try_fulfill_block_request-append world_data more block_id =
    elim (block_at-cases world_data block_id) [
      | inl (block, whole, found) ↦ inl (
        block,
        whole,
        try_fulfill-block_at world_data block_id ∙ ap ok found,
        try_fulfill-block_at (world_data ++ more) block_id
            ∙ ap ok (block_at-append world_data more block_id block found),
      )
      | inr (nothing, short) ↦ inr (try_fulfill-block_at world_data block_id ∙ ap ok nothing, short)
    ]
