-- ===== src/Factorio/Server/Transfer/Parts.antt =====
-- factorio-cacher/src/proxy/server_proxy.rs: a complete download, put together.
use native.Mathlib.Nat.{suc-add}
use factory_cacher.Base.{
  ℕ, zero, suc, ◌+◌, ◌-◌, ◌*◌, ◌%◌, ◌^◌, ◌≤◌, ◌≡◌, refl, sym, ap, ap₂, ◌∙◌, List, [], ◌∷◌, ◌++◌,
  map, leb, length, take, drop, get_or, ok, All, arith, Bool-cases, inl, inr, append_assoc,
  length-append, length-replicate, take-append_left, drop-append_left, take_of_length-le,
  not-lt→ltb, true,
}
use factory_cacher.Base.SortedSet.{range}
use factory_cacher.Base.Slice.{slice}
use factory_cacher.Base.Words.{Bytes}
use factory_cacher.Factorio.Protocol.{TransferBlock, transfer_block_size}
use factory_cacher.Factorio.Server.{Downloading, block_count, total_block_count}
use factory_cacher.Factorio.Server.Download.{Complete, block_id_of}
use factory_cacher.Factorio.Server.Transfer.{
  insert_block, sort_blocks, extend_blocks, received_parts,
}
use factory_cacher.Factorio.Server.Transfer.Sorted.{
  count-sort_blocks, sort_blocks-InOrder, InOrder-range,
}
use factory_cacher.Factorio.World.Align.{up, padding}

-- What the game's server sends: the world and the auxiliary data, each padded to whole blocks.
abbrev pub padded : Bytes → Bytes → Bytes
padded world aux = world ++ padding (length world) ++ aux ++ padding (length aux)

-- The block with a number.
abbrev pub block_of : Bytes → ℕ → Bytes
block_of whole block_id = take 503 (drop (block_id * 503) whole)

abbrev pub IsBlockOf : Bytes → TransferBlock → Type 0
IsBlockOf whole block = block.bytes ≡ block_of whole block.block_id

insert_block-All :
    (whole : Bytes) (block : TransferBlock) (blocks : List TransferBlock)
    → IsBlockOf whole block
    → All (IsBlockOf whole) blocks
    → All (IsBlockOf whole) (insert_block block blocks)
unfolding insert_block
insert_block-All whole block [] h rest = (h, tt)
insert_block-All whole block (other ∷ blocks) h (first, rest) =
    elim (Bool-cases (leb block.block_id other.block_id)) [
      | inl low ↦ rw (low, insert_block) (h, (first, rest))
      | inr high ↦ rw (high, insert_block) (first, insert_block-All whole block blocks h rest)
    ]

sort_blocks-All :
    (whole : Bytes) (blocks : List TransferBlock)
    → All (IsBlockOf whole) blocks
    → All (IsBlockOf whole) (sort_blocks blocks)
unfolding sort_blocks
sort_blocks-All whole [] h = tt
sort_blocks-All whole (block ∷ blocks) (first, rest) =
    insert_block-All whole block (sort_blocks blocks) first (sort_blocks-All whole blocks rest)

take-more : (m n : ℕ) (b : Bytes) → take m b ++ take n (drop m b) ≡ take (m + n) b
take-more zero n b = ap (λ (k : ℕ). take k b) (omega arith)
take-more (suc m) zero [] = sym (take_of_length-le (suc m + 0) [] (omega arith))
take-more (suc m) (suc n) [] = sym (take_of_length-le (suc m + suc n) [] (omega arith))
take-more (suc m) n (x ∷ b) =
    ap (◌∷◌ x) (take-more m n b) ∙ ap (λ (k : ℕ). take k (x ∷ b)) (sym (suc-add m n))

extend_blocks-take :
    (whole : Bytes) (n start : ℕ) (blocks : List TransferBlock)
    → map block_id_of blocks ≡ range start n
    → All (IsBlockOf whole) blocks
    → extend_blocks (take (start * 503) whole) blocks ≡ take ((start + n) * 503) whole
unfolding extend_blocks range
extend_blocks-take whole zero start [] are h = ap (λ (k : ℕ). take k whole) (omega arith)
extend_blocks-take whole zero start (b ∷ bs) are h = cc
extend_blocks-take whole (suc n) start [] are h = cc
extend_blocks-take whole (suc n) start (b ∷ bs) are (first, rest) =
    ap (λ (acc : Bytes). extend_blocks acc bs) grown
    ∙ extend_blocks-take whole n (suc start) bs (ap (drop 1) are) rest
    ∙ ap (λ (k : ℕ). take k whole) (omega arith)
  where
    id : b.block_id ≡ start
    id = ap (λ (xs : List ℕ). get_or xs 0 0) are

    grown : take (start * 503) whole ++ b.bytes ≡ take (suc start * 503) whole
    grown =
        ap (◌++◌ (take (start * 503) whole)) (first ∙ ap (block_of whole) id)
        ∙ take-more (start * 503) 503 whole
        ∙ ap (λ (k : ℕ). take k whole) (omega arith)

-- A download whose blocks are those of a world and its auxiliary data, with the sizes announced.
pub record IsHonest (state : Downloading) (world aux : Bytes) : Type 0 where
  pub world_size : state.world_info.world_size ≡ length world
  pub aux_size : state.world_info.aux_size ≡ length aux
  pub block_count : state.world_block_count ≡ block_count state.world_info.world_size
  pub blocks : All (IsBlockOf (padded world aux)) state.received_blocks

-- All of the blocks, in the order of their numbers, are the whole.
received-whole :
    (total : ℕ) (whole : Bytes) (state : Downloading)
    → Complete total state
    → All (IsBlockOf whole) state.received_blocks
    → length whole ≤ total * 503
    → extend_blocks [] (sort_blocks state.received_blocks) ≡ whole
received-whole total whole state complete honest enough =
    extend_blocks-take whole total 0 (sort_blocks state.received_blocks)
      (InOrder-range total 0 (map block_id_of (sort_blocks state.received_blocks))
        (sort_blocks-InOrder state.received_blocks)
        (λ z. ground (arith, count-sort_blocks z state.received_blocks, complete z)))
      (sort_blocks-All whole state.received_blocks honest)
    ∙ take_of_length-le ((0 + total) * 503) whole (omega arith)

length-padded :
    (world aux : Bytes) → length (padded world aux) ≡ up (length world) + up (length aux)
length-padded world aux = omega (
  arith,
  length-append (world ++ padding (length world) ++ aux) (padding (length aux)),
  length-append (world ++ padding (length world)) aux,
  length-append world (padding (length world)),
  length-replicate {A = ℕ} (up (length world) - length world) 0,
  length-replicate {A = ℕ} (up (length aux) - length aux) 0,
)

le→leb : (a b : ℕ) → a ≤ b → leb a b ≡ true
le→leb a b h = ground arith

-- A part of a whole, by where it starts and ends.
slice-part :
    (from to : ℕ) (whole front middle back : Bytes)
    → whole ≡ front ++ (middle ++ back)
    → from ≡ length front
    → to ≡ length front + length middle
    → slice from to whole ≡ ok middle
unfolding slice
slice-part from to whole front middle back is start stop =
    rw
      (
        le→leb from to (omega (arith, start, stop)),
        le→leb to (length whole) (
            omega (
              arith,
              stop,
              ap length is,
              length-append front (middle ++ back),
              length-append middle back,
            )),
      )
      (ap ok (
        ap₂ (λ (n : ℕ) (b : Bytes). take n b) (omega (arith, start, stop))
          (ap (drop from) is ∙ drop-append_left from front (middle ++ back) (sym start))
        ∙ take-append_left (length middle) middle back refl))

-- When every block of the world and of the auxiliary data has arrived once, with what a server
-- sends that pads both to whole blocks, their sizes are those announced, and together they are at
-- most 2 ^ 32 - 1006 bytes long: the parts that `transfer_world_data` cuts out are the world and the
-- auxiliary data, in whichever order the blocks arrived.
pub received_parts-Complete :
    (state : Downloading) (world aux : Bytes)
    → Complete (total_block_count state.world_info) state
    → IsHonest state world aux
    → length world + length aux + 1006 ≤ 2 ^ 32
    → received_parts state ≡ ok (world, aux)
unfolding received_parts block_count total_block_count transfer_block_size
received_parts-Complete state world aux complete honest fit =
    rw
      (
        whole,
        not-lt→ltb (length (padded world aux))
            (state.world_block_count * 503 % 2 ^ 32 + state.world_info.aux_size)
            (omega (arith, offset, honest.aux_size, length-padded world aux)),
        the_world,
        the_aux,
      )
      refl
  where
    offset : state.world_block_count * 503 % 2 ^ 32 ≡ up (length world)
    offset = omega (arith, honest.block_count, honest.world_size)

    whole : extend_blocks [] (sort_blocks state.received_blocks) ≡ padded world aux
    whole =
        received-whole (total_block_count state.world_info) (padded world aux) state complete
          honest.blocks (omega (arith, length-padded world aux, honest.world_size, honest.aux_size))

    the_world : slice 0 state.world_info.world_size (padded world aux) ≡ ok world
    the_world =
        slice-part 0 state.world_info.world_size (padded world aux) [] world
          (padding (length world) ++ aux ++ padding (length aux)) (simp append_assoc refl)
          (omega arith) (omega (arith, honest.world_size))

    the_aux :
        slice
          (state.world_block_count * 503 % 2 ^ 32)
          ((state.world_block_count * 503 % 2 ^ 32 + state.world_info.aux_size) % 2 ^ 32)
          (padded world aux)
        ≡ ok aux
    the_aux =
        slice-part _ _ (padded world aux) (world ++ padding (length world)) aux
          (padding (length aux)) (append_assoc (world ++ padding (length world)) aux _)
          (omega (arith, offset, front_length))
          (omega (arith, offset, front_length, honest.aux_size))
      where
        front_length : length (world ++ padding (length world)) ≡ up (length world)
        front_length = omega (
          arith,
          length-append world (padding (length world)),
          length-replicate {A = ℕ} (up (length world) - length world) 0,
        )
