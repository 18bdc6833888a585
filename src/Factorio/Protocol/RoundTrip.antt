-- ===== src/Factorio/Protocol/RoundTrip.antt =====
-- factorio-cacher/src/factorio_protocol.rs: the packets that the proxies write, read again.
use factory_cacher.Base.{
  true, ℕ, ◌%◌, ◌/◌, ◌^◌, ◌<◌, ◌≡◌, refl, sym, ap, false, [], ◌++◌, append_assoc, append-nil, ◌==◌,
  ne→==, Outcome, ok, ◌>>=◌, arith,
}
use factory_cacher.Base.Words.{Bytes, le_bytes}
use factory_cacher.Extern.ByteBuf.{ByteBuf, get_le-append}
use factory_cacher.Factorio.Protocol.{
  is_transfer_block_request, PacketType, from_byte, to_byte, Header, new_unfragmented,
  TransferBlock, WorldMetadata, decode_header, encode_header, encode_full_packet, decode_request,
  encode_request, full_request, decode_block, encode_block, full_block, decode_metadata,
  encode_metadata, transfer_block_request, transfer_block, get_fragmentation,
}

-- The packet of a block on the wire.
pub wire_block : TransferBlock → Bytes
wire_block block = le_bytes 1 13 ++ (le_bytes 4 block.block_id ++ block.bytes)

-- The packet that asks for a block.
pub wire_request : ℕ → Bytes
wire_request block_id = le_bytes 1 12 ++ le_bytes 4 block_id

module _ (io : ByteBuf) where
  pub full_block-wire_block : (block : TransferBlock) → full_block io block ≡ ok (wire_block block)
  unfolding full_block encode_full_packet encode_header new_unfragmented encode_block wire_block
      to_byte factory_cacher.Factorio.Protocol.is_none
  full_block-wire_block block =
      rw (io.put_le_lem, io.put_le_lem)
        (ap ok (append_assoc (le_bytes 1 13) (le_bytes 4 block.block_id) block.bytes))

  pub full_request-wire_request :
      (block_id : ℕ) → full_request io block_id ≡ ok (wire_request block_id)
  unfolding full_request encode_full_packet encode_header new_unfragmented encode_request
      wire_request to_byte factory_cacher.Factorio.Protocol.is_none
  full_request-wire_request block_id = rw (io.put_le_lem, io.put_le_lem) refl

  -- The header of a packet whose type the proxies write, in front of any body.
  pub decode_header-le_bytes :
      (packet_type : PacketType) (body : Bytes)
      → to_byte packet_type < 32
      → from_byte (to_byte packet_type) ≡ packet_type
      → decode_header io (le_bytes 1 (to_byte packet_type) ++ body)
        ≡ ok (new_unfragmented packet_type, body)
  unfolding decode_header get_fragmentation new_unfragmented
  decode_header-le_bytes packet_type body small same =
      let low : to_byte packet_type % 32 ≡ to_byte packet_type = omega arith in
      let whole : (to_byte packet_type / 64 % 2 == 1) ≡ false = ne→== _ _ (λ h. omega arith) in
      let last : (to_byte packet_type / 128 % 2 == 1) ≡ false = ne→== _ _ (λ h. omega arith) in
      rw (get_le-append io 1 (to_byte packet_type) body (omega arith), low, same, whole, last) refl

  -- How a proxy reads the two packets: the header, then the packet.
  pub parse_request : Bytes → Outcome (Header × ℕ)
  parse_request packet = do
    (header, bytes) ← decode_header io packet
    block_id ← decode_request io bytes
    ok (header, block_id)

  pub parse_block : Bytes → Outcome (Header × TransferBlock)
  parse_block packet = do
    (header, bytes) ← decode_header io packet
    block ← decode_block io bytes
    ok (header, block)

  -- The packet that asks for a block, for a block number of 32 bits, is read back: its header is
  -- that of a whole packet of this type, and the rest holds the number.
  pub full_request-decode :
      (block_id : ℕ)
      → block_id < 2 ^ 32
      → (full_request io block_id >>= parse_request)
        ≡ ok (new_unfragmented transfer_block_request, block_id)
  unfolding parse_request full_request encode_full_packet encode_header new_unfragmented
      encode_request decode_request to_byte from_byte factory_cacher.Factorio.Protocol.is_none
  full_request-decode block_id small = rw (
    io.put_le_lem,
    io.put_le_lem,
    decode_header-le_bytes transfer_block_request (le_bytes 4 block_id) (omega arith) refl,
    sym (append-nil (le_bytes 4 block_id)),
    get_le-append io 4 block_id [] (omega arith),
  )

  pub wire_request-header :
      (block_id : ℕ)
      → (header : Header) × (decode_header io (wire_request block_id)
          ≡ ok (header, le_bytes 4 block_id))
        × (is_transfer_block_request header.packet_type ≡ true)
  unfolding wire_request is_transfer_block_request to_byte from_byte new_unfragmented
  wire_request-header block_id = (
    _,
    decode_header-le_bytes transfer_block_request (le_bytes 4 block_id) (omega arith) refl,
    refl,
  )

  pub le_bytes-request :
      (block_id : ℕ) → block_id < 2 ^ 32 → decode_request io (le_bytes 4 block_id) ≡ ok block_id
  unfolding decode_request
  le_bytes-request block_id small =
      rw (sym (append-nil (le_bytes 4 block_id)), get_le-append io 4 block_id [] (omega arith))

  -- The packet that holds a block, for a block number of 32 bits, is read back: its header is that
  -- of a whole packet of this type, and the rest holds the block.
  pub full_block-decode :
      (block : TransferBlock)
      → block.block_id < 2 ^ 32
      → (full_block io block >>= parse_block) ≡ ok (new_unfragmented transfer_block, block)
  unfolding parse_block full_block encode_full_packet encode_header new_unfragmented encode_block
      decode_block to_byte from_byte factory_cacher.Factorio.Protocol.is_none
  full_block-decode block small = rw (
    io.put_le_lem,
    io.put_le_lem,
    append_assoc (le_bytes 1 13) (le_bytes 4 block.block_id) block.bytes,
    decode_header-le_bytes transfer_block (le_bytes 4 block.block_id ++ block.bytes) (omega arith)
        refl,
    get_le-append io 4 block.block_id block.bytes (omega arith),
  )

  -- The description of a world is read back from its encoding, in front of any other bytes, when
  -- each of its fields fits in 32 bits.
  pub encode_metadata-decode :
      (m : WorldMetadata) (rest : Bytes)
      → m.world_size < 2 ^ 32
      → m.no_idea1 < 2 ^ 32
      → m.aux_size < 2 ^ 32
      → m.no_idea2 < 2 ^ 32
      → m.world_crc < 2 ^ 32
      → decode_metadata io (encode_metadata io m [] ++ rest) ≡ ok (m, rest)
  unfolding encode_metadata decode_metadata
  encode_metadata-decode m rest h1 h2 h3 h4 h5 = rw (
    io.put_le_lem,
    io.put_le_lem,
    io.put_le_lem,
    io.put_le_lem,
    io.put_le_lem,
    append_assoc,
    append_assoc,
    append_assoc,
    append_assoc,
    get_le-append io 4 m.world_size _ (omega arith),
    get_le-append io 4 m.no_idea1 _ (omega arith),
    get_le-append io 4 m.aux_size _ (omega arith),
    get_le-append io 4 m.no_idea2 _ (omega arith),
    get_le-append io 4 m.world_crc rest (omega arith),
  )
