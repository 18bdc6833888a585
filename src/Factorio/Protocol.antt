-- ===== src/Factorio/Protocol.antt =====
-- factorio-cacher/src/factorio_protocol.rs and the `BufExt` of common/src/utils.rs: the packets of
-- the game that the proxies read and write. A mask is written with `/` and `%` on the byte.
pub mod RoundTrip
pub mod NoPanic
use factory_cacher.Base.{
  ℕ, ◌*◌, ◌/◌, ◌%◌, Bool, true, false, not, ◌||◌, Option, none, some, [], ◌++◌, ltb, ◌==◌,
  if◌then◌else◌, length, drop, Outcome, ok, panic, err, ◌>>=◌, ◌>>◌, assert, try_get,
}
use factory_cacher.Base.Words.{Bytes}
use factory_cacher.Extern.ByteBuf.{ByteBuf}

-- `TRANSFER_BLOCK_SIZE`
unfoldable pub transfer_block_size : ℕ
transfer_block_size = 503

pub data PacketType : Type 0 where
  server_to_client_heartbeat : PacketType
  transfer_block_request : PacketType
  transfer_block : PacketType
  unknown : ℕ → PacketType

-- `impl From<u8> for PacketType`
unfoldable pub from_byte : ℕ → PacketType
from_byte val =
    if val == 7
    then server_to_client_heartbeat
    else if val == 12
    then transfer_block_request
    else if val == 13
    then transfer_block
    else unknown val

-- `impl Into<u8> for PacketType`
unfoldable pub to_byte : PacketType → ℕ
to_byte server_to_client_heartbeat = 7
to_byte transfer_block_request = 12
to_byte transfer_block = 13
to_byte (unknown val) = val

-- `PartialEq` of `PacketType`, as far as the proxies use it.
pub is_heartbeat : PacketType → Bool
is_heartbeat server_to_client_heartbeat = true
is_heartbeat _ = false

pub is_transfer_block_request : PacketType → Bool
is_transfer_block_request transfer_block_request = true
is_transfer_block_request _ = false

pub is_transfer_block : PacketType → Bool
is_transfer_block transfer_block = true
is_transfer_block _ = false

-- `PacketFragmentationInfo`
pub record Fragmentation : Type 0 where
  pub is_last_fragment : Bool
  pub message_id : ℕ
  pub fragment_id : Option ℕ

-- `FactorioPacketHeader`
pub record Header : Type 0 where
  pub packet_type : PacketType
  pub fragmentation : Option Fragmentation

pub new_unfragmented : PacketType → Header
new_unfragmented packet_type = record { packet_type = packet_type; fragmentation = none }

-- `TransferBlockPacket`
pub record TransferBlock : Type 0 where
  pub block_id : ℕ
  pub bytes : Bytes

-- `FactorioWorldMetadata`
pub record WorldMetadata : Type 0 where
  pub world_size : ℕ
  pub no_idea1 : ℕ
  pub aux_size : ℕ
  pub no_idea2 : ℕ
  pub world_crc : ℕ

-- `ServerToClientHeartbeatPacket`
pub record Heartbeat : Type 0 where
  pub flags : ℕ
  pub bytes : Bytes

pub is_none : Option Fragmentation → Bool
is_none none = true
is_none (some _) = false

-- `BufExt::try_advance`
pub try_advance : ℕ → Bytes → Outcome Bytes
try_advance len bytes =
    if ltb (length bytes) len then err (try_get len (length bytes)) else ok (drop len bytes)

module _ (io : ByteBuf) where
  -- `BufExt::try_get_factorio_varint32`
  pub get_varint32 : Bytes → Outcome (ℕ × Bytes)
  get_varint32 bytes = do
    (byte, rest) ← io.get_le 1 bytes
    if byte == 255 then io.get_le 4 rest else ok (byte, rest)

  -- `BufExt::try_get_factorio_varint16`
  pub get_varint16 : Bytes → Outcome (ℕ × Bytes)
  get_varint16 bytes = do
    (byte, rest) ← io.get_le 1 bytes
    if byte == 255 then io.get_le 2 rest else ok (byte, rest)

  -- `if is_fragmented { Some(data.try_get_factorio_varint16()?) } else { None }`
  pub get_fragment_id : Bool → Bytes → Outcome (Option ℕ × Bytes)
  get_fragment_id true bytes = do (id, rest) ← get_varint16 bytes; ok (some id, rest)
  get_fragment_id false bytes = ok (none, bytes)

  -- The skip of the array of confirmations, when bit 15 of the message id is set.
  pub skip_confirms : Bool → Bytes → Outcome Bytes
  skip_confirms true bytes = do (len, rest) ← io.get_le 4 bytes; try_advance len rest
  skip_confirms false bytes = ok bytes

  pub get_fragmentation : Bool → Bool → Bytes → Outcome (Option Fragmentation × Bytes)
  get_fragmentation is_fragmented is_last_fragment bytes =
      if is_fragmented || is_last_fragment
      then (do
        (message_id, data1) ← io.get_le 2 bytes
        (fragment_id, data2) ← get_fragment_id is_fragmented data1
        data3 ← skip_confirms (message_id / 0x8000 % 2 == 1) data2
        ok (
          some (record {
            is_last_fragment = is_last_fragment;
            message_id = message_id % 0x8000;
            fragment_id = fragment_id;
          }),
          data3,
        ))
      else ok (none, bytes)

  -- `FactorioPacketHeader::decode`
  pub decode_header : Bytes → Outcome (Header × Bytes)
  decode_header bytes = do
    (flags, data1) ← io.get_le 1 bytes
    let packet_type = from_byte (flags % 32)
    (fragmentation, data2) ← get_fragmentation (flags / 64 % 2 == 1) (flags / 128 % 2 == 1) data1
    ok (record { packet_type = packet_type; fragmentation = fragmentation }, data2)

  -- `FactorioPacketHeader::encode`
  pub encode_header : Header → Bytes → Outcome Bytes
  encode_header h buf = do
    assert (is_none h.fragmentation)
    ok (io.put_le 1 (to_byte h.packet_type) buf)

  -- `FactorioPacket::encode_full_packet`: `encode` is the packet's own encoder.
  pub encode_full_packet : PacketType → (Bytes → Bytes) → Outcome Bytes
  encode_full_packet packet_type encode = do
    buf ← encode_header (new_unfragmented packet_type) []
    ok (encode buf)

  -- `TransferBlockRequestPacket`, of which only the block's number is there.
  pub decode_request : Bytes → Outcome ℕ
  decode_request bytes = do (block_id, _) ← io.get_le 4 bytes; ok block_id

  pub encode_request : ℕ → Bytes → Bytes
  encode_request block_id buf = io.put_le 4 block_id buf

  pub full_request : ℕ → Outcome Bytes
  full_request block_id = encode_full_packet transfer_block_request (encode_request block_id)

  -- `TransferBlockPacket`
  pub decode_block : Bytes → Outcome TransferBlock
  decode_block bytes = do
    (block_id, rest) ← io.get_le 4 bytes
    ok (record { block_id = block_id; bytes = rest })

  pub encode_block : TransferBlock → Bytes → Bytes
  encode_block block buf = io.put_le 4 block.block_id buf ++ block.bytes

  pub full_block : TransferBlock → Outcome Bytes
  full_block block = encode_full_packet transfer_block (encode_block block)

  -- `FactorioWorldMetadata::decode`
  pub decode_metadata : Bytes → Outcome (WorldMetadata × Bytes)
  decode_metadata bytes = do
    (world_size, d1) ← io.get_le 4 bytes
    (no_idea1, d2) ← io.get_le 4 d1
    (aux_size, d3) ← io.get_le 4 d2
    (no_idea2, d4) ← io.get_le 4 d3
    (world_crc, d5) ← io.get_le 4 d4
    ok (
      record {
        world_size = world_size;
        no_idea1 = no_idea1;
        aux_size = aux_size;
        no_idea2 = no_idea2;
        world_crc = world_crc;
      },
      d5,
    )

  -- `FactorioWorldMetadata::encode`
  unfoldable pub encode_metadata : WorldMetadata → Bytes → Bytes
  encode_metadata m buf = io.put_le 4 m.world_crc (
      io.put_le 4 m.no_idea2
        (io.put_le 4 m.aux_size (io.put_le 4 m.no_idea1 (io.put_le 4 m.world_size buf))))

  -- `ServerToClientHeartbeatPacket::decode`; the number of the sequence is read and dropped.
  pub decode_heartbeat : Bytes → Outcome Heartbeat
  decode_heartbeat bytes = do
    (flags, d1) ← io.get_le 1 bytes
    (_, d2) ← io.get_le 4 d1
    ok (record { flags = flags; bytes = d2 })

  -- `ServerToClientHeartbeatPacket::try_decode_map_ready`: only `HasSynchronizerActions` (0x10)
  -- is set, there is an action, and the first action is `MAP_READY_FOR_DOWNLOAD_ACTION_ID` (5).
  pub decode_map_ready : Heartbeat → Outcome (Option WorldMetadata)
  decode_map_ready h =
      if h.flags == 16
      then (do
        (action_count, d1) ← get_varint32 h.bytes
        if ltb 0 action_count
            then (do
              (action_type, d2) ← io.get_le 1 d1
              if action_type == 5 then (do (m, _) ← decode_metadata d2; ok (some m)) else ok none)
            else ok none)
      else ok none
