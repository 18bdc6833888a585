-- ===== src/Dsp/Nebula.antt =====
-- dsp-nebula-cacher/src/nebula_protocol: the three packets of the game that carry LZ4 frames, taken
-- apart into chunk lists by one proxy and put together by the other; and the indicator of
-- dsp-nebula-cacher/src/protocol.rs. What goes into `out_sink` is the list of the fragments.
pub mod Rebuild
pub mod Packets
pub mod Whole
pub mod Indicator
use Prim.Native.Nat.{bit_xor}
use factory_cacher.Base.{
  ℕ, zero, suc, ◌*◌, ◌%◌, ◌^◌, Option, none, some, List, [], ◌∷◌, ◌++◌, ltb, ◌==◌, if◌then◌else◌,
  length, take, drop, Outcome, ok, err, panic, stuck, ◌>>=◌, ◌>>◌, guard, packet_too_short,
  number_too_large,
}
use factory_cacher.Base.HashMap.{HashMap}
use factory_cacher.Base.Words.{Bytes, same_bytes}
use factory_cacher.Extern.Blake3.{Blake3}
use factory_cacher.Extern.ByteBuf.{ByteBuf}
use factory_cacher.Extern.XxHash.{XxHash}
use factory_cacher.Dedup.{
  ChunkKey, ChunkList, ChunkMap, ChunkProvider, chunk_data, reconstruct_data,
}
use factory_cacher.Dedup.Prefetch.{prefetch_metadata_chunks}
use factory_cacher.Dsp.Lz4
use factory_cacher.Dsp.Lz4.{send_fragments, framed_size}

-- The loop of `fnv1_hash`.
pub fnv1_loop : ℕ → Bytes → ℕ
fnv1_loop hash [] = hash
fnv1_loop hash (byte ∷ bytes) = fnv1_loop (bit_xor hash byte * 1099511628211 % 2 ^ 64) bytes

-- `fnv1_hash`
pub fnv1_hash : Bytes → ℕ
fnv1_hash bytes = fnv1_loop 14695981039346656037 bytes

-- The names of the packets' classes.
pub game_data_name : Bytes
game_data_name =
    78 ∷ 101 ∷ 98 ∷ 117 ∷ 108 ∷ 97 ∷ 77 ∷ 111 ∷ 100 ∷ 101 ∷ 108 ∷ 46 ∷ 80 ∷ 97 ∷ 99 ∷ 107 ∷ 101
    ∷ 116 ∷ 115 ∷ 46 ∷ 83 ∷ 101 ∷ 115 ∷ 115 ∷ 105 ∷ 111 ∷ 110 ∷ 46 ∷ 71 ∷ 108 ∷ 111 ∷ 98 ∷ 97 ∷ 108
    ∷ 71 ∷ 97 ∷ 109 ∷ 101 ∷ 68 ∷ 97 ∷ 116 ∷ 97 ∷ 82 ∷ 101 ∷ 115 ∷ 112 ∷ 111 ∷ 110 ∷ 115 ∷ 101 ∷ []

pub factory_data_name : Bytes
factory_data_name =
    78 ∷ 101 ∷ 98 ∷ 117 ∷ 108 ∷ 97 ∷ 77 ∷ 111 ∷ 100 ∷ 101 ∷ 108 ∷ 46 ∷ 80 ∷ 97 ∷ 99 ∷ 107 ∷ 101
    ∷ 116 ∷ 115 ∷ 46 ∷ 80 ∷ 108 ∷ 97 ∷ 110 ∷ 101 ∷ 116 ∷ 46 ∷ 70 ∷ 97 ∷ 99 ∷ 116 ∷ 111 ∷ 114 ∷ 121
    ∷ 68 ∷ 97 ∷ 116 ∷ 97 ∷ []

pub dyson_sphere_data_name : Bytes
dyson_sphere_data_name =
    78 ∷ 101 ∷ 98 ∷ 117 ∷ 108 ∷ 97 ∷ 77 ∷ 111 ∷ 100 ∷ 101 ∷ 108 ∷ 46 ∷ 80 ∷ 97 ∷ 99 ∷ 107 ∷ 101
    ∷ 116 ∷ 115 ∷ 46 ∷ 85 ∷ 110 ∷ 105 ∷ 118 ∷ 101 ∷ 114 ∷ 115 ∷ 101 ∷ 46 ∷ 68 ∷ 121 ∷ 115 ∷ 111
    ∷ 110 ∷ 83 ∷ 112 ∷ 104 ∷ 101 ∷ 114 ∷ 101 ∷ 68 ∷ 97 ∷ 116 ∷ 97 ∷ []

-- `GAME_DATA_PACKET_ID`, `FACTORY_DATA_PACKET_ID`, `DYSON_SPHERE_DATA_PACKET_ID`
unfoldable pub game_data_packet_id : ℕ
game_data_packet_id = fnv1_hash game_data_name

unfoldable pub factory_data_packet_id : ℕ
factory_data_packet_id = fnv1_hash factory_data_name

unfoldable pub dyson_sphere_data_packet_id : ℕ
dyson_sphere_data_packet_id = fnv1_hash dyson_sphere_data_name

-- `NebulaPacketHeader`: the data type, planet or star, and the length of the LZ4 frame.
pub data Header : Type 0 where
  global_game_data : ℕ → ℕ → Header
  factory_data : ℕ → ℕ → Header
  dyson_sphere_data : ℕ → ℕ → Header

-- `approx_size`
unfoldable pub approx_size : Header → ℕ
approx_size (global_game_data data_type data_length) = data_length
approx_size (factory_data planet_id data_length) = data_length
approx_size (dyson_sphere_data star_index data_length) = data_length

-- `NebulaPacket`: the same, with the length of the data, its chunk list, and what follows it.
pub data Packet : Type 0 where
  global_game_packet : ℕ → ℕ → ChunkList → Packet
  factory_packet : ℕ → ℕ → ChunkList → ℕ → ChunkList → Packet
  dyson_sphere_packet : ℕ → ℕ → ChunkList → ℕ → Packet

-- `try_split_to`
unfoldable pub try_split_to : Bytes → ℕ → Outcome (Bytes × Bytes)
try_split_to packet_data data_length =
    if ltb (length packet_data) data_length
    then err packet_too_short
    else ok (take data_length packet_data, drop data_length packet_data)

-- `.try_into()?` to a u32
pub try_u32 : ℕ → Outcome ℕ
try_u32 n = if ltb n (2 ^ 32) then ok n else err number_too_large

module _ (io : ByteBuf) where
  -- The `decode` of the three headers, with what is left of the buffer: `w` is the width of the
  -- first number.
  pub decode_fields : ℕ → (ℕ → ℕ → Header) → Bytes → Outcome (Option Header × Bytes)
  decode_fields w header buf = do
    (first, b1) ← io.get_le w buf
    (data_length, b2) ← io.get_le 4 b1
    ok (some (header first data_length), b2)

  -- `NebulaPacketHeader::decode`
  pub decode_header : Bytes → Outcome (Option Header × Bytes)
  decode_header buf = do
    (packet_type, b1) ← io.get_le 8 buf
    let game = decode_fields 1 global_game_data b1
    let factory = decode_fields 4 factory_data b1
    let sphere = decode_fields 4 dyson_sphere_data b1
    if packet_type == game_data_packet_id
        then game
        else if packet_type == factory_data_packet_id
        then factory
        else if packet_type == dyson_sphere_data_packet_id
        then sphere
        else ok (none, b1)

  module _ (blake : Blake3) (decompress_lz4 : Bytes → Outcome Bytes) where
    -- `deconstruct_lz4_data`: the chunk list, the length of the data, the rest of the packet and
    -- the chunks. The frame is decoded by the `lz4_flex` crate.
    unfoldable pub deconstruct_lz4_data :
        Bytes → ℕ → ChunkMap → Outcome (ChunkList × ℕ × Bytes × ChunkMap)
    deconstruct_lz4_data packet_data data_length all_chunks = do
      (compressed_data, rest) ← try_split_to packet_data data_length
      decompressed_data ← decompress_lz4 compressed_data
      (chunk_list, all_chunks') ← chunk_data io blake decompressed_data all_chunks
      ok (chunk_list, length decompressed_data, rest, all_chunks')

    -- `NebulaPacketHeader::deconstruct`, with that of the three packets.
    unfoldable pub deconstruct : Header → Bytes → ChunkMap → Outcome (Packet × ChunkMap)
    deconstruct (global_game_data data_type data_length) packet_data all_chunks = do
      (list, size, _, chunks1) ← deconstruct_lz4_data packet_data data_length all_chunks
      ok (global_game_packet data_type size list, chunks1)
    deconstruct (factory_data planet_id data_length) packet_data all_chunks = do
      (list, size, rest, chunks1) ← deconstruct_lz4_data packet_data data_length all_chunks
      (terrain_data_length, rest1) ← io.get_le 4 rest
      (terrain_data, _) ← try_split_to rest1 terrain_data_length
      (terrain_list, chunks2) ← chunk_data io blake terrain_data chunks1
      ok (factory_packet planet_id size list terrain_data_length terrain_list, chunks2)
    deconstruct (dyson_sphere_data star_index data_length) packet_data all_chunks = do
      (list, size, rest, chunks1) ← deconstruct_lz4_data packet_data data_length all_chunks
      (event_type, _) ← io.get_le 4 rest
      ok (dyson_sphere_packet star_index size list event_type, chunks1)

  module _ (xx : XxHash) {P : Type 0} (provider : ChunkProvider P) where
    -- `reconstruct_lz4_data`: the fragments that are sent. The fuel bounds the levels of the tree.
    pub reconstruct_lz4_data : ℕ → ChunkList → P → Outcome (List Bytes × P)
    reconstruct_lz4_data fuel chunk_list p = do
      p1 ← prefetch_metadata_chunks io provider fuel (chunk_list ∷ []) p
      (chunks, p2) ← reconstruct_data io provider fuel chunk_list p1
      ok (send_fragments io xx (Lz4.new io xx) chunks, p2)

    -- The start of a packet that is put together: its id, its number and the length of the frame.
    pub packet_start : ℕ → ℕ → ℕ → ℕ → Outcome Bytes
    packet_start packet_id w first size = do
      data_length ← try_u32 (framed_size size)
      ok (io.put_le 4 data_length (io.put_le w first (io.put_le 8 packet_id [])))

    -- `NebulaPacket::reconstruct`, with that of the three packets.
    pub reconstruct : ℕ → Packet → P → Outcome (List Bytes × P)
    reconstruct fuel (global_game_packet data_type size list) p = do
      start ← packet_start game_data_packet_id 1 data_type size
      (fragments, p1) ← reconstruct_lz4_data fuel list p
      ok (start ∷ fragments, p1)
    reconstruct fuel (factory_packet planet_id size list terrain_data_length terrain_list) p = do
      start ← packet_start factory_data_packet_id 4 planet_id size
      (fragments, p1) ← reconstruct_lz4_data fuel list p
      (terrain, p2) ← reconstruct_data io provider fuel terrain_list p1
      ok (start ∷ (fragments ++ (io.put_le 4 terrain_data_length [] ∷ terrain)), p2)
    reconstruct fuel (dyson_sphere_packet star_index size list event_type) p = do
      start ← packet_start dyson_sphere_data_packet_id 4 star_index size
      (fragments, p1) ← reconstruct_lz4_data fuel list p
      ok (start ∷ (fragments ++ io.put_le 4 event_type [] ∷ []), p1)

-- `MAGIC_NUMBER` of `StartDedupIndicator`
unfoldable pub magic_number : Bytes
magic_number =
    23 ∷ 248 ∷ 74 ∷ 200 ∷ 151 ∷ 179 ∷ 103 ∷ 105 ∷ 149 ∷ 184 ∷ 245 ∷ 251 ∷ 195 ∷ 161 ∷ 12 ∷ 155 ∷ 237
    ∷ 160 ∷ 42 ∷ 171 ∷ 14 ∷ 62 ∷ 117 ∷ 46 ∷ 139 ∷ 70 ∷ 161 ∷ 175 ∷ 64 ∷ 207 ∷ 134 ∷ 15 ∷ []

module _ (io : ByteBuf) where
  -- `StartDedupIndicator::decode`, of which only the id is there.
  pub decode_indicator : Bytes → Option ℕ
  decode_indicator buf =
      if same_bytes (take (length magic_number) buf) magic_number
      then elim (io.get_be 8 (drop (length magic_number) buf)) [
        | ok (dedup_id, _) ↦ some dedup_id
        | _ ↦ none
      ]
      else none

  -- `StartDedupIndicator::encode`
  pub encode_indicator : ℕ → Bytes → Bytes
  encode_indicator dedup_id buf = io.put_be 8 dedup_id (buf ++ magic_number)
