-- ===== src/Dsp/Nebula/Packets.antt =====
-- dsp-nebula-cacher/src/nebula_protocol: each of the three packets, taken apart by one proxy and
-- put together by the other.
use factory_cacher.Base.{
  ℕ, ◌^◌, ◌≤◌, ◌<◌, ◌≡◌, refl, ap, ◌∙◌, [], ◌++◌, length, take, drop, Outcome, ok, not-lt→ltb,
  arith, append_assoc, take-append_left, length-append,
}
use factory_cacher.Base.Words.{Bytes, le_bytes}
use factory_cacher.Extern.Blake3.{Blake3}
use factory_cacher.Extern.ByteBuf.{ByteBuf, get_le-append}
use factory_cacher.Dedup.{ChunkMap, chunk_data}
use factory_cacher.Dedup.Build.{chunk_data-Finished}
use factory_cacher.Dedup.Content.{IsNode}
use factory_cacher.Dedup.Grows.{IsNode-Grows, OkGrows→Grows, chunk_data-OkGrows}
use factory_cacher.Dedup.Levels.{Keyed}
use factory_cacher.Dsp.Nebula.{
  Header, global_game_data, factory_data, dyson_sphere_data, Packet, global_game_packet,
  factory_packet, dyson_sphere_packet, approx_size, deconstruct, try_split_to, game_data_packet_id,
  factory_data_packet_id, dyson_sphere_data_packet_id,
}
use factory_cacher.Dsp.Nebula.Rebuild.{deconstruct_lz4_data-IsNode}

-- The start of a packet, with the length of its frame.
unfoldable pub start_bytes : Header → ℕ → Bytes
start_bytes (global_game_data data_type n) data_length =
    le_bytes 8 game_data_packet_id ++ le_bytes 1 data_type ++ le_bytes 4 data_length
start_bytes (factory_data planet_id n) data_length =
    le_bytes 8 factory_data_packet_id ++ le_bytes 4 planet_id ++ le_bytes 4 data_length
start_bytes (dyson_sphere_data star_index n) data_length =
    le_bytes 8 dyson_sphere_data_packet_id ++ le_bytes 4 star_index ++ le_bytes 4 data_length

-- What stands behind the frame in a packet, and what of it the proxies keep: nothing, the terrain
-- with its length, or the type of an event.
abbrev pub Trails : Header → Bytes → Bytes → Type 0
Trails (global_game_data data_type n) kept rest = kept ≡ []
Trails (factory_data planet_id n) kept rest =
    (terrain : Bytes) × (more : Bytes) × (length terrain < 2 ^ 32)
    × (kept ≡ le_bytes 4 (length terrain) ++ terrain)
    × (rest ≡ kept ++ more)
Trails (dyson_sphere_data star_index n) kept rest =
    (event_type : ℕ) × (more : Bytes) × (event_type < 2 ^ 32)
    × (kept ≡ le_bytes 4 event_type)
    × (rest ≡ kept ++ more)

-- A packet that was taken apart, with its data and what is kept behind it.
abbrev pub IsApart : Header → Bytes → Bytes → Packet → ChunkMap → Type 0
IsApart (global_game_data data_type n) bytes kept (global_game_packet first size list) chunks =
    (first ≡ data_type)
    × (size ≡ length bytes)
    × (kept ≡ [])
    × (level : ℕ) × IsNode chunks level list bytes
IsApart (factory_data planet_id n) bytes kept
      (factory_packet first size list terrain_size terrain_list) chunks =
    (first ≡ planet_id)
    × (size ≡ length bytes)
    × (level : ℕ) × IsNode chunks level list bytes
    × (terrain : Bytes) × (kept ≡ le_bytes 4 terrain_size ++ terrain)
    × (level' : ℕ) × IsNode chunks level' terrain_list terrain
IsApart (dyson_sphere_data star_index n) bytes kept (dyson_sphere_packet first size list event_type)
      chunks =
    (first ≡ star_index)
    × (size ≡ length bytes)
    × (kept ≡ le_bytes 4 event_type)
    × (level : ℕ) × IsNode chunks level list bytes
IsApart _ bytes kept _ chunks = ⊥

module _ (io : ByteBuf) (blake : Blake3) (decompress_lz4 : Bytes → Outcome Bytes) where
  pub record TakesApart (header : Header) (packet_data bytes kept : Bytes) (m : ChunkMap)
      : Type 0 where
    pub packet : Packet
    pub chunks : ChunkMap
    pub run : deconstruct io blake decompress_lz4 header packet_data m ≡ ok (packet, chunks)
    pub apart : IsApart header bytes kept packet chunks
    pub keyed : Keyed io blake chunks

  pub deconstruct-TakesApart :
      (header : Header) (packet_data bytes kept : Bytes) (m : ChunkMap)
      → approx_size header ≤ length packet_data
      → decompress_lz4 (take (approx_size header) packet_data) ≡ ok bytes
      → Trails header kept (drop (approx_size header) packet_data)
      → Keyed io blake m
      → TakesApart header packet_data bytes kept m
  unfolding deconstruct approx_size try_split_to
  deconstruct-TakesApart (global_game_data data_type n) packet_data bytes kept m long decoded trails
        keyed =
      let (list, m1, level, run, node, keyed1) =
        deconstruct_lz4_data-IsNode io blake decompress_lz4 packet_data n bytes m long decoded
          keyed in
      record {
        packet = global_game_packet data_type (length bytes) list;
        chunks = m1;
        run = rw run refl;
        apart = (refl, refl, trails, level, node);
        keyed = keyed1;
      }
  deconstruct-TakesApart (factory_data planet_id n) packet_data bytes kept m long decoded
        (terrain, more, fits, is, rest_is) keyed =
      let (list, m1, level, run, node, keyed1) =
        deconstruct_lz4_data-IsNode io blake decompress_lz4 packet_data n bytes m long decoded
          keyed in
      let (terrain_list, m2, level2, run2, node2, keyed2) =
        chunk_data-Finished io blake terrain m1 keyed1 in
      let behind : drop n packet_data ≡ le_bytes 4 (length terrain) ++ (terrain ++ more) =
        rest_is
        ∙ ap (λ (k : Bytes). k ++ more) is
        ∙ append_assoc (le_bytes 4 (length terrain)) terrain more in
      record {
        packet = factory_packet planet_id (length bytes) list (length terrain) terrain_list;
        chunks = m2;
        run =
            rw
              (
                run,
                behind,
                get_le-append io 4 (length terrain) (terrain ++ more) (omega arith),
                not-lt→ltb (length (terrain ++ more)) (length terrain)
                    (omega (arith, length-append terrain more)),
                take-append_left (length terrain) terrain more refl,
                run2,
              )
              refl;
        apart = (
          refl,
          refl,
          level,
          IsNode-Grows m1 m2 level list bytes
              (OkGrows→Grows m1 m2 terrain_list (chunk_data io blake terrain m1)
                (chunk_data-OkGrows io blake terrain m1) run2)
              node,
          terrain,
          is,
          level2,
          node2,
        );
        keyed = keyed2;
      }
  deconstruct-TakesApart (dyson_sphere_data star_index n) packet_data bytes kept m long decoded
        (event_type, more, fits, is, rest_is) keyed =
      let (list, m1, level, run, node, keyed1) =
        deconstruct_lz4_data-IsNode io blake decompress_lz4 packet_data n bytes m long decoded
          keyed in
      record {
        packet = dyson_sphere_packet star_index (length bytes) list event_type;
        chunks = m1;
        run = rw (run, rest_is, is, get_le-append io 4 event_type more (omega arith)) refl;
        apart = (refl, refl, is, level, node);
        keyed = keyed1;
      }
