-- ===== src/Dsp/Nebula/Whole.antt =====
-- dsp-nebula-cacher/src/nebula_protocol: a packet, from the one side of the proxies to the other.
use factory_cacher.Base.{
  ℕ, suc, ◌^◌, ◌≤◌, ◌<◌, ◌≡◌, refl, sym, ap, ap₂, ◌∙◌, max, List, [], ◌∷◌, ◌++◌, length, take, drop,
  concat, Outcome, ok, subst, lt→ltb, arith, append_assoc, append-nil,
}
use factory_cacher.Base.Words.{Bytes, le_bytes}
use factory_cacher.Extern.Blake3.{Blake3}
use factory_cacher.Extern.ByteBuf.{ByteBuf}
use factory_cacher.Extern.XxHash.{XxHash}
use factory_cacher.Dedup.{ChunkMap, map_provider}
use factory_cacher.Dedup.Levels.{Keyed}
use factory_cacher.Dedup.Rebuild.{NoCollision, reconstruct_data-Yields}
use factory_cacher.Dsp.Lz4.{framed_size}
use factory_cacher.Dsp.Lz4.Spec.{frame}
use factory_cacher.Dsp.Nebula.{
  Header, global_game_data, factory_data, dyson_sphere_data, Packet, global_game_packet,
  factory_packet, dyson_sphere_packet, approx_size, deconstruct, reconstruct, packet_start, try_u32,
  game_data_packet_id, factory_data_packet_id, dyson_sphere_data_packet_id,
}
use factory_cacher.Dsp.Nebula.Rebuild.{reconstruct_lz4_data-sends}
use factory_cacher.Dsp.Nebula.Packets.{start_bytes, Trails, IsApart, deconstruct-TakesApart}

concat-append : (xs ys : List Bytes) → concat (xs ++ ys) ≡ concat xs ++ concat ys
concat-append [] ys = refl
concat-append (x ∷ xs) ys =
    ap (◌++◌ x) (concat-append xs ys) ∙ sym (append_assoc x (concat xs) (concat ys))

module _ (io : ByteBuf) (blake : Blake3) (xx : XxHash) where
  put_one : (w x : ℕ) → io.put_le w x [] ≡ le_bytes w x
  put_one w x = io.put_le_lem w x []

  packet_start-le_bytes :
      (packet_id w first size : ℕ)
      → framed_size size < 2 ^ 32
      → packet_start io xx map_provider packet_id w first size
        ≡ ok (le_bytes 8 packet_id ++ le_bytes w first ++ le_bytes 4 (framed_size size))
  unfolding packet_start try_u32
  packet_start-le_bytes packet_id w first size fits =
      rw
        (
          lt→ltb (framed_size size) (2 ^ 32) fits,
          io.put_le_lem 8 packet_id [],
          io.put_le_lem w first (le_bytes 8 packet_id),
          io.put_le_lem 4 (framed_size size) (le_bytes 8 packet_id ++ le_bytes w first),
        )
        refl

  -- A packet that is put together from stored chunks: its fragments, one after the other.
  abbrev pub PutsTogether : Header → Bytes → Bytes → Packet → ChunkMap → Type 0
  PutsTogether header bytes kept packet chunks =
      (fuel : ℕ) × (fragments : List Bytes) × (reconstruct io xx map_provider fuel packet chunks
        ≡ ok (fragments, chunks))
      × (concat fragments
          ≡ start_bytes header (framed_size (length bytes)) ++ frame xx bytes ++ kept)

  module _ (chunks : ChunkMap) (keyed : Keyed io blake chunks) (distinct : NoCollision blake chunks)
      (bytes : Bytes) (small : length bytes < 2 ^ 63)
      (fits : framed_size (length bytes) < 2 ^ 32) where
    abbrev frame_size : ℕ
    frame_size = framed_size (length bytes)

    behind_start :
        (header : Header) (fragments later : List Bytes) (kept : Bytes)
        → concat fragments ≡ frame xx bytes
        → concat later ≡ kept
        → concat (start_bytes header frame_size ∷ (fragments ++ later))
          ≡ start_bytes header frame_size ++ frame xx bytes ++ kept
    behind_start header fragments later kept whole is =
        ap (◌++◌ (start_bytes header frame_size))
          (concat-append fragments later ∙ ap₂ ◌++◌ whole is)
        ∙ sym (append_assoc (start_bytes header frame_size) (frame xx bytes) kept)

    reconstruct-PutsTogether :
        (header : Header) (kept : Bytes) (packet : Packet)
        → IsApart header bytes kept packet chunks
        → PutsTogether header bytes kept packet chunks
    unfolding reconstruct start_bytes
    reconstruct-PutsTogether (global_game_data d n) kept (global_game_packet first size list)
          (same, sized, nothing, level, node) =
        let (fragments, run, whole, _) =
          reconstruct_lz4_data-sends io blake xx level (suc level) list bytes chunks (omega arith)
            node keyed distinct small in
        (
          suc level,
          start_bytes (global_game_data d n) frame_size ∷ fragments,
          rw (same, sized, packet_start-le_bytes game_data_packet_id 1 d (length bytes) fits, run)
              refl,
          ap (◌++◌ (start_bytes (global_game_data d n) frame_size)) whole
              ∙ sym (append-nil _)
              ∙ ap
                  (λ (k : Bytes).
                    start_bytes (global_game_data d n) frame_size ++ frame xx bytes ++ k)
                  (sym nothing),
        )
    reconstruct-PutsTogether (factory_data d n) kept
          (factory_packet first size list terrain_size terrain_list)
          (same, sized, level, node, terrain, is, level', node') =
        let fuel : ℕ = suc (max level level') in
        let (fragments, run, whole, _) =
          reconstruct_lz4_data-sends io blake xx level fuel list bytes chunks (omega arith) node
            keyed distinct small in
        let (pieces, run', joined) =
          reconstruct_data-Yields io blake chunks keyed distinct level' fuel terrain_list terrain
            (omega arith) node' in
        (
          fuel,
          start_bytes (factory_data d n) frame_size
              ∷ (fragments ++ (le_bytes 4 terrain_size ∷ pieces)),
          rw
              (
                same,
                sized,
                packet_start-le_bytes factory_data_packet_id 4 d (length bytes) fits,
                run,
                run',
                put_one 4 terrain_size,
              )
              refl,
          behind_start (factory_data d n) fragments (le_bytes 4 terrain_size ∷ pieces) kept whole
              (ap (◌++◌ (le_bytes 4 terrain_size)) joined ∙ sym is),
        )
    reconstruct-PutsTogether (dyson_sphere_data d n) kept
          (dyson_sphere_packet first size list event_type) (same, sized, is, level, node) =
        let (fragments, run, whole, _) =
          reconstruct_lz4_data-sends io blake xx level (suc level) list bytes chunks (omega arith)
            node keyed distinct small in
        (
          suc level,
          start_bytes (dyson_sphere_data d n) frame_size
              ∷ (fragments ++ le_bytes 4 event_type ∷ []),
          rw
              (
                same,
                sized,
                packet_start-le_bytes dyson_sphere_data_packet_id 4 d (length bytes) fits,
                run,
                put_one 4 event_type,
              )
              refl,
          behind_start (dyson_sphere_data d n) fragments (le_bytes 4 event_type ∷ []) kept whole
              (append-nil (le_bytes 4 event_type) ∙ sym is),
        )
    reconstruct-PutsTogether (global_game_data d n) kept (factory_packet a b c e f) apart =
        absurd apart
    reconstruct-PutsTogether (global_game_data d n) kept (dyson_sphere_packet a b c e) apart =
        absurd apart
    reconstruct-PutsTogether (factory_data d n) kept (global_game_packet a b c) apart = absurd apart
    reconstruct-PutsTogether (factory_data d n) kept (dyson_sphere_packet a b c e) apart =
        absurd apart
    reconstruct-PutsTogether (dyson_sphere_data d n) kept (global_game_packet a b c) apart =
        absurd apart
    reconstruct-PutsTogether (dyson_sphere_data d n) kept (factory_packet a b c e f) apart =
        absurd apart

-- The chunks that a packet was taken apart into.
abbrev pub chunks_of : Outcome (Packet × ChunkMap) → ChunkMap
chunks_of (ok (packet, chunks)) = chunks
chunks_of _ = []

-- Of a packet that is long enough, whose frame decodes to data below 2 ^ 63 bytes with a new frame
-- below 2 ^ 32 bytes, and behind whose frame stands what its type has there: it is taken apart, and
-- if no two of its chunks have one hash, then putting it together from them, with some fuel, sends
-- fragments that make up the start of the same packet with the length of the new frame, one frame
-- over the same data, and the same bytes of its type behind it.
pub reconstruct-deconstruct :
    (io : ByteBuf) (blake : Blake3) (xx : XxHash) (decompress_lz4 : Bytes → Outcome Bytes)
    (header : Header) (packet_data bytes kept : Bytes)
    → approx_size header ≤ length packet_data
    → decompress_lz4 (take (approx_size header) packet_data) ≡ ok bytes
    → length bytes < 2 ^ 63
    → framed_size (length bytes) < 2 ^ 32
    → Trails header kept (drop (approx_size header) packet_data)
    → NoCollision blake (chunks_of (deconstruct io blake decompress_lz4 header packet_data []))
    → (packet : Packet) × (chunks : ChunkMap) × (deconstruct io blake decompress_lz4 header
          packet_data []
        ≡ ok (packet, chunks))
      × PutsTogether io blake xx header bytes kept packet chunks
reconstruct-deconstruct io blake xx decompress_lz4 header packet_data bytes kept long decoded small
      fits trails distinct =
    let parts =
      deconstruct-TakesApart io blake decompress_lz4 header packet_data bytes kept [] long decoded
        trails tt in
    (
      parts.packet,
      parts.chunks,
      parts.run,
      reconstruct-PutsTogether io blake xx parts.chunks parts.keyed
          (subst (λ (o : Outcome (Packet × ChunkMap)). NoCollision blake (chunks_of o)) parts.run
            distinct)
          bytes small fits header kept parts.packet parts.apart,
    )
