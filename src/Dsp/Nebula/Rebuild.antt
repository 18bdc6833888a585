-- ===== src/Dsp/Nebula/Rebuild.antt =====
-- dsp-nebula-cacher/src/nebula_protocol/mod.rs: the data of a packet, taken apart by one proxy and
-- put together by the other.
use factory_cacher.Base.{
  ℕ, suc, ◌^◌, ◌≤◌, ◌<◌, ◌≡◌, refl, ap, ◌∙◌, List, [], ◌∷◌, length, take, drop, concat, Outcome, ok,
  not-lt→ltb, arith,
}
use factory_cacher.Base.Words.{Bytes}
use factory_cacher.Extern.Blake3.{Blake3}
use factory_cacher.Extern.ByteBuf.{ByteBuf}
use factory_cacher.Extern.XxHash.{XxHash}
use factory_cacher.Dedup.{ChunkList, ChunkMap, map_provider}
use factory_cacher.Dedup.Build.{chunk_data-Finished}
use factory_cacher.Dedup.Content.{IsNode}
use factory_cacher.Dedup.Levels.{Keyed}
use factory_cacher.Dedup.Rebuild.{NoCollision, reconstruct_data-Yields}
use factory_cacher.Dedup.Prefetch.Ends.{prefetch_metadata_chunks-ends}
use factory_cacher.Dsp.Lz4
use factory_cacher.Dsp.Lz4.{send_fragments, framed_size}
use factory_cacher.Dsp.Lz4.Spec.{frame}
use factory_cacher.Dsp.Lz4.Frame.{send_fragments-frame}
use factory_cacher.Dsp.Lz4.Size.{framed_size-send_fragments}
use factory_cacher.Dsp.Nebula.{deconstruct_lz4_data, reconstruct_lz4_data, try_split_to}

-- On a store whose chunks lie under their hashes, a frame at the start of a packet, which is long
-- enough, that decodes to some data is taken apart with no panic: the
-- result has the length of the data, what follows the frame, and a chunk list whose tree of stored
-- chunks holds the data.
pub deconstruct_lz4_data-IsNode :
    (io : ByteBuf) (blake : Blake3) (decompress_lz4 : Bytes → Outcome Bytes) (packet : Bytes)
    (data_length : ℕ) (bytes : Bytes) (chunks : ChunkMap)
    → data_length ≤ length packet
    → decompress_lz4 (take data_length packet) ≡ ok bytes
    → Keyed io blake chunks
    → (list : ChunkList) × (chunks' : ChunkMap) × (level : ℕ) × (deconstruct_lz4_data io blake
          decompress_lz4 packet data_length chunks
        ≡ ok (list, length bytes, drop data_length packet, chunks'))
      × IsNode chunks' level list bytes
      × Keyed io blake chunks'
unfolding deconstruct_lz4_data try_split_to
deconstruct_lz4_data-IsNode io blake decompress_lz4 packet data_length bytes chunks long decoded
      keyed =
    let (list, chunks', level, run, node, keyed') =
      chunk_data-Finished io blake bytes chunks keyed in
    rw (not-lt→ltb (length packet) data_length long, decoded, run)
      (list, chunks', level, refl, node, keyed')

-- With more fuel than levels, the fragments that are sent are a frame.
pub reconstruct_lz4_data-sends :
    (io : ByteBuf) (blake : Blake3) (xx : XxHash) (level fuel : ℕ) (list : ChunkList)
    (bytes : Bytes) (chunks : ChunkMap)
    → level < fuel
    → IsNode chunks level list bytes
    → Keyed io blake chunks
    → NoCollision blake chunks
    → length bytes < 2 ^ 63
    → (fragments : List Bytes) × (reconstruct_lz4_data io xx map_provider fuel list chunks
        ≡ ok (fragments, chunks))
      × (concat fragments ≡ frame xx bytes)
      × (length (concat fragments) ≡ framed_size (length bytes))
unfolding reconstruct_lz4_data
reconstruct_lz4_data-sends io blake xx level fuel list bytes chunks enough node keyed distinct
      small =
    let (pieces, run, joined) =
      reconstruct_data-Yields io blake chunks keyed distinct level fuel list bytes enough node in
    let fetched =
      prefetch_metadata_chunks-ends io blake chunks keyed distinct fuel (list ∷ [])
        ((level, bytes, enough, node), tt) in
    rw (fetched, run)
      (
        send_fragments io xx (Lz4.new io xx) pieces,
        refl,
        send_fragments-frame io xx pieces ∙ ap (frame xx) joined,
        framed_size-send_fragments io xx pieces (rw joined small)
            ∙ ap (λ (b : Bytes). framed_size (length b)) joined,
      )

-- From a chunk list whose tree of stored chunks holds some data below 2 ^ 63 bytes, when the chunks
-- lie under their hashes and no two of them have one hash, the fragments that are sent are one frame over the data, and as many bytes
-- as `framed_size` announces for its length. The levels of the tree are enough fuel.
pub reconstruct_lz4_data-frame :
    (io : ByteBuf) (blake : Blake3) (xx : XxHash) (level : ℕ) (list : ChunkList) (bytes : Bytes)
    (chunks : ChunkMap)
    → IsNode chunks level list bytes
    → Keyed io blake chunks
    → NoCollision blake chunks
    → length bytes < 2 ^ 63
    → (fragments : List Bytes) × (reconstruct_lz4_data io xx map_provider (suc level) list chunks
        ≡ ok (fragments, chunks))
      × (concat fragments ≡ frame xx bytes)
      × (length (concat fragments) ≡ framed_size (length bytes))
reconstruct_lz4_data-frame io blake xx level list bytes chunks node keyed distinct small =
    reconstruct_lz4_data-sends io blake xx level (suc level) list bytes chunks (omega arith) node
      keyed distinct small
