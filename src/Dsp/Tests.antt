-- ===== src/Dsp/Tests.antt =====
-- dsp-nebula-cacher/src: the theorems at concrete inputs.
use factory_cacher.Base.{
  ◌≡◌, refl, sym, subst, Outcome, ◌^◌, ◌<◌, List, [], ◌∷◌, ◌++◌, concat, length, ok, some, arith,
}
use factory_cacher.Base.Words.{Bytes}
use factory_cacher.Extern.Blake3.{number_hash}
use factory_cacher.Extern.ByteBuf.{list_buf}
use factory_cacher.Extern.XxHash.{sum_hash}
use factory_cacher.Dedup.{ChunkMap, map_provider}
use factory_cacher.Dedup.Tests.{
  three, three_list, three_chunks, three-IsNode, three-NoCollision, three_stored,
}
use factory_cacher.Dedup.Rebuild.{NoCollision}
use factory_cacher.Dsp.Lz4
use factory_cacher.Dsp.Lz4.{send_fragments, framed_size, max_block_size}
use factory_cacher.Dsp.Lz4.Spec.{frame}
use factory_cacher.Dsp.Lz4.Frame.{send_fragments-frame}
use factory_cacher.Dsp.Lz4.Size.{framed_size-send_fragments}
use factory_cacher.Dsp.Nebula.{
  Header, global_game_data, Packet, global_game_packet, approx_size, deconstruct,
  deconstruct_lz4_data, try_split_to, reconstruct_lz4_data, decode_indicator, encode_indicator,
}
use factory_cacher.Dsp.Nebula.Indicator.{decode_indicator-encode_indicator}
use factory_cacher.Dsp.Nebula.Rebuild.{reconstruct_lz4_data-frame}
use factory_cacher.Dsp.Nebula.Whole.{PutsTogether, chunks_of, reconstruct-deconstruct}

abbrev pieces : List Bytes
pieces = (1 ∷ 2 ∷ []) ∷ (3 ∷ []) ∷ []

send_fragments-frame_example :
    concat (send_fragments list_buf sum_hash (Lz4.new list_buf sum_hash) pieces)
    ≡ frame sum_hash (1 ∷ 2 ∷ 3 ∷ [])
send_fragments-frame_example = send_fragments-frame list_buf sum_hash pieces

framed_size-send_fragments_example :
    length (concat (send_fragments list_buf sum_hash (Lz4.new list_buf sum_hash) pieces))
    ≡ framed_size 3
framed_size-send_fragments_example =
    framed_size-send_fragments list_buf sum_hash pieces (omega arith)

decode_indicator-encode_indicator_example :
    decode_indicator list_buf (encode_indicator list_buf 77 [] ++ 9 ∷ []) ≡ some 77
decode_indicator-encode_indicator_example =
    decode_indicator-encode_indicator list_buf 77 (9 ∷ []) (omega arith)

abbrev game_header : Header
game_header = global_game_data 5 3

abbrev game_data : Bytes
game_data = 1 ∷ 2 ∷ 3 ∷ 4 ∷ []

reconstruct_lz4_data-frame_example :
    (fragments : List Bytes) × (reconstruct_lz4_data list_buf sum_hash map_provider 1 three_list
        three_chunks
      ≡ ok (fragments, three_chunks))
    × (concat fragments ≡ frame sum_hash three)
    × (length (concat fragments) ≡ framed_size 3)
reconstruct_lz4_data-frame_example =
    reconstruct_lz4_data-frame list_buf number_hash sum_hash 0 three_list three three_chunks
      three-IsNode (refl, tt) three-NoCollision (omega arith)

game_stored :
    deconstruct list_buf number_hash ok game_header game_data []
    ≡ ok (global_game_packet 5 3 three_list, three_chunks)
unfolding deconstruct deconstruct_lz4_data try_split_to
game_stored = rw three_stored refl

three_small : framed_size 3 < 2 ^ 32
unfolding framed_size max_block_size
three_small = omega arith

reconstruct-deconstruct_example :
    (packet : Packet) × (chunks : ChunkMap) × (deconstruct list_buf number_hash ok game_header
        game_data []
      ≡ ok (packet, chunks))
    × PutsTogether list_buf number_hash sum_hash game_header three [] packet chunks
unfolding approx_size
reconstruct-deconstruct_example =
    reconstruct-deconstruct list_buf number_hash sum_hash ok game_header game_data three []
      (omega arith) refl (omega arith) three_small refl
      (subst (λ (o : Outcome (Packet × ChunkMap)). NoCollision number_hash (chunks_of o))
        (sym game_stored) three-NoCollision)
