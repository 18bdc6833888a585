-- ===== src/Dedup/Tests.antt =====
-- common/src/dedup.rs: the theorems on a store with one chunk.
use factory_cacher.Base.{
  ℕ, ◌≡◌, refl, sym, ◌∙◌, true, List, [], ◌∷◌, concat, ok, ◌>>=◌, inl, inr, arith,
}
use factory_cacher.Base.Words.{Bytes}
use factory_cacher.Extern.Blake3.{number_hash}
use factory_cacher.Extern.ByteBuf.{list_buf}
use factory_cacher.Chunker.Tests.{one_chunk}
use factory_cacher.Dedup.{
  ChunkList, ChunkMap, ChunkKey, chunk_data, add_chunks, add_chunk, split_levels, push_chunk,
  new_empty, is_split_point, min_chunks_in_list, finish_levels, map_provider, reconstruct_data,
  encode, decode, minimize_chunk_list,
}
use factory_cacher.Dedup.Build.{chunk_data-Finished, minimize_chunk_list-Finished}
use factory_cacher.Dedup.Codec.{decode-encode}
use factory_cacher.Dedup.Content.{IsNode}
use factory_cacher.Dedup.Levels.{Keyed}
use factory_cacher.Dedup.Rebuild.{NoCollision, reconstruct_data-chunk_data}
use factory_cacher.Dedup.Prefetch.{prefetch_metadata_chunks}
use factory_cacher.Dedup.Prefetch.Ends.{prefetch_metadata_chunks-ends}

abbrev pub three : Bytes
three = 1 ∷ 2 ∷ 3 ∷ []

abbrev pub three_key : ChunkKey
three_key = number_hash.hash three

abbrev pub three_list : ChunkList
three_list = record { is_leaf = true; chunks = three_key ∷ [] }

abbrev pub three_chunks : ChunkMap
three_chunks = (three_key, three) ∷ []

pub three-IsNode : IsNode three_chunks 0 three_list three
three-IsNode = record {
  leaf = refl;
  keys = (number_hash.length-hash three, tt);
  small = omega arith;
  content = (three, [], refl, inl (refl, refl), refl);
}

pub three-NoCollision : NoCollision number_hash three_chunks
three-NoCollision k l a b (inl (_, e)) (inl (_, f)) same = e ∙ sym f
three-NoCollision k l a b (inr h) _ same = absurd h
three-NoCollision k l a b (inl e) (inr h) same = absurd h

pub three_stored : chunk_data list_buf number_hash three [] ≡ ok (three_list, three_chunks)
unfolding chunk_data add_chunks add_chunk split_levels push_chunk new_empty is_split_point
    min_chunks_in_list finish_levels
three_stored = rw (one_chunk, add_chunks) refl

reconstruct_data-chunk_data_example :
    (fuel : ℕ) × (pieces : List Bytes) × (reconstruct_data list_buf map_provider fuel three_list
        three_chunks
      ≡ ok (pieces, three_chunks))
    × (concat pieces ≡ three)
reconstruct_data-chunk_data_example =
    reconstruct_data-chunk_data list_buf number_hash three [] three_chunks three_list tt
      three_stored three-NoCollision

chunk_data-Finished_example :
    (root : ChunkList) × (chunks : ChunkMap) × (level : ℕ) × (chunk_data list_buf number_hash three
        []
      ≡ ok (root, chunks))
    × IsNode chunks level root three
    × Keyed list_buf number_hash chunks
chunk_data-Finished_example = chunk_data-Finished list_buf number_hash three [] tt

minimize_chunk_list-Finished_example :
    (root : ChunkList) × (chunks : ChunkMap) × (level : ℕ) × (minimize_chunk_list list_buf
        number_hash three_list three_chunks
      ≡ ok (root, chunks))
    × IsNode chunks level root three
    × Keyed list_buf number_hash chunks
minimize_chunk_list-Finished_example =
    minimize_chunk_list-Finished list_buf number_hash 0 three_list three_chunks three three-IsNode
      (refl, tt)

decode-encode_example : (encode list_buf three_list >>= decode list_buf) ≡ ok three_list
decode-encode_example =
    decode-encode list_buf three_list (omega arith) (number_hash.length-hash three, tt)

prefetch_metadata_chunks-ends_example :
    prefetch_metadata_chunks list_buf map_provider 1 (three_list ∷ []) three_chunks
    ≡ ok three_chunks
prefetch_metadata_chunks-ends_example =
    prefetch_metadata_chunks-ends list_buf number_hash three_chunks (refl, tt) three-NoCollision 1
      (three_list ∷ []) ((0, three, omega arith, three-IsNode), tt)

pub three_short :
    minimize_chunk_list list_buf number_hash three_list three_chunks ≡ ok (three_list, three_chunks)
unfolding minimize_chunk_list
three_short = refl
