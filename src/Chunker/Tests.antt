-- ===== src/Chunker/Tests.antt =====
-- common/src/chunker.rs: its theorems on concrete data.
use factory_cacher.Base.{◌≡◌, refl, [], ◌∷◌, ◌++◌, concat}
use factory_cacher.Base.Words.{Bytes}
use factory_cacher.Chunker.{chunks, collect, new, next, scan, min_chunk_size}
use factory_cacher.Chunker.Partition.{SizesInRange, chunks-partition}
use factory_cacher.Chunker.Stability.{chunks-append}

abbrev pub three : Bytes
three = 1 ∷ 2 ∷ 3 ∷ []

pub one_chunk : chunks three ≡ three ∷ []
unfolding chunks new collect next min_chunk_size scan
one_chunk = refl

chunks-partition_example : (concat (chunks three) ≡ three) × SizesInRange (chunks three)
chunks-partition_example = chunks-partition three

chunks-append_example : chunks (three ++ 4 ∷ []) ≡ [] ++ chunks (three ++ 4 ∷ [])
chunks-append_example = chunks-append [] three three (4 ∷ []) one_chunk
