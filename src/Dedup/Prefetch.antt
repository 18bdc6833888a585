-- ===== src/Dedup/Prefetch.antt =====
-- common/src/dedup.rs: `prefetch_metadata_chunks`, which walks the trees of chunk lists level by
-- level, so that a provider that fetches can fetch a level at a time.
pub mod Ends
use factory_cacher.Base.{
  ℕ, zero, suc, Bool, true, false, List, [], ◌∷◌, ◌++◌, Outcome, ok, stuck, ◌>>=◌, if◌then◌else◌,
  map, concat,
}
use factory_cacher.Extern.ByteBuf.{ByteBuf}
use factory_cacher.Dedup.{ChunkKey, ChunkList, ChunkProvider, decode}

-- `flat_map(|chunk_list| chunk_list.chunks().iter())`
pub all_keys : List ChunkList → List ChunkKey
all_keys [] = []
all_keys (list ∷ lists) = list.chunks ++ all_keys lists

module _ (io : ByteBuf) {P : Type 0} (provider : ChunkProvider P) where
  -- The inner loop: the child lists of a list.
  pub fetch_children : List ChunkKey → P → Outcome (List ChunkList × P)
  fetch_children [] p = ok ([], p)
  fetch_children (key ∷ keys) p = do
    (chunk, p1) ← provider.get_chunk p key
    child ← decode io chunk
    (children, p2) ← fetch_children keys p1
    ok (child ∷ children, p2)

  -- The loop over a level: the next level.
  pub fetch_level : List ChunkList → P → Outcome (List ChunkList × P)
  fetch_level [] p = ok ([], p)
  fetch_level (list ∷ lists) p = do
    (children, p1) ← (if list.is_leaf then ok ([], p) else fetch_children list.chunks p)
    (rest, p2) ← fetch_level lists p1
    ok (children ++ rest, p2)

  -- The `while` loop; the fuel bounds the number of levels.
  pub prefetch_metadata_chunks : ℕ → List ChunkList → P → Outcome P
  prefetch_metadata_chunks fuel [] p = ok p
  prefetch_metadata_chunks zero (list ∷ lists) p = stuck
  prefetch_metadata_chunks (suc fuel) (list ∷ lists) p = do
    (next_level, p1) ← fetch_level (list ∷ lists) (provider.prefetch p (all_keys (list ∷ lists)))
    prefetch_metadata_chunks fuel next_level p1
