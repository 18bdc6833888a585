-- ===== src/Dedup/Prefetch/Ends.antt =====
-- common/src/dedup.rs: `prefetch_metadata_chunks` on the trees that `chunk_data` builds.
use factory_cacher.Base.{
  ℕ, zero, suc, ◌<◌, ◌≡◌, refl, List, [], ◌∷◌, ◌++◌, Outcome, ok, All, All-append, arith,
}
use factory_cacher.Base.Words.{Bytes}
use factory_cacher.Extern.Blake3.{Blake3}
use factory_cacher.Extern.ByteBuf.{ByteBuf}
use factory_cacher.Dedup.{ChunkKey, ChunkList, ChunkMap, map_provider}
use factory_cacher.Dedup.Codec.{wire, decode-wire}
use factory_cacher.Dedup.Content.{StandsFor, IsNode, Joined}
use factory_cacher.Dedup.Levels.{Keyed}
use factory_cacher.Dedup.Prefetch.{fetch_children, fetch_level, prefetch_metadata_chunks}
use factory_cacher.Dedup.Rebuild.{NoCollision, get_stored}

-- A list of keys whose tree of stored chunks has fewer levels than the bound.
abbrev pub IsTree : ChunkMap → ℕ → ChunkList → Type 0
IsTree chunks bound list = (n : ℕ) × (bytes : Bytes) × (n < bound) × IsNode chunks n list bytes

module _ (io : ByteBuf) (blake : Blake3) (chunks : ChunkMap) (keyed : Keyed io blake chunks)
    (distinct : NoCollision blake chunks) where
  -- What a step gives: lists whose trees have fewer levels.
  abbrev Trees : ℕ → Outcome (List ChunkList × ChunkMap) → Type 0
  Trees bound r =
      (lists : List ChunkList) × (r ≡ ok (lists, chunks)) × All (IsTree chunks bound) lists

  fetch_children-Trees :
      (n bound : ℕ) (keys : List ChunkKey) (bytes : Bytes)
      → n < bound
      → Joined (StandsFor chunks (suc n)) keys bytes
      → Trees bound (fetch_children io map_provider keys chunks)
  unfolding fetch_children map_provider
  fetch_children-Trees n bound [] bytes low h = ([], refl, tt)
  fetch_children-Trees n bound (key ∷ keys) bytes low
        (front, back, e, (list, stored, leaf, ks, small, content), rest) =
      let (lists, run, trees) = fetch_children-Trees n bound keys back low rest in
      rw
        (
          get_stored io blake chunks keyed distinct key (wire list) stored,
          decode-wire io list (omega arith) ks,
          run,
        )
        (
          list ∷ lists,
          refl,
          (
            (n, front, low, record { leaf = leaf; keys = ks; small = small; content = content }),
            trees,
          ),
        )

  fetch_level-Trees :
      (bound : ℕ) (lists : List ChunkList)
      → All (IsTree chunks (suc bound)) lists
      → Trees bound (fetch_level io map_provider lists chunks)
  unfolding fetch_level
  fetch_level-Trees bound [] trees = ([], refl, tt)
  fetch_level-Trees bound (list ∷ lists) ((zero, bytes, low, node), trees) =
      let (rest, run, trees') = fetch_level-Trees bound lists trees in
      rw (node.leaf, run) (rest, refl, trees')
  fetch_level-Trees bound (list ∷ lists) ((suc n, bytes, low, node), trees) =
      let (rest, run, trees') = fetch_level-Trees bound lists trees in
      let (children, run', trees1) =
        fetch_children-Trees n bound list.chunks bytes (omega arith) node.content in
      rw (node.leaf, run', run)
        (children ++ rest, refl, All-append (IsTree chunks bound) children rest trees1 trees')

  -- With chunks that are stored under their hashes, no two of them with one hash, the walk over
  -- trees of stored lists ends, with no error, after at most as many rounds as there are levels.
  pub prefetch_metadata_chunks-ends :
      (fuel : ℕ) (lists : List ChunkList)
      → All (IsTree chunks fuel) lists
      → prefetch_metadata_chunks io map_provider fuel lists chunks ≡ ok chunks
  unfolding prefetch_metadata_chunks map_provider
  prefetch_metadata_chunks-ends fuel [] trees = refl
  prefetch_metadata_chunks-ends zero (list ∷ lists) ((n, bytes, low, node), trees) =
      absurd (omega arith)
  prefetch_metadata_chunks-ends (suc fuel) (list ∷ lists) trees =
      let (next, run, trees') = fetch_level-Trees fuel (list ∷ lists) trees in
      rw run (prefetch_metadata_chunks-ends fuel next trees')
