-- ===== src/Dedup/Levels.antt =====
-- common/src/dedup.rs: the levels of the tree while `chunk_data` builds it, and its inner loop,
-- which splits them.
use factory_cacher.Base.{
  ℕ, zero, suc, ◌+◌, ◌≤◌, ◌<◌, ◌≡◌, refl, sym, true, false, List, [], ◌∷◌, ◌++◌, arith, length,
  Outcome, ok, append_assoc, append-nil, Bool-cases, inl, inr,
}
use factory_cacher.Base.HashMap
use factory_cacher.Base.Words.{Bytes}
use factory_cacher.Extern.Blake3.{Blake3}
use factory_cacher.Extern.ByteBuf.{ByteBuf}
use factory_cacher.Dedup.Codec.{wire, encode-wire}
use factory_cacher.Dedup.Content.{
  StandsFor, IsNode, IsNode-insert, IsNode-push, IsNode-empty, StandsFor-store, max_keys,
}
use factory_cacher.Dedup.{
  ChunkList, ChunkKey, ChunkMap, push_chunk, new_empty, is_split_point, min_chunks_in_list,
  max_chunks_in_list, push_level, split_levels,
}

-- A list is split before it is longer than `max_keys`, and one key is no list to split.
split_bounds :
    (key : ChunkKey) (num_nodes : ℕ) → is_split_point key num_nodes ≡ false → num_nodes < max_keys
unfolding is_split_point min_chunks_in_list max_chunks_in_list
split_bounds key num_nodes h = ground arith

split_one : (key : ChunkKey) → is_split_point key 1 ≡ false
unfolding is_split_point min_chunks_in_list
split_one key = refl

-- The levels of the tree from level `n` up: the higher ones stand for the data that came first.
abbrev pub Levels : ChunkMap → ℕ → List ChunkList → Bytes → Type 0
Levels chunks n [] bytes = bytes ≡ []
Levels chunks n (node ∷ above) bytes =
    (high : Bytes) × (low : Bytes) × (bytes ≡ high ++ low)
    × IsNode chunks n node low
    × (length node.chunks < max_keys)
    × Levels chunks (suc n) above high

pub Levels-insert :
    (chunks : ChunkMap) (k : ChunkKey) (v : Bytes) (n : ℕ) (levels : List ChunkList) (bytes : Bytes)
    → Levels chunks n levels bytes
    → Levels (HashMap.insert k v chunks) n levels bytes
Levels-insert chunks k v n [] bytes h = h
Levels-insert chunks k v n (node ∷ above) bytes (high, low, e, here, room, rest) = (
  high,
  low,
  e,
  IsNode-insert chunks k v n node low here,
  room,
  Levels-insert chunks k v (suc n) above high rest,
)

module _ (io : ByteBuf) (blake : Blake3) where
  -- Every chunk is stored under its hash.
  abbrev pub Keyed : ChunkMap → Type 0
  Keyed [] = Unit {0}
  Keyed ((key, chunk) ∷ chunks) = (key ≡ blake.hash chunk) × Keyed chunks

  -- A step of the construction succeeds, with levels that stand for the data.
  abbrev pub Built : ℕ → Outcome (List ChunkList × ChunkMap) → Bytes → Type 0
  Built n result bytes =
      (levels : List ChunkList) × (chunks : ChunkMap) × (result ≡ ok (levels, chunks))
      × (0 < length levels)
      × Levels chunks n levels bytes
      × Keyed chunks

  -- A level that is not split.
  split_stop :
      (fuel n : ℕ) (key : ChunkKey) (node : ChunkList) (above : List ChunkList) (chunks : ChunkMap)
      (high low : Bytes)
      → is_split_point key (length node.chunks) ≡ false
      → IsNode chunks n node low
      → Levels chunks (suc n) above high
      → Keyed chunks
      → Built n (split_levels io blake (suc fuel) key (node ∷ above) chunks) (high ++ low)
  unfolding split_levels
  split_stop fuel n key node above chunks high low stop here rest keyed = (
    node ∷ above,
    chunks,
    rw (stop, split_levels),
    omega arith,
    (high, low, refl, here, split_bounds key _ stop, rest),
    keyed,
  )

  -- A level that is split: the rest of the run is on the levels above.
  split_more :
      (fuel n : ℕ) (key : ChunkKey) (node : ChunkList) (above : List ChunkList) (chunks : ChunkMap)
      (bytes low : Bytes)
      → is_split_point key (length node.chunks) ≡ true
      → IsNode chunks n node low
      → Built
          (suc n)
          (split_levels io blake fuel
            (blake.hash (wire node))
            (push_level io blake (blake.hash (wire node)) above)
            (HashMap.insert (blake.hash (wire node)) (wire node) chunks))
          bytes
      → Built n (split_levels io blake (suc fuel) key (node ∷ above) chunks) bytes
  unfolding split_levels
  split_more fuel n key node above chunks bytes low more here
        (above', chunks', run, _, rest, keyed) =
      (
        new_empty node.is_leaf ∷ above',
        chunks',
        rw (more, split_levels, encode-wire io node (omega (arith, here.small)), run),
        omega arith,
        (
          bytes,
          [],
          sym (append-nil bytes),
          rw here.leaf (IsNode-empty chunks' n),
          omega arith,
          rest,
        ),
        keyed,
      )

  -- Storing a node under its hash, for the level above.
  pub stored :
      (n : ℕ) (node : ChunkList) (chunks : ChunkMap) (low : Bytes)
      → IsNode chunks n node low
      → StandsFor
          (HashMap.insert (blake.hash (wire node)) (wire node) chunks)
          (suc n)
          (blake.hash (wire node))
          low
  stored n node chunks low here = StandsFor-store chunks n node low (blake.hash (wire node)) here

  pub split_levels-Built :
      (fuel n : ℕ) (key : ChunkKey) (node : ChunkList) (above : List ChunkList) (chunks : ChunkMap)
      (high low : Bytes)
      → length above + 2 ≤ fuel
      → IsNode chunks n node low
      → Levels chunks (suc n) above high
      → Keyed chunks
      → Built n (split_levels io blake fuel key (node ∷ above) chunks) (high ++ low)
  unfolding push_level
  split_levels-Built zero n key node above chunks high low enough here rest keyed =
      absurd (omega arith)
  split_levels-Built (suc zero) n key node above chunks high low enough here rest keyed =
      absurd (omega arith)
  split_levels-Built (suc (suc fuel)) n key node [] chunks high low enough here rest keyed =
      elim (Bool-cases (is_split_point key (length node.chunks))) [
        | inl more ↦ split_more (suc fuel) n key node [] chunks (high ++ low) low more here (
            split_stop fuel (suc n) hash (push_chunk (new_empty false) hash) [] chunks' []
              (high ++ low) (split_one hash)
              (rw rest (
                IsNode-push chunks' (suc n) (new_empty false) [] hash low
                  (IsNode-empty chunks' (suc n)) (omega arith) (blake.length-hash (wire node))
                  (stored n node chunks low here)))
              refl (refl, keyed))
        | inr stop ↦ split_stop (suc fuel) n key node [] chunks high low stop here rest keyed
      ]
    where
      hash : ChunkKey
      hash = blake.hash (wire node)

      chunks' : ChunkMap
      chunks' = HashMap.insert hash (wire node) chunks
  split_levels-Built (suc (suc fuel)) n key node (next ∷ above) chunks high low enough here
        (high', low', e, there, room, rest) keyed =
      elim (Bool-cases (is_split_point key (length node.chunks))) [
        | inl more ↦
            split_more (suc fuel) n key node (next ∷ above) chunks (high ++ low) low more here (
              rw (e, append_assoc)
                (split_levels-Built (suc fuel) (suc n) hash (push_chunk next hash) above chunks'
                  high' (low' ++ low) (omega arith)
                  (IsNode-push chunks' (suc n) next low' hash low
                    (IsNode-insert chunks hash (wire node) (suc n) next low' there) room
                    (blake.length-hash (wire node)) (stored n node chunks low here))
                  (Levels-insert chunks hash (wire node) (suc (suc n)) above high' rest)
                  (refl, keyed)))
        | inr stop ↦
            split_stop (suc fuel) n key node (next ∷ above) chunks high low stop here
              (high', low', e, there, room, rest) keyed
      ]
    where
      hash : ChunkKey
      hash = blake.hash (wire node)

      chunks' : ChunkMap
      chunks' = HashMap.insert hash (wire node) chunks
