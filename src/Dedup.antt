-- ===== src/Dedup.antt =====
-- common/src/dedup.rs: the tree of chunk lists. A chunk is stored under its hash; a list of chunk
-- keys is itself stored as a chunk of the level above, and the root list is what is kept.
pub mod Codec
pub mod Content
pub mod Levels
pub mod Build
pub mod Grows
pub mod Rebuild
pub mod Prefetch
pub mod Tests
use factory_cacher.Base.{
  ℕ, zero, suc, ◌+◌, ◌^◌, ◌%◌, Bool, true, false, not, ◌||◌, ◌&&◌, some, none, List, [], ◌∷◌, ◌++◌,
  foldl, ltb, leb, ◌==◌, if◌then◌else◌, length, take, is_empty, Outcome, ok, err, panic, stuck,
  ◌>>=◌, ◌>>◌, assert, expect,
}
use factory_cacher.Base.HashMap
use factory_cacher.Base.HashMap.{HashMap}
use factory_cacher.Base.Words.{Bytes, of_be}
use factory_cacher.Chunker
use factory_cacher.Extern.Blake3.{Blake3}
use factory_cacher.Extern.ByteBuf.{ByteBuf}

unfoldable pub min_chunks_in_list : ℕ
min_chunks_in_list = 32

unfoldable pub avg_chunks_in_list : ℕ
avg_chunks_in_list = 128

unfoldable pub max_chunks_in_list : ℕ
max_chunks_in_list = 512

-- `ChunkKey`: the 32 bytes of a hash.
abbrev pub ChunkKey : Type 0
ChunkKey = Bytes

abbrev pub ChunkMap : Type 0
ChunkMap = HashMap Bytes

pub record ChunkList : Type 0 where
  pub is_leaf : Bool
  pub chunks : List ChunkKey

-- `ChunkList::new_empty`
abbrev pub new_empty : Bool → ChunkList
new_empty is_leaf = record { is_leaf = is_leaf; chunks = [] }

-- `ChunkList::push_chunk`
abbrev pub push_chunk : ChunkList → ChunkKey → ChunkList
push_chunk list chunk = record list { chunks = list.chunks ++ chunk ∷ [] }

-- `is_split_point`
pub is_split_point : ChunkKey → ℕ → Bool
is_split_point hash num_nodes =
    if ltb num_nodes min_chunks_in_list
    then false
    else (if leb max_chunks_in_list num_nodes
        then true
        else of_be (take 4 hash) % avg_chunks_in_list == 0)

-- `bool as u8`
abbrev pub as_u8 : Bool → ℕ
as_u8 true = 1
as_u8 false = 0

module _ (io : ByteBuf) where
  -- `put_slice` for each key
  pub put_keys : List ChunkKey → Bytes → Bytes
  put_keys [] buf = buf
  put_keys (key ∷ keys) buf = put_keys keys (buf ++ key)

  -- `ChunkList::encode`; a count that does not fit 32 bits is a panic.
  pub encode : ChunkList → Outcome Bytes
  encode list = do
    let flag = io.put_le 1 (as_u8 list.is_leaf) []
    assert (ltb (length list.chunks) (2 ^ 32))
    ok (put_keys list.chunks (io.put_be 4 (length list.chunks) flag))

  -- The loop of `ChunkList::decode`: `try_copy_to_slice` of 32 bytes for each chunk.
  pub decode_keys : ℕ → Bytes → Outcome (List ChunkKey)
  decode_keys zero buf = ok []
  decode_keys (suc n) buf = do
    (key, rest) ← io.get_slice 32 buf
    keys ← decode_keys n rest
    ok (key ∷ keys)

  -- `ChunkList::decode`
  pub decode : Bytes → Outcome ChunkList
  decode buf = do
    (flag, buf1) ← io.get_le 1 buf
    (chunk_count, buf2) ← io.get_be 4 buf1
    chunks ← decode_keys chunk_count buf2
    ok (record { is_leaf = not (flag == 0); chunks = chunks })

  module _ (blake : Blake3) where
    -- Append a key to the node of a level, which is added to the tree if needed.
    pub push_level : ChunkKey → List ChunkList → List ChunkList
    push_level key [] = push_chunk (new_empty false) key ∷ []
    push_level key (node ∷ above) = push_chunk node key ∷ above

    -- The `while` loop of `chunk_data`, over the levels from the current one up; no level is a
    -- panic (index out of range).
    pub split_levels :
        ℕ → ChunkKey → List ChunkList → ChunkMap → Outcome (List ChunkList × ChunkMap)
    split_levels zero key levels chunks = stuck
    split_levels (suc fuel) key [] chunks = panic
    split_levels (suc fuel) key (node ∷ above) chunks =
        if is_split_point key (length node.chunks)
        then (do
          serialized ← encode node
          let hash = blake.hash serialized
          (above', chunks') ←
              split_levels fuel hash (push_level hash above) (HashMap.insert hash serialized chunks)
          ok (new_empty node.is_leaf ∷ above', chunks'))
        else ok (node ∷ above, chunks)

    -- The body of the `for` loop of `chunk_data`; each level is visited at most once, and one more
    -- may be added.
    pub add_chunk : List ChunkList → ChunkMap → Bytes → Outcome (List ChunkList × ChunkMap)
    add_chunk [] chunks chunk = panic
    add_chunk (leaf ∷ above) chunks chunk =
        let hash = blake.hash chunk in
        split_levels (suc (suc (length above))) hash (push_chunk leaf hash ∷ above)
          (HashMap.insert hash chunk chunks)

    pub add_chunks : List ChunkList → ChunkMap → List Bytes → Outcome (List ChunkList × ChunkMap)
    add_chunks levels chunks [] = ok (levels, chunks)
    add_chunks levels chunks (chunk ∷ rest) = do
      (levels', chunks') ← add_chunk levels chunks chunk
      add_chunks levels' chunks' rest

    -- The body of the loop under "Finish tree": the next level, and the store.
    pub close_level : ChunkList → ChunkList → ChunkMap → Outcome (ChunkList × ChunkMap)
    close_level node next chunks = if is_empty node.chunks then ok (next, chunks) else (do
      serialized ← encode node
      let hash = blake.hash serialized
      ok (push_chunk next hash, HashMap.insert hash serialized chunks))

    -- The loop under "Finish tree", and the last level.
    pub finish_levels : List ChunkList → ChunkMap → Outcome (ChunkList × ChunkMap)
    finish_levels [] chunks = panic
    finish_levels (root ∷ []) chunks = ok (root, chunks)
    finish_levels (node ∷ next ∷ above) chunks = do
      (next', chunks') ← close_level node next chunks
      finish_levels (next' ∷ above) chunks'

    -- `chunk_data`
    pub chunk_data : Bytes → ChunkMap → Outcome (ChunkList × ChunkMap)
    chunk_data bytes chunks = do
      (levels, chunks') ← add_chunks (new_empty true ∷ []) chunks (Chunker.chunks bytes)
      finish_levels levels chunks'

    -- `minimize_chunk_list`, with MINIMIZE_THRESHOLD
    pub minimize_chunk_list : ChunkList → ChunkMap → Outcome (ChunkList × ChunkMap)
    minimize_chunk_list list chunks = if ltb (length list.chunks) 64 then ok (list, chunks) else (do
      serialized ← encode list
      let hash = blake.hash serialized
      ok (push_chunk (new_empty false) hash, HashMap.insert hash serialized chunks))

-- `trait ChunkProvider`: what it keeps, and its two operations.
pub record ChunkProvider (P : Type 0) : Type 0 where
  pub prefetch : P → List ChunkKey → P
  pub get_chunk : P → ChunkKey → Outcome (Bytes × P)

-- `impl ChunkProvider for HashMap<ChunkKey, Bytes>`
pub map_provider : ChunkProvider ChunkMap
map_provider = record {
  prefetch = λ chunks _. chunks;
  get_chunk = λ chunks key. (do chunk ← expect (HashMap.get key chunks); ok (chunk, chunks));
}

module _ (io : ByteBuf) {P : Type 0} (provider : ChunkProvider P) where
  -- One round of the loop of `reconstruct_data`: the items for a key. `child` is the recursive
  -- call for a child list.
  pub reconstruct_chunk :
      (ChunkList → P → Outcome (List Bytes × P)) → Bool → ChunkKey → P → Outcome (List Bytes × P)
  reconstruct_chunk child is_leaf key p = do
    (chunk, p1) ← provider.get_chunk p key
    if is_leaf then ok (chunk ∷ [], p1) else (do list ← decode io chunk; child list p1)

  pub reconstruct_chunks :
      (ChunkList → P → Outcome (List Bytes × P))
      → Bool
      → List ChunkKey
      → P
      → Outcome (List Bytes × P)
  reconstruct_chunks child is_leaf [] p = ok ([], p)
  reconstruct_chunks child is_leaf (key ∷ keys) p = do
    (pieces, p1) ← reconstruct_chunk child is_leaf key p
    (rest, p2) ← reconstruct_chunks child is_leaf keys p1
    ok (pieces ++ rest, p2)

  -- `reconstruct_data`: the items of the stream, if it ends with no error. The fuel bounds the
  -- depth of the tree.
  pub reconstruct_data : ℕ → ChunkList → P → Outcome (List Bytes × P)
  reconstruct_data zero list p = stuck
  reconstruct_data (suc fuel) list p =
      reconstruct_chunks (reconstruct_data fuel) list.is_leaf list.chunks
        (provider.prefetch p list.chunks)
