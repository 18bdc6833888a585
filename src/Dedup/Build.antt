-- ===== src/Dedup/Build.antt =====
-- common/src/dedup.rs: the root list that `chunk_data` gives, and `minimize_chunk_list`.
use factory_cacher.Base.{
  ℕ, suc, ◌<◌, ◌≡◌, refl, true, false, List, [], ◌∷◌, ◌++◌, arith, length, Outcome, ok,
  append_assoc, append-nil, Bool-cases, inl, inr, concat, is_empty, ltb,
}
use factory_cacher.Base.HashMap
use factory_cacher.Base.Words.{Bytes}
use factory_cacher.Chunker
use factory_cacher.Chunker.Partition.{chunks-partition}
use factory_cacher.Extern.Blake3.{Blake3}
use factory_cacher.Extern.ByteBuf.{ByteBuf}
use factory_cacher.Dedup.Codec.{wire, encode-wire}
use factory_cacher.Dedup.Content.{
  Joined-is_empty, StandsFor, IsNode, IsNode-insert, IsNode-push, IsNode-empty,
}
use factory_cacher.Dedup.Levels.{Levels, Levels-insert, Keyed, Built, stored, split_levels-Built}
use factory_cacher.Dedup.{
  ChunkList, ChunkKey, ChunkMap, push_chunk, new_empty, add_chunk, add_chunks, close_level,
  finish_levels, chunk_data, minimize_chunk_list,
}

module _ (io : ByteBuf) (blake : Blake3) where
  add_chunk-Built :
      (levels : List ChunkList) (chunks : ChunkMap) (bytes chunk : Bytes)
      → 0 < length levels
      → Levels chunks 0 levels bytes
      → Keyed io blake chunks
      → Built io blake 0 (add_chunk io blake levels chunks chunk) (bytes ++ chunk)
  unfolding add_chunk
  add_chunk-Built [] chunks bytes chunk some_level levels keyed = absurd (omega arith)
  add_chunk-Built (leaf ∷ above) chunks bytes chunk some_level (high, low, e, here, room, rest)
        keyed =
      rw (e, append_assoc)
        (split_levels-Built io blake (suc (suc (length above))) 0 hash (push_chunk leaf hash) above
          chunks' high (low ++ chunk) (omega arith)
          (IsNode-push chunks' 0 leaf low hash chunk
            (IsNode-insert chunks hash chunk 0 leaf low here) room (blake.length-hash chunk)
            (inl (refl, refl)))
          (Levels-insert chunks hash chunk 1 above high rest) (refl, keyed))
    where
      hash : ChunkKey
      hash = blake.hash chunk

      chunks' : ChunkMap
      chunks' = HashMap.insert hash chunk chunks

  add_chunks-Built :
      (levels : List ChunkList) (chunks : ChunkMap) (bytes : Bytes) (cs : List Bytes)
      → 0 < length levels
      → Levels chunks 0 levels bytes
      → Keyed io blake chunks
      → Built io blake 0 (add_chunks io blake levels chunks cs) (bytes ++ concat cs)
  unfolding add_chunks
  add_chunks-Built levels chunks bytes [] some_level holds keyed =
      (levels, chunks, refl, some_level, rw append-nil holds, keyed)
  add_chunks-Built levels chunks bytes (chunk ∷ cs) some_level holds keyed =
      let (levels1, chunks1, run1, some1, holds1, keyed1) =
        add_chunk-Built levels chunks bytes chunk some_level holds keyed in
      let (levels2, chunks2, run2, some2, holds2, keyed2) =
        add_chunks-Built levels1 chunks1 (bytes ++ chunk) cs some1 holds1 keyed1 in
      (levels2, chunks2, rw run1 run2, some2, rw (← append_assoc) holds2, keyed2)

  -- The construction ends with a root of some level, which stands for the data.
  abbrev pub Finished : Outcome (ChunkList × ChunkMap) → Bytes → Type 0
  Finished result bytes =
      (root : ChunkList) × (chunks : ChunkMap) × (level : ℕ) × (result ≡ ok (root, chunks))
      × IsNode chunks level root bytes
      × Keyed io blake chunks

  finish_levels-Finished :
      (n : ℕ) (node : ChunkList) (above : List ChunkList) (chunks : ChunkMap) (high low : Bytes)
      → IsNode chunks n node low
      → Levels chunks (suc n) above high
      → Keyed io blake chunks
      → Finished (finish_levels io blake (node ∷ above) chunks) (high ++ low)
  unfolding finish_levels close_level
  finish_levels-Finished n root [] chunks high low here rest keyed =
      (root, chunks, n, refl, rw rest here, keyed)
  finish_levels-Finished n node (next ∷ above) chunks high low here
        (high', low', e, there, room, rest) keyed =
      elim (Bool-cases (is_empty node.chunks)) [
        | inl none ↦
            rw (none, nothing_low none, append-nil, e)
              (finish_levels-Finished (suc n) next above chunks high' low' there rest keyed)
        | inr some ↦
            rw (some, encode-wire io node (omega (arith, here.small)), e, append_assoc)
              (finish_levels-Finished (suc n) (push_chunk next hash) above chunks' high'
                (low' ++ low)
                (IsNode-push chunks' (suc n) next low' hash low
                  (IsNode-insert chunks hash (wire node) (suc n) next low' there) room
                  (blake.length-hash (wire node)) (stored io blake n node chunks low here))
                (Levels-insert chunks hash (wire node) (suc (suc n)) above high' rest)
                (refl, keyed))
      ]
    where
      hash : ChunkKey
      hash = blake.hash (wire node)

      chunks' : ChunkMap
      chunks' = HashMap.insert hash (wire node) chunks

      nothing_low : is_empty node.chunks ≡ true → low ≡ []
      nothing_low none = Joined-is_empty (StandsFor chunks n) node.chunks low none here.content

  no-Levels : (chunks : ChunkMap) → Levels chunks 0 (new_empty true ∷ []) []
  no-Levels chunks = ([], [], refl, IsNode-empty chunks 0, omega arith, refl)

  -- On a store whose chunks lie under their hashes, `chunk_data` ends with no panic. Its root list
  -- stands for the data, and every chunk in the new store lies under its hash.
  pub chunk_data-Finished :
      (bytes : Bytes) (chunks : ChunkMap)
      → Keyed io blake chunks
      → Finished (chunk_data io blake bytes chunks) bytes
  unfolding chunk_data
  chunk_data-Finished bytes chunks keyed =
      let (levels, chunks1, run, some_level, holds, keyed1) =
        add_chunks-Built (new_empty true ∷ []) chunks [] (Chunker.chunks bytes) (omega arith)
          (no-Levels chunks) keyed in
      rw run (finish levels chunks1 some_level (rw ((chunks-partition bytes).0) at holds) keyed1)
    where
      finish :
          (levels : List ChunkList) (chunks1 : ChunkMap)
          → 0 < length levels
          → Levels chunks1 0 levels bytes
          → Keyed io blake chunks1
          → Finished (finish_levels io blake levels chunks1) bytes
      finish [] chunks1 some_level holds keyed1 = absurd (omega arith)
      finish (node ∷ above) chunks1 some_level (high, low, e, here, room, rest) keyed1 =
          rw e (finish_levels-Finished 0 node above chunks1 high low here rest keyed1)

  -- On the list of a tree that stands for some data, among chunks stored under their hashes,
  -- `minimize_chunk_list` ends with no panic, and its list stands for the same data.
  pub minimize_chunk_list-Finished :
      (level : ℕ) (list : ChunkList) (chunks : ChunkMap) (bytes : Bytes)
      → IsNode chunks level list bytes
      → Keyed io blake chunks
      → Finished (minimize_chunk_list io blake list chunks) bytes
  unfolding minimize_chunk_list
  minimize_chunk_list-Finished level list chunks bytes here keyed =
      elim (Bool-cases (ltb (length list.chunks) 64)) [
        | inl short ↦ rw short (list, chunks, level, refl, here, keyed)
        | inr long ↦
            rw (long, encode-wire io list (omega (arith, here.small)))
              (
                push_chunk (new_empty false) hash,
                chunks',
                suc level,
                refl,
                IsNode-push chunks' (suc level) (new_empty false) [] hash bytes
                    (IsNode-empty chunks' (suc level)) (omega arith) (blake.length-hash (wire list))
                    (stored io blake level list chunks bytes here),
                (refl, keyed),
              )
      ]
    where
      hash : ChunkKey
      hash = blake.hash (wire list)

      chunks' : ChunkMap
      chunks' = HashMap.insert hash (wire list) chunks
