-- ===== src/Dedup/Rebuild.antt =====
-- common/src/dedup.rs: `reconstruct_data` on what `chunk_data` stored.
use factory_cacher.Base.{
  ℕ, zero, suc, ◌<◌, ◌≡◌, refl, sym, ap, ap₂, ◌∙◌, Bool, true, false, List, [], ◌∷◌, ◌++◌, arith,
  Outcome, ok, append_assoc, append-nil, concat, inl, inr, some, subst, ok-injective,
}
use factory_cacher.Base.HashMap
use factory_cacher.Base.HashMap.{Inserted, get-Inserted}
use factory_cacher.Base.Words.{Bytes}
use factory_cacher.Extern.Blake3.{Blake3}
use factory_cacher.Extern.ByteBuf.{ByteBuf}
use factory_cacher.Dedup.Codec.{wire, decode-wire}
use factory_cacher.Dedup.Content.{StandsFor, IsNode, Joined}
use factory_cacher.Dedup.Levels.{Keyed}
use factory_cacher.Dedup.Build.{chunk_data-Finished}
use factory_cacher.Dedup.{
  ChunkList, ChunkKey, ChunkMap, map_provider, reconstruct_chunk, reconstruct_chunks,
  reconstruct_data, chunk_data,
}

-- No two chunks that were stored have the same hash.
abbrev pub NoCollision : Blake3 → ChunkMap → Type 0
NoCollision blake chunks =
    (k l a b : Bytes)
    → Inserted k a chunks
    → Inserted l b chunks
    → blake.hash a ≡ blake.hash b
    → a ≡ b

module _ (io : ByteBuf) (blake : Blake3) (chunks : ChunkMap) where
  Inserted-hash :
      (k v : Bytes) (m : ChunkMap) → Keyed io blake m → Inserted k v m → k ≡ blake.hash v
  Inserted-hash k v [] keyed h = absurd h
  Inserted-hash k v ((j, w) ∷ m) keyed (inl (e, f)) = e ∙ keyed.0 ∙ ap blake.hash (sym f)
  Inserted-hash k v ((j, w) ∷ m) keyed (inr h) = Inserted-hash k v m keyed.1 h

  -- The items that a run of `reconstruct_data` gives are the data.
  abbrev Yields : Outcome (List Bytes × ChunkMap) → Bytes → Type 0
  Yields run bytes = (pieces : List Bytes) × (run ≡ ok (pieces, chunks)) × (concat pieces ≡ bytes)

  concat-append : (xs ys : List Bytes) → concat (xs ++ ys) ≡ concat xs ++ concat ys
  concat-append [] ys = refl
  concat-append (x ∷ xs) ys =
      ap (◌++◌ x) (concat-append xs ys) ∙ sym (append_assoc x (concat xs) (concat ys))

  reconstruct_chunks-Yields :
      (child : ChunkList → ChunkMap → Outcome (List Bytes × ChunkMap)) (is_leaf : Bool)
      (R : ChunkKey → Bytes → Type 0)
      → ((key : ChunkKey) (bytes : Bytes)
          → R key bytes
          → Yields (reconstruct_chunk io map_provider child is_leaf key chunks) bytes)
      → (keys : List ChunkKey) (bytes : Bytes) → Joined R keys bytes
      → Yields (reconstruct_chunks io map_provider child is_leaf keys chunks) bytes
  unfolding reconstruct_chunks
  reconstruct_chunks-Yields child is_leaf R one [] bytes h = ([], refl, sym h)
  reconstruct_chunks-Yields child is_leaf R one (key ∷ keys) bytes (front, back, e, here, rest) =
      let (pieces, run, joined) = one key front here in
      let (others, run', joined') = reconstruct_chunks-Yields child is_leaf R one keys back rest in
      (
        pieces ++ others,
        rw (run, run'),
        concat-append pieces others ∙ ap₂ ◌++◌ joined joined' ∙ sym e,
      )

  module _ (keyed : Keyed io blake chunks) (distinct : NoCollision blake chunks) where
    pub get_stored : (k v : Bytes) → Inserted k v chunks → HashMap.get k chunks ≡ some v
    get_stored k v h =
        get-Inserted k v chunks
          (λ w p.
            distinct k k v w h p
              (sym (Inserted-hash k v chunks keyed h) ∙ Inserted-hash k w chunks keyed p))
          h

    get_leaf :
        (child : ChunkList → ChunkMap → Outcome (List Bytes × ChunkMap)) (key : ChunkKey)
        (bytes : Bytes)
        → StandsFor chunks 0 key bytes
        → Yields (reconstruct_chunk io map_provider child true key chunks) bytes
    unfolding reconstruct_chunk map_provider
    get_leaf child key bytes h = (bytes ∷ [], rw (get_stored key bytes h), append-nil bytes)

    -- A key of a higher level: its chunk is decoded, and rebuilt by the recursive call.
    get_child :
        (n : ℕ) (child : ChunkList → ChunkMap → Outcome (List Bytes × ChunkMap))
        → ((list : ChunkList) (bytes : Bytes)
            → IsNode chunks n list bytes
            → Yields (child list chunks) bytes)
        → (key : ChunkKey) (bytes : Bytes) → StandsFor chunks (suc n) key bytes
        → Yields (reconstruct_chunk io map_provider child false key chunks) bytes
    unfolding reconstruct_chunk map_provider
    get_child n child rebuild key bytes (list, stored, leaf, keys, small, content) =
        rw (get_stored key (wire list) stored, decode-wire io list (omega arith) keys)
          (rebuild list bytes
            (record { leaf = leaf; keys = keys; small = small; content = content }))

    pub reconstruct_data-Yields :
        (n fuel : ℕ) (list : ChunkList) (bytes : Bytes)
        → n < fuel
        → IsNode chunks n list bytes
        → Yields (reconstruct_data io map_provider fuel list chunks) bytes
    unfolding reconstruct_data map_provider
    reconstruct_data-Yields n zero list bytes enough h = absurd (omega arith)
    reconstruct_data-Yields zero (suc fuel) list bytes enough h = rw h.leaf (
        reconstruct_chunks-Yields (reconstruct_data io map_provider fuel) true (StandsFor chunks 0)
          (get_leaf (reconstruct_data io map_provider fuel)) list.chunks bytes h.content)
    reconstruct_data-Yields (suc n) (suc fuel) list bytes enough h = rw h.leaf (
        reconstruct_chunks-Yields (reconstruct_data io map_provider fuel) false
          (StandsFor chunks (suc n))
          (get_child n (reconstruct_data io map_provider fuel)
            (λ c b node. reconstruct_data-Yields n fuel c b (omega arith) node))
          list.chunks bytes h.content)

-- What `chunk_data` stored is rebuilt: with the root list and the chunks that it gave for some data,
-- on a store whose chunks lie under their hashes, and no two of the stored chunks with one hash,
-- `reconstruct_data` ends with no error, and its items, one after the other, are the data.
pub reconstruct_data-chunk_data :
    (io : ByteBuf) (blake : Blake3) (bytes : Bytes) (chunks chunks' : ChunkMap) (root : ChunkList)
    → Keyed io blake chunks
    → chunk_data io blake bytes chunks ≡ ok (root, chunks')
    → NoCollision blake chunks'
    → (fuel : ℕ) × (pieces : List Bytes) × (reconstruct_data io map_provider fuel root chunks'
        ≡ ok (pieces, chunks'))
      × (concat pieces ≡ bytes)
reconstruct_data-chunk_data io blake bytes chunks chunks' root keyed run distinct =
    let (root1, chunks1, level, run1, node, keyed1) =
      chunk_data-Finished io blake bytes chunks keyed in
    let same : (root1, chunks1) ≡ (root, chunks') = ok-injective (sym run1 ∙ run) in
    let node' = subst (λ (p : ChunkList × ChunkMap). IsNode p.1 level p.0 bytes) same node in
    let keyed' = subst (λ (p : ChunkList × ChunkMap). Keyed io blake p.1) same keyed1 in
    let (pieces, rebuilt, joined) =
      reconstruct_data-Yields io blake chunks' keyed' distinct level (suc level) root bytes
        (omega arith) node' in
    (suc level, pieces, rebuilt, joined)
