-- ===== src/Dedup/Grows.antt =====
-- common/src/dedup.rs: `chunk_data` and `minimize_chunk_list` only add to the chunks that are
-- stored, so what a list stands for stays so when other data is chunked into the same map.
use factory_cacher.Base.{
  ℕ, zero, suc, true, List, [], ◌∷◌, length, Outcome, ok, err, panic, stuck, ◌>>=◌, inl, inr,
  Bool-cases, is_empty, ltb, ◌≡◌, subst,
}
use factory_cacher.Base.HashMap
use factory_cacher.Base.HashMap.{Inserted}
use factory_cacher.Base.Words.{Bytes}
use factory_cacher.Chunker
use factory_cacher.Extern.Blake3.{Blake3}
use factory_cacher.Extern.ByteBuf.{ByteBuf}
use factory_cacher.Dedup.Codec.{wire}
use factory_cacher.Dedup.Content.{StandsFor, IsNode, Joined-map}
use factory_cacher.Dedup.{
  ChunkList, ChunkKey, ChunkMap, encode, new_empty, is_split_point, push_level, split_levels,
  add_chunk, add_chunks, close_level, finish_levels, chunk_data, minimize_chunk_list,
}

abbrev pub Grows : ChunkMap → ChunkMap → Type 0
Grows m m' = (k v : Bytes) → Inserted k v m → Inserted k v m'

StandsFor-Grows :
    (m m' : ChunkMap) (n : ℕ) (key : ChunkKey) (bytes : Bytes)
    → Grows m m'
    → StandsFor m n key bytes
    → StandsFor m' n key bytes
StandsFor-Grows m m' zero key bytes grows h = grows key bytes h
StandsFor-Grows m m' (suc n) key bytes grows (list, here, leaf, keys, small, content) = (
  list,
  grows key (wire list) here,
  leaf,
  keys,
  small,
  Joined-map (StandsFor m n) (StandsFor m' n) (λ k b. StandsFor-Grows m m' n k b grows) list.chunks
      bytes content,
)

pub IsNode-Grows :
    (m m' : ChunkMap) (n : ℕ) (list : ChunkList) (bytes : Bytes)
    → Grows m m'
    → IsNode m n list bytes
    → IsNode m' n list bytes
IsNode-Grows m m' n list bytes grows h = record {
  leaf = h.leaf;
  keys = h.keys;
  small = h.small;
  content =
      Joined-map (StandsFor m n) (StandsFor m' n) (λ k b. StandsFor-Grows m m' n k b grows)
        list.chunks bytes h.content;
}

-- If there is a result, its map has all that `m` has.
pub OkGrows : {A : Type 0} → ChunkMap → Outcome (A × ChunkMap) → Type 0
OkGrows m (ok (a, m')) = Grows m m'
OkGrows m (err e) = Unit {0}
OkGrows m panic = Unit {0}
OkGrows m stuck = Unit {0}

bind_plain :
    {A B : Type 0} (m : ChunkMap) (x : Outcome A) (k : A → Outcome (B × ChunkMap))
    → ((a : A) → OkGrows m (k a))
    → OkGrows m (x >>= k)
unfolding OkGrows
bind_plain m (ok a) k h = h a
bind_plain m (err e) k h = tt
bind_plain m panic k h = tt
bind_plain m stuck k h = tt

bind_growing :
    {A B : Type 0} (m : ChunkMap) (x : Outcome (A × ChunkMap))
    (k : A × ChunkMap → Outcome (B × ChunkMap))
    → OkGrows m x
    → ((a : A) (m' : ChunkMap) → Grows m m' → OkGrows m' (k (a, m')))
    → OkGrows m (x >>= k)
unfolding OkGrows
bind_growing m (ok (a, m')) k h f = weaken m m' (k (a, m')) h (f a m' h)
  where
    weaken :
        {B : Type 0} (m m' : ChunkMap) (y : Outcome (B × ChunkMap))
        → Grows m m'
        → OkGrows m' y
        → OkGrows m y
    weaken m m' (ok (b, m'')) h g = λ k v i. g k v (h k v i)
    weaken m m' (err e) h g = tt
    weaken m m' panic h g = tt
    weaken m m' stuck h g = tt
bind_growing m (err e) k h f = tt
bind_growing m panic k h f = tt
bind_growing m stuck k h f = tt

inserted_first :
    {A : Type 0} (m : ChunkMap) (k v : Bytes) (y : Outcome (A × ChunkMap))
    → OkGrows (HashMap.insert k v m) y
    → OkGrows m y
unfolding OkGrows
inserted_first m k v (ok (b, m')) g = λ l w i. g l w (inr i)
inserted_first m k v (err e) g = tt
inserted_first m k v panic g = tt
inserted_first m k v stuck g = tt

module _ (io : ByteBuf) (blake : Blake3) where
  split_levels-OkGrows :
      (fuel : ℕ) (key : ChunkKey) (levels : List ChunkList) (m : ChunkMap)
      → OkGrows m (split_levels io blake fuel key levels m)
  unfolding OkGrows split_levels
  split_levels-OkGrows zero key levels m = tt
  split_levels-OkGrows (suc fuel) key [] m = tt
  split_levels-OkGrows (suc fuel) key (node ∷ above) m =
      elim (Bool-cases (is_split_point key (length node.chunks))) [
        | inl split ↦
            rw (split, split_levels)
              (bind_plain m (encode io node) _ (λ serialized.
                inserted_first m (blake.hash serialized) serialized _ (
                  bind_growing (HashMap.insert (blake.hash serialized) serialized m)
                    (split_levels io blake fuel (blake.hash serialized)
                      (push_level io blake (blake.hash serialized) above)
                      (HashMap.insert (blake.hash serialized) serialized m))
                    _
                    (split_levels-OkGrows fuel (blake.hash serialized)
                      (push_level io blake (blake.hash serialized) above)
                      (HashMap.insert (blake.hash serialized) serialized m))
                    (λ above' m' g. λ k v i. i))))
        | inr stop ↦ rw (stop, split_levels) (λ k v i. i)
      ]

  add_chunk-OkGrows :
      (levels : List ChunkList) (m : ChunkMap) (chunk : Bytes)
      → OkGrows m (add_chunk io blake levels m chunk)
  unfolding OkGrows add_chunk
  add_chunk-OkGrows [] m chunk = tt
  add_chunk-OkGrows (leaf ∷ above) m chunk =
      inserted_first m (blake.hash chunk) chunk _ (split_levels-OkGrows _ _ _ _)

  add_chunks-OkGrows :
      (levels : List ChunkList) (m : ChunkMap) (cs : List Bytes)
      → OkGrows m (add_chunks io blake levels m cs)
  unfolding OkGrows add_chunks
  add_chunks-OkGrows levels m [] = λ k v i. i
  add_chunks-OkGrows levels m (chunk ∷ rest) =
      bind_growing m (add_chunk io blake levels m chunk) _ (add_chunk-OkGrows levels m chunk)
        (λ levels' m' g. add_chunks-OkGrows levels' m' rest)

  close_level-OkGrows :
      (node next : ChunkList) (m : ChunkMap) → OkGrows m (close_level io blake node next m)
  unfolding OkGrows close_level
  close_level-OkGrows node next m = elim (Bool-cases (is_empty node.chunks)) [
    | inl none_in ↦ rw none_in (λ k v i. i)
    | inr some_in ↦ rw some_in (bind_plain m (encode io node) _ (λ serialized k v i. inr i))
  ]

  finish_levels-OkGrows :
      (levels : List ChunkList) (m : ChunkMap) → OkGrows m (finish_levels io blake levels m)
  unfolding OkGrows finish_levels
  finish_levels-OkGrows [] m = tt
  finish_levels-OkGrows (root ∷ []) m = λ k v i. i
  finish_levels-OkGrows (node ∷ next ∷ above) m =
      bind_growing m (close_level io blake node next m) _ (close_level-OkGrows node next m)
        (λ next' m' g. finish_levels-OkGrows (next' ∷ above) m')

  pub chunk_data-OkGrows : (bytes : Bytes) (m : ChunkMap) → OkGrows m (chunk_data io blake bytes m)
  unfolding chunk_data
  chunk_data-OkGrows bytes m =
      bind_growing m (add_chunks io blake (new_empty true ∷ []) m (Chunker.chunks bytes)) _
        (add_chunks-OkGrows (new_empty true ∷ []) m (Chunker.chunks bytes))
        (λ levels m' g. finish_levels-OkGrows levels m')

  pub minimize_chunk_list-OkGrows :
      (list : ChunkList) (m : ChunkMap) → OkGrows m (minimize_chunk_list io blake list m)
  unfolding OkGrows minimize_chunk_list
  minimize_chunk_list-OkGrows list m = elim (Bool-cases (ltb (length list.chunks) 64)) [
    | inl short ↦ rw short (λ k v i. i)
    | inr long ↦ rw long (bind_plain m (encode io list) _ (λ serialized k v i. inr i))
  ]

pub OkGrows→Grows :
    {A : Type 0} (m m' : ChunkMap) (a : A) (x : Outcome (A × ChunkMap))
    → OkGrows m x
    → x ≡ ok (a, m')
    → Grows m m'
unfolding OkGrows
OkGrows→Grows m m' a x h run = subst (OkGrows m) run h
