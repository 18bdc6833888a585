-- ===== src/Dedup/Content.antt =====
-- common/src/dedup.rs: what a chunk key stands for, given the chunks that were stored. Everything
-- here is about insertions, so it stays true when more chunks are stored.
use factory_cacher.Base.{
  ℕ, zero, suc, ◌≤◌, ◌<◌, ◌≡◌, refl, sym, Bool, true, false, List, [], ◌∷◌, ◌++◌, arith, length,
  All, All-append, append_assoc, append-nil, inr, length-append, inl, is_empty,
}
use factory_cacher.Base.HashMap
use factory_cacher.Base.HashMap.{Inserted}
use factory_cacher.Base.Words.{Bytes}
use factory_cacher.Dedup.Codec.{IsKey, wire}
use factory_cacher.Dedup.{ChunkList, ChunkKey, ChunkMap, push_chunk, new_empty}

-- The keys stand for the pieces of some data, one after the other.
abbrev pub Joined : (ChunkKey → Bytes → Type 0) → List ChunkKey → Bytes → Type 0
Joined R [] bytes = bytes ≡ []
Joined R (key ∷ keys) bytes =
    (front : Bytes) × (back : Bytes) × (bytes ≡ front ++ back) × R key front × Joined R keys back

pub Joined-map :
    (R S : ChunkKey → Bytes → Type 0)
    → ((key : ChunkKey) (bytes : Bytes) → R key bytes → S key bytes)
    → (keys : List ChunkKey) (bytes : Bytes) → Joined R keys bytes
    → Joined S keys bytes
Joined-map R S f [] bytes h = h
Joined-map R S f (key ∷ keys) bytes (front, back, e, here, rest) =
    (front, back, e, f key front here, Joined-map R S f keys back rest)

pub Joined-push :
    (R : ChunkKey → Bytes → Type 0) (keys : List ChunkKey) (bytes : Bytes) (key : ChunkKey)
    (more : Bytes)
    → Joined R keys bytes
    → R key more
    → Joined R (keys ++ key ∷ []) (bytes ++ more)
Joined-push R [] bytes key more h r = (more, [], rw h (sym (append-nil more)), r, refl)
Joined-push R (k ∷ ks) bytes key more (front, back, e, here, rest) r = (
  front,
  back ++ more,
  rw e (append_assoc front back more),
  here,
  Joined-push R ks back key more rest r,
)

abbrev pub is_zero : ℕ → Bool
is_zero zero = true
is_zero (suc n) = false

pub Joined-is_empty :
    (R : ChunkKey → Bytes → Type 0) (keys : List ChunkKey) (bytes : Bytes)
    → is_empty keys ≡ true
    → Joined R keys bytes
    → bytes ≡ []
Joined-is_empty R [] bytes h joined = joined
Joined-is_empty R (key ∷ keys) bytes h joined = cc

-- A list with at most so many keys is encoded without a panic.
abbrev pub max_keys : ℕ
max_keys = 512

module _ (chunks : ChunkMap) where
  -- A key of level 0 is that of a chunk of data. A key of level `n + 1` is that of an encoded list
  -- of keys of level `n`, which is a leaf if `n` is 0.
  abbrev pub StandsFor : ℕ → ChunkKey → Bytes → Type 0
  StandsFor zero key bytes = Inserted key bytes chunks
  StandsFor (suc n) key bytes =
      (list : ChunkList) × Inserted key (wire list) chunks
      × (list.is_leaf ≡ (is_zero n))
      × All IsKey list.chunks
      × (length list.chunks ≤ max_keys)
      × Joined (StandsFor n) list.chunks bytes

  -- A node of level `n`, whose keys stand for the data together.
  pub record IsNode (n : ℕ) (list : ChunkList) (bytes : Bytes) : Type 0 where
    pub leaf : list.is_leaf ≡ (is_zero n)
    pub keys : All IsKey list.chunks
    pub small : length list.chunks ≤ max_keys
    pub content : Joined (StandsFor n) list.chunks bytes

-- What was inserted stays so.
StandsFor-insert :
    (chunks : ChunkMap) (k : ChunkKey) (v : Bytes) (n : ℕ) (key : ChunkKey) (bytes : Bytes)
    → StandsFor chunks n key bytes
    → StandsFor (HashMap.insert k v chunks) n key bytes
StandsFor-insert chunks k v zero key bytes h = inr h
StandsFor-insert chunks k v (suc n) key bytes (list, here, leaf, keys, small, content) = (
  list,
  inr here,
  leaf,
  keys,
  small,
  Joined-map (StandsFor chunks n) (StandsFor (HashMap.insert k v chunks) n)
      (StandsFor-insert chunks k v n) list.chunks bytes content,
)

pub IsNode-insert :
    (chunks : ChunkMap) (k : ChunkKey) (v : Bytes) (n : ℕ) (list : ChunkList) (bytes : Bytes)
    → IsNode chunks n list bytes
    → IsNode (HashMap.insert k v chunks) n list bytes
IsNode-insert chunks k v n list bytes h = record {
  leaf = h.leaf;
  keys = h.keys;
  small = h.small;
  content =
      Joined-map (StandsFor chunks n) (StandsFor (HashMap.insert k v chunks) n)
        (StandsFor-insert chunks k v n) list.chunks bytes h.content;
}

-- One more key, for more data.
pub IsNode-push :
    (chunks : ChunkMap) (n : ℕ) (list : ChunkList) (bytes : Bytes) (key : ChunkKey) (more : Bytes)
    → IsNode chunks n list bytes
    → length list.chunks < max_keys
    → IsKey key
    → StandsFor chunks n key more
    → IsNode chunks n (push_chunk list key) (bytes ++ more)
IsNode-push chunks n list bytes key more h room is_key stands = record {
  leaf = h.leaf;
  keys = All-append IsKey list.chunks (key ∷ []) h.keys (is_key, tt);
  small = omega (arith, length-append list.chunks (key ∷ []));
  content = Joined-push (StandsFor chunks n) list.chunks bytes key more h.content stands;
}

-- A node with no keys stands for no data.
pub IsNode-empty : (chunks : ChunkMap) (n : ℕ) → IsNode chunks n (new_empty (is_zero n)) []
IsNode-empty chunks n = record { leaf = refl; keys = tt; small = omega arith; content = refl }

-- A node that is stored under a key: the key stands for its data, a level above.
pub StandsFor-store :
    (chunks : ChunkMap) (n : ℕ) (list : ChunkList) (bytes : Bytes) (key : ChunkKey)
    → IsNode chunks n list bytes
    → StandsFor (HashMap.insert key (wire list) chunks) (suc n) key bytes
StandsFor-store chunks n list bytes key h =
    let h' = IsNode-insert chunks key (wire list) n list bytes h in
    (list, inl (refl, refl), h'.leaf, h'.keys, h'.small, h'.content)
