-- ===== src/Message/Fetch.antt =====
-- common/src/protocol_utils.rs: messages between two proxies, and a request for chunks with its
-- response.
use factory_cacher.Base.{
  ◌%◌, ◌^◌, ◌≤◌, ◌≡◌, refl, sym, ap, ◌∙◌, true, some, List, [], ◌∷◌, ◌++◌, not-lt→ltb, length, ok,
  ◌>>=◌, All, arith, append_assoc, Bool-cases, inl, inr, ◌⊎◌,
}
use factory_cacher.Base.HashMap
use factory_cacher.Base.Words.{
  Bytes, le_bytes, length-le_bytes, of_le-le_bytes, same_bytes, same_bytes_refl, same_bytes→eq,
}
use factory_cacher.Cache.File.RoundTrip.{read_exact-append}
use factory_cacher.Dedup.{ChunkKey, ChunkMap}
use factory_cacher.Extern.Blake3.{Blake3}
use factory_cacher.Message.{
  write_message, read_message, message_size_limit, find_chunks, accept_chunks,
}

-- A message of at most 20 million bytes that is written to an empty stream is read back, and what
-- is written behind it stays in the stream.
pub read_message-write_message :
    (msg_data rest : Bytes)
    → length msg_data ≤ 20000000
    → (write_message [] msg_data >>= λ stream. read_message (stream ++ rest)) ≡ ok (msg_data, rest)
unfolding write_message read_message message_size_limit
read_message-write_message msg_data rest small =
    let same : length msg_data % 2 ^ 32 ≡ length msg_data = omega arith in
    rw (
      not-lt→ltb 20000000 (length msg_data) small,
      same,
      append_assoc (le_bytes 4 (length msg_data)) msg_data rest,
      read_exact-append 4 (le_bytes 4 (length msg_data)) (msg_data ++ rest)
          (length-le_bytes 4 (length msg_data)),
      of_le-le_bytes 4 (length msg_data) (omega arith),
      not-lt→ltb 20000000 (length msg_data) small,
      read_exact-append (length msg_data) msg_data rest refl,
    )

-- The store has the key's chunk, which has the hash that the key says.
abbrev pub IsStored : Blake3 → ChunkMap → ChunkKey → Type 0
IsStored blake chunks key =
    (chunk : Bytes) × (HashMap.get key chunks ≡ some chunk) × (blake.hash chunk ≡ key)

-- Two stores agree where the first has an entry.
abbrev pub Agrees : ChunkMap → ChunkMap → ChunkKey → Type 0
Agrees local_cache chunks key = HashMap.get key local_cache ≡ HashMap.get key chunks

Agrees-insert :
    (local_cache chunks : ChunkMap) (key j : ChunkKey) (chunk : Bytes)
    → HashMap.get key chunks ≡ some chunk
    → Agrees local_cache chunks j ⊎ (key ≡ j)
    → Agrees (HashMap.insert key chunk local_cache) chunks j
unfolding HashMap.get
Agrees-insert local_cache chunks key j chunk found known = elim (Bool-cases (same_bytes key j)) [
  | inl same ↦
      rw same (sym found ∙ ap (λ (k : ChunkKey). HashMap.get k chunks) (same_bytes→eq key j same))
  | inr other ↦ elim known [
    | inl agrees ↦ rw other agrees
    | inr same ↦ absurd (ground (arith, other, same, same_bytes_refl key))
  ]
]

pub accept_chunks-Agrees :
    (blake : Blake3) (chunks : ChunkMap) (keys : List ChunkKey) (local_cache : ChunkMap)
    → All (IsStored blake chunks) keys
    → (found : List Bytes) × (local' : ChunkMap) × (find_chunks chunks keys ≡ ok found)
      × (accept_chunks blake keys found local_cache ≡ ok local')
      × All (Agrees local' chunks) keys
      × ((j : ChunkKey) → Agrees local_cache chunks j → Agrees local' chunks j)
unfolding find_chunks accept_chunks
accept_chunks-Agrees blake chunks [] local_cache stored =
    ([], local_cache, refl, refl, tt, λ j h. h)
accept_chunks-Agrees blake chunks (key ∷ keys) local_cache ((chunk, there, hashed), stored) =
    let local1 = HashMap.insert key chunk local_cache in
    let (found, local', run, accepted, agree, kept) =
      accept_chunks-Agrees blake chunks keys local1 stored in
    let same : same_bytes (blake.hash chunk) key ≡ true = rw hashed (same_bytes_refl key) in
    (
      chunk ∷ found,
      local',
      rw (there, run) refl,
      rw (same, accepted) refl,
      (kept key (Agrees-insert local_cache chunks key key chunk there (inr refl)), agree),
      λ j h. kept j (Agrees-insert local_cache chunks key j chunk there (inl h)),
    )

-- When the serving proxy has each requested chunk under its hash, it answers with no error, the
-- fetching proxy accepts the answer, and then has the same chunk for each requested key.
pub accept_chunks-find_chunks :
    (blake : Blake3) (chunks : ChunkMap) (keys : List ChunkKey) (local_cache : ChunkMap)
    → All (IsStored blake chunks) keys
    → (found : List Bytes) × (local' : ChunkMap) × (find_chunks chunks keys ≡ ok found)
      × (accept_chunks blake keys found local_cache ≡ ok local')
      × All (Agrees local' chunks) keys
accept_chunks-find_chunks blake chunks keys local_cache stored =
    let (found, local', run, accepted, agree, _) =
      accept_chunks-Agrees blake chunks keys local_cache stored in
    (found, local', run, accepted, agree)
