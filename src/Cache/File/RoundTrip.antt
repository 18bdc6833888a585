-- ===== src/Cache/File/RoundTrip.antt =====
-- common/src/chunk_cache.rs: the file of a cache, written and loaded again.
use factory_cacher.Base.{
  ℕ, ◌+◌, ◌^◌, ◌≤◌, ◌<◌, ◌≡◌, refl, sym, ap, ◌∙◌, none, [], ◌∷◌, ◌++◌, append_assoc, append-nil,
  lt→ltb, not-lt→ltb, length, length-append, take-append_left, drop-append_left, Outcome, ok, err,
  unexpected_eof, All, arith, true, false,
}
use factory_cacher.Base.HashMap
use factory_cacher.Base.HashMap.{HashMap}
use factory_cacher.Base.HashMap.Laws.{same_bytes-sym, Distinct, remove_absent}
use factory_cacher.Base.Words.{
  Bytes, le_bytes, of_le-le_bytes, length-le_bytes, same_bytes, same_bytes_refl,
}
use factory_cacher.Extern.Blake3.{Blake3}
use factory_cacher.Extern.LinkedMap.{LinkedMap}
use factory_cacher.Cache.Raw
use factory_cacher.Cache.Raw.{RawCache}
use factory_cacher.Cache.Raw.Eviction.{
  IsValid, entries_of, insert-fit, new-IsValid, new-max_size, entries-new,
}
use factory_cacher.Cache.Raw.Sizes.{sizes, sizes-append, fit, fit-small}
use factory_cacher.Cache.File.{
  read_exact, u32_bytes, write_chunks, write_chunk_cache, keep_chunk, read_chunks, read_chunk_cache,
  chunk_length_limit,
}

pub read_exact-append :
    (n : ℕ) (front rest : Bytes)
    → length front ≡ n
    → read_exact n (front ++ rest) ≡ ok (front, rest)
unfolding read_exact
read_exact-append n front rest h = rw (
  not-lt→ltb (length (front ++ rest)) n (omega (arith, length-append front rest)),
  take-append_left n front rest h,
  drop-append_left n front rest h,
)

-- One chunk in a file, and all of them.
wire : HashMap Bytes → Bytes
wire [] = []
wire ((key, chunk) ∷ entries) = key ++ (le_bytes 4 (length chunk) ++ (chunk ++ wire entries))

-- The key of an absent entry in front of the others.
Distinct-absent :
    (m n : HashMap Bytes) (k v : Bytes) → Distinct (m ++ (k, v) ∷ n) → HashMap.get k m ≡ none
unfolding HashMap.get
Distinct-absent [] n k v d = refl
Distinct-absent ((j, w) ∷ m) n k v d =
    let other : same_bytes j k ≡ false = same_bytes-sym k j (not_first j m n k v d.0) in
    rw other (Distinct-absent m n k v d.1)
  where
    not_first :
        (j : Bytes) (m n : HashMap Bytes) (k v : Bytes)
        → HashMap.get j (m ++ (k, v) ∷ n) ≡ none
        → same_bytes k j ≡ false
    not_first j [] n k v h = ground arith
    not_first j ((i, w) ∷ m) n k v h = ground (arith, not_first j m n k v)

-- What the file of a cache can hold: a chunk under its hash that is not too long.
abbrev pub IsChunk : Blake3 → Bytes × Bytes → Type 0
IsChunk blake3 entry = (entry.0 ≡ blake3.hash entry.1) × (length entry.1 ≤ 20000000)

write_chunks-wire :
    (blake3 : Blake3) (entries : HashMap Bytes) (out : Bytes)
    → All (IsChunk blake3) entries
    → write_chunks entries out ≡ ok (out ++ wire entries)
unfolding write_chunks wire u32_bytes
write_chunks-wire blake3 [] out good = rw (append-nil out) refl
write_chunks-wire blake3 ((key, chunk) ∷ entries) out good =
    rw (lt→ltb (length chunk) (2 ^ 32) (omega (arith, good.0.1))) (
      write_chunks-wire blake3 entries (out ++ (key ++ (le_bytes 4 (length chunk) ++ chunk))) good.1
      ∙ ap ok (simp append_assoc refl))

module _ (linked : LinkedMap) (blake3 : Blake3) where
  -- What a run of the loop gives: the entries behind those that were there.
  abbrev Reads : RawCache linked → HashMap Bytes → Outcome (RawCache linked × Bytes) → Type 0
  Reads cache entries r =
      (cache' : RawCache linked) × (r ≡ ok (cache', []))
      × (entries_of linked cache' ≡ entries_of linked cache ++ entries)
      × (cache'.max_size ≡ cache.max_size)
      × IsValid linked cache'

  read_chunks-Reads :
      (entries : HashMap Bytes) (cache : RawCache linked)
      → IsValid linked cache
      → Distinct (entries_of linked cache ++ entries)
      → sizes (entries_of linked cache ++ entries) ≤ cache.max_size
      → cache.max_size + 20000000 < 2 ^ 64
      → All (IsChunk blake3) entries
      → Reads cache entries (read_chunks linked blake3 (length entries) cache (wire entries))
  unfolding read_chunks wire keep_chunk chunk_length_limit
  read_chunks-Reads [] cache valid distinct small room good =
      (cache, refl, sym (append-nil (entries_of linked cache)), refl, valid)
  read_chunks-Reads ((key, chunk) ∷ entries) cache valid distinct small room good =
      let es = entries_of linked cache in
      let front = es ++ (key, chunk) ∷ [] in
      let key_length : length key ≡ 32 = ap length good.0.0 ∙ blake3.length-hash chunk in
      let absent = Distinct-absent es entries key chunk distinct in
      let (cache1, run, fits, limit, valid1) =
        insert-fit linked cache key chunk valid (omega (arith, good.0.1)) in
      let whole : front ++ entries ≡ es ++ (key, chunk) ∷ entries =
        append_assoc es ((key, chunk) ∷ []) entries in
      let now : entries_of linked cache1 ≡ front =
        fits
        ∙ ap (λ (m : HashMap Bytes). fit cache.max_size (m ++ (key, chunk) ∷ []))
            (remove_absent key es absent)
        ∙ fit-small cache.max_size front
            (omega (arith, small, sizes-append front entries, ap sizes whole)) in
      let all : entries_of linked cache1 ++ entries ≡ es ++ (key, chunk) ∷ entries =
        ap (λ (m : HashMap Bytes). m ++ entries) now ∙ whole in
      let (cache', rest, there, limit', valid') =
        read_chunks-Reads entries cache1 valid1 (rw all distinct) (rw (all, limit) small)
          (rw limit room) good.1 in
      let same : same_bytes (blake3.hash chunk) key ≡ true =
        rw (← good.0.0) (same_bytes_refl key) in
      rw
        (
          read_exact-append 32 key (le_bytes 4 (length chunk) ++ (chunk ++ wire entries))
              key_length,
          read_exact-append 4 (le_bytes 4 (length chunk)) (chunk ++ wire entries)
              (length-le_bytes 4 (length chunk)),
          of_le-le_bytes 4 (length chunk) (omega (arith, good.0.1)),
          not-lt→ltb 20000000 (length chunk) good.0.1,
          read_exact-append (length chunk) chunk (wire entries) refl,
          same,
          run,
        )
        (cache', rest, there ∙ all, limit' ∙ limit, valid')

  -- A valid cache, with a limit that is more than 20 million below 2 ^ 64, whose chunks lie under their
  -- hashes, none longer than 20 million bytes, and fewer than 2 ^ 32 of them, is written with no panic. Loading the file into a new cache of the same limit
  -- gives no error: it has the same chunks in the same order of use, and is well formed.
  pub read_chunk_cache-write_chunk_cache :
      (cache : RawCache linked)
      → IsValid linked cache
      → cache.max_size + 20000000 < 2 ^ 64
      → length (entries_of linked cache) < 2 ^ 32
      → All (IsChunk blake3) (entries_of linked cache)
      → (file : Bytes) × (cache' : RawCache linked) × (write_chunk_cache linked cache ≡ ok file)
        × (read_chunk_cache linked blake3 (Raw.new linked cache.max_size) file ≡ ok cache')
        × (entries_of linked cache' ≡ entries_of linked cache)
        × IsValid linked cache'
  unfolding write_chunk_cache read_chunk_cache u32_bytes
  read_chunk_cache-write_chunk_cache cache valid room few good =
      let es = entries_of linked cache in
      let count = linked.len cache.chunks in
      let counted : count ≡ length es = linked.len-entries cache.chunks in
      let fresh = Raw.new linked cache.max_size in
      let none_yet : entries_of linked fresh ≡ [] = entries-new linked cache.max_size in
      let all : entries_of linked fresh ++ es ≡ es = ap (λ (m : HashMap Bytes). m ++ es) none_yet in
      let (cache', run, there, limit, valid') =
        read_chunks-Reads es fresh (new-IsValid linked cache.max_size) (rw all valid.distinct)
          (rw (all, new-max_size linked cache.max_size)
            (omega (arith, valid.counted, valid.bounded)))
          (rw (new-max_size linked cache.max_size) room) good in
      (
        le_bytes 4 (length es) ++ wire es,
        cache',
        rw (counted, lt→ltb (length es) (2 ^ 32) few)
            (write_chunks-wire blake3 es (le_bytes 4 (length es)) good),
        rw
            (
              read_exact-append 4 (le_bytes 4 (length es)) (wire es)
                  (length-le_bytes 4 (length es)),
              of_le-le_bytes 4 (length es) few,
              run,
            )
            refl,
        there ∙ all,
        valid',
      )

pub read_exact-short :
    (n : ℕ) (bytes : Bytes) → length bytes < n → read_exact n bytes ≡ err unexpected_eof
unfolding read_exact
read_exact-short n bytes short = rw (lt→ltb (length bytes) n short) refl
