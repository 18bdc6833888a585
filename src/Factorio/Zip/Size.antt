-- ===== src/Factorio/Zip/Size.antt =====
-- factorio-cacher/src/zip_writer.rs: the sizes and offsets that the writer computes.
use factory_cacher.Base.{
  ℕ, ◌+◌, ◌^◌, ◌<◌, ◌≡◌, refl, ap, ◌∙◌, Option, List, [], ◌∷◌, ◌++◌, lt→ltb, length, length-append,
  ok, All, arith,
}
use factory_cacher.Base.Words.{Bytes, le_bytes, length-le_bytes}
use factory_cacher.Extern.ByteBuf.{ByteBuf}
use factory_cacher.Factorio.Zip.{
  Entry, Writer, narrow, put_fields, put_entry, put_entries, encode_central_directory,
  central_directory_size, entries_size, encode_file, stored,
}

narrow-fits : (w x : ℕ) → x < 2 ^ w → narrow w x ≡ ok x
unfolding narrow
narrow-fits w x h = rw (lt→ltb x (2 ^ w) h) refl

-- The widths of a run of fields, added up.
widths : List (ℕ × ℕ) → ℕ
widths [] = 0
widths ((w, x) ∷ fields) = w + widths fields

entries_size-add :
    (n m : ℕ) (entries : List Entry) → entries_size (n + m) entries ≡ n + entries_size m entries
unfolding entries_size
entries_size-add n m [] = refl
entries_size-add n m (entry ∷ entries) =
    ap (λ (k : ℕ). entries_size k entries) (omega arith)
    ∙ entries_size-add n (m + (46 + length entry.file_name)) entries

plus_zero : (n : ℕ) → n + 0 ≡ 0 + n
plus_zero n = omega arith

file_offset :
    (offset : ℕ) (front name rest : Bytes)
    → offset + length (front ++ name) + length rest ≡ offset + length (front ++ name ++ rest)
file_offset offset front name rest = omega (arith, length-append (front ++ name) rest)

module _ (io : ByteBuf) where
  length-put_fields :
      (fields : List (ℕ × ℕ)) (buf : Bytes)
      → length (put_fields io fields buf) ≡ length buf + widths fields
  unfolding put_fields widths
  length-put_fields [] buf = omega arith
  length-put_fields ((w, x) ∷ fields) buf =
      length-put_fields fields (io.put_le w x buf)
      ∙ omega (
        arith,
        ap length (io.put_le_lem w x buf),
        length-append buf (le_bytes w x),
        length-le_bytes w x,
      )

  put_entry-size :
      (entry : Entry) (buf : Bytes)
      → entry.start_offset < 2 ^ 32
      → (out : Bytes) × (put_entry io entry buf ≡ ok out)
        × (length out ≡ length buf + (46 + length entry.file_name))
  unfolding put_entry widths
  put_entry-size entry buf fit =
      rw (narrow-fits 32 entry.start_offset fit)
        (_, refl, length-append _ entry.file_name ∙ omega (arith, length-put_fields _ buf))

  put_entries-size :
      (entries : List Entry) (buf : Bytes)
      → All (λ (e : Entry). e.start_offset < 2 ^ 32) entries
      → (out : Bytes) × (put_entries io entries buf ≡ ok out)
        × (length out ≡ length buf + entries_size 0 entries)
  unfolding put_entries entries_size
  put_entries-size [] buf fit = (buf, refl, omega arith)
  put_entries-size (entry ∷ entries) buf fit =
      let (mid, step, mid_size) = put_entry-size entry buf fit.0 in
      let (out, run, size) = put_entries-size entries mid fit.1 in
      rw (step, run)
        (
          out,
          refl,
          omega (
            arith,
            size,
            mid_size,
            entries_size-add (46 + length entry.file_name) 0 entries,
            ap (λ (n : ℕ). entries_size n entries) (plus_zero (46 + length entry.file_name)),
          ),
        )

  -- When the writer has fewer than 2 ^ 16 entries, and its current offset, the offsets of its entries
  -- and the size of the directory are below 2 ^ 32, the central directory is encoded with no panic, and its length is `central_directory_size`.
  pub length-encode_central_directory :
      (z : Writer)
      → z.current_offset < 2 ^ 32
      → length z.entries < 2 ^ 16
      → All (λ (e : Entry). e.start_offset < 2 ^ 32) z.entries
      → central_directory_size z < 2 ^ 32
      → (out : Bytes) × (encode_central_directory io z ≡ ok out)
        × (length out ≡ central_directory_size z)
  unfolding encode_central_directory central_directory_size widths
  length-encode_central_directory z offset count offsets small =
      let (buf, run, size) = put_entries-size z.entries [] offsets in
      rw
        (
          narrow-fits 32 z.current_offset offset,
          narrow-fits 16 (length z.entries) count,
          run,
          narrow-fits 32 (length buf) (omega (arith, size)),
        )
        (_, refl, length-put_fields _ buf ∙ omega (arith, size))

  module _ (compress_to_vec : Bytes → ℕ → Bytes) (checksum : Bytes → ℕ) where
    -- A file whose size, stored size and name fit their fields is encoded with no panic; the offset
    -- moves on by the length of what is written, and the new entry, behind the others, starts at the
    -- old offset.
    pub encode_file-offset :
        (z : Writer) (file_name file_data : Bytes) (deflate_level : Option ℕ)
        → length file_data < 2 ^ 32
        → length (stored io compress_to_vec checksum file_data deflate_level).0 < 2 ^ 32
        → length file_name < 2 ^ 16
        → (z' : Writer) × (out : Bytes) × (entry : Entry) × (encode_file io compress_to_vec checksum
              z file_name file_data deflate_level
            ≡ ok (z', out))
          × (z'.current_offset ≡ z.current_offset + length out)
          × (z'.entries ≡ z.entries ++ entry ∷ [])
          × (entry.start_offset ≡ z.current_offset)
          × (entry.file_name ≡ file_name)
    unfolding encode_file
    encode_file-offset z file_name file_data deflate_level h1 h2 h3 =
        rw (narrow-fits 32 _ h1, narrow-fits 32 _ h2, narrow-fits 16 _ h3)
          (_, _, _, refl, file_offset z.current_offset _ file_name _, refl, refl, refl)
