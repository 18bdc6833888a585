-- ===== src/Factorio/World/Files.antt =====
-- factorio-cacher/src/factorio_world.rs: a single file of the world, decoded, encoded and written.
use factory_cacher.Base.{
  ℕ, ◌+◌, ◌≤◌, ◌^◌, ◌<◌, ◌≡◌, refl, sym, ap, ◌∙◌, Option-cases, Error, List, [], ◌∷◌, ◌++◌, length,
  ok, err, Bool-cases, inl, inr, arith, All, All-append, length-append, subst, ok-injective,
}
use factory_cacher.Base.Words.{Bytes, IsByte}
use factory_cacher.Extern.ByteBuf.{ByteBuf}
use factory_cacher.Extern.Crc.{Crc, Hashes-update, Hashes-digest}
use factory_cacher.Extern.Deflate.{Deflate}
use factory_cacher.Factorio.World.{
  File, FileDescription, Reconstructor, new, decode_factorio_file, encode_factorio_file, is_level,
  write_file, deflate_level_of,
}
use factory_cacher.Factorio.World.Finalize.{IsAfter}
use factory_cacher.Factorio.Zip
use factory_cacher.Factorio.Zip.Size.{encode_file-offset}

module _ (io : ByteBuf) (deflate : Deflate) where
  -- A file that was decoded and is encoded again is decoded to the same, under the same name.
  pub decode_factorio_file-encode_factorio_file :
      (file_name buf : Bytes) (file : File)
      → decode_factorio_file io deflate file_name buf ≡ ok file
      → decode_factorio_file io deflate file_name (encode_factorio_file io deflate file) ≡ ok file
  unfolding decode_factorio_file encode_factorio_file
  decode_factorio_file-encode_factorio_file file_name buf file run =
      elim (Bool-cases (is_level file_name)) [
        | inl level ↦ elim (Option-cases (deflate.decompress_to_vec_zlib_with_limit buf 20000000)) [
          | inl failed ↦ absurd (err-ok (rw (level, failed, decode_factorio_file) at run))
          | inr (content, is) ↦
              subst Again (ok-injective (rw (level, is, decode_factorio_file) at run)) (
                rw
                  (
                    level,
                    deflate.decompress-compress content 1 20000000
                        (deflate.decompress-limit buf content 20000000 is),
                    decode_factorio_file,
                  )
                  refl)
        ]
        | inr other ↦
            subst Again (ok-injective (rw (other, decode_factorio_file) at run))
              (rw (other, decode_factorio_file) refl)
      ]
    where
      Again : File → Type 0
      Again f = decode_factorio_file io deflate file_name (encode_factorio_file io deflate f) ≡ ok f

      err-ok : {e : Error} → err e ≡ ok file → ⊥
      err-ok h = cc

  module _ (crc : Crc) where
    -- A new reconstructor has sent nothing.
    pub new-IsAfter : IsAfter crc (new crc) []
    unfolding new Zip.new
    new-IsAfter = record { offset = refl; hash = Hashes-digest crc; starts = tt; names = tt }

    -- The encoded content of a described file, as it is handed to the archive.
    abbrev pub content_to_write : FileDescription → Bytes → Bytes
    content_to_write file content =
        encode_factorio_file io deflate (record { file_type = file.file_type; bytes = content })

    -- The name and the sizes fit the fields of the archive.
    abbrev pub FitsArchive : FileDescription → Bytes → Type 0
    FitsArchive file content =
        (length (content_to_write file content) < 2 ^ 32)
        × (length
              (Zip.stored io deflate.compress_to_vec crc.checksum (content_to_write file content)
                (deflate_level_of io deflate file.file_type)).0
            < 2 ^ 32)
        × (length file.file_name < 2 ^ 16)
        × All IsByte file.file_name

    pub record Writes (r : Reconstructor crc) (sent : Bytes) (file : FileDescription)
        (content : Bytes) : Type 0 where
      pub r' : Reconstructor crc
      pub out : Bytes
      pub run : write_file io deflate crc r file content ≡ ok (r', out)
      pub after : IsAfter crc r' (sent ++ out)
      pub one_more : length r'.zip_writer.entries ≡ length r.zip_writer.entries + 1

    starts-more :
        (n m : ℕ) (entries : List Zip.Entry)
        → n ≤ m
        → All (λ (e : Zip.Entry). e.start_offset ≤ n) entries
        → All (λ (e : Zip.Entry). e.start_offset ≤ m) entries
    starts-more n m [] h starts = tt
    starts-more n m (e ∷ es) h (start, starts) = (omega arith, starts-more n m es h starts)

    pub write_file-Writes :
        (r : Reconstructor crc) (sent : Bytes) (file : FileDescription) (content : Bytes)
        → IsAfter crc r sent
        → FitsArchive file content
        → Writes r sent file content
    unfolding write_file
    write_file-Writes r sent file content after (small, stored_small, name_small, name_bytes) =
        let (zip, out, entry, run, offset, entries, start, name) =
          encode_file-offset io deflate.compress_to_vec crc.checksum r.zip_writer file.file_name
            (content_to_write file content) (deflate_level_of io deflate file.file_type) small
            stored_small name_small in
        let longer : length (sent ++ out) ≡ length sent + length out = length-append sent out in
        record {
          r' = record { zip_writer = zip; crc_hasher = crc.update r.crc_hasher out };
          out = out;
          run = rw run refl;
          after = record {
            offset = omega (arith, offset, after.offset, longer);
            hash = Hashes-update crc r.crc_hasher sent out after.hash;
            starts =
                subst (All (λ (e : Zip.Entry). e.start_offset ≤ length (sent ++ out))) (sym entries)
                  (All-append _ r.zip_writer.entries (entry ∷ [])
                    (starts-more (length sent) (length (sent ++ out)) r.zip_writer.entries
                      (omega (arith, longer)) after.starts)
                    (omega (arith, start, after.offset, longer), tt));
            names = subst (All (λ (e : Zip.Entry). All IsByte e.file_name)) (sym entries) (
                All-append _ r.zip_writer.entries (entry ∷ []) after.names
                  (subst (All IsByte) (sym name) name_bytes, tt));
          };
          one_more = ap length entries ∙ length-append r.zip_writer.entries (entry ∷ []);
        }
