-- ===== src/Factorio/World/Finalize.antt =====
-- factorio-cacher/src/factorio_world.rs: `finalize_world`, after the files that were sent.
use factory_cacher.Base.{
  ℕ, ◌+◌, ◌-◌, ◌^◌, ◌≤◌, ◌<◌, ◌≡◌, refl, ap, ◌∙◌, true, false, List, [], ◌∷◌, ◌++◌, length,
  replicate, Outcome, ok, arith, length-append, length-replicate, ◌==◌, ==_iff, All, append_assoc,
  not-lt→ltb, ltb, err, world_does_not_fit, lt→ltb, All-append,
}
use factory_cacher.Base.Words.{Bytes, IsByte, length-le_bytes}
use factory_cacher.Extern.ByteBuf.{ByteBuf}
use factory_cacher.Extern.Crc.{Crc, Hashes, Hashes-update, finalize-Hashes}
use factory_cacher.Extern.Deflate.{Deflate}
use factory_cacher.Factorio.RevCrc
use factory_cacher.Factorio.RevCrc.Forge.{checksum-forge_crc, update-update}
use factory_cacher.Factorio.World.{Reconstructor, WorldDescription, finalize_world}
use factory_cacher.Factorio.World.Align.{padding, align_world-padding}
use factory_cacher.Factorio.Zip
use factory_cacher.Factorio.Zip.Octets.{encode_central_directory-IsByte}
use factory_cacher.Factorio.Zip.Size.{length-encode_central_directory}

-- What the writer and the hasher keep is about the bytes that were sent.
pub record IsAfter (crc : Crc) (r : Reconstructor crc) (sent : Bytes) : Type 0 where
  pub offset : r.zip_writer.current_offset ≡ length sent
  pub hash : Hashes crc r.crc_hasher sent
  pub starts : All (λ (e : Zip.Entry). e.start_offset ≤ length sent) r.zip_writer.entries
  pub names : All (λ (e : Zip.Entry). All IsByte e.file_name) r.zip_writer.entries

-- The last part of a world: `world_end` completes the archive, with the size and the checksum that
-- were asked for, and padding up to whole blocks stands behind it and behind the auxiliary data.
pub record IsWorldEnd (crc : Crc) (sent aux_data : Bytes) (target_world_size target_crc : ℕ)
    (result : Outcome Bytes) : Type 0 where
  pub world_end : Bytes
  pub run :
      result ≡ ok (world_end ++ padding target_world_size ++ aux_data ++ padding (length aux_data))
  pub size : length (sent ++ world_end) ≡ target_world_size
  pub checksum : crc.checksum (sent ++ world_end ++ aux_data) ≡ target_crc

length-forge_crc : (before : ℕ) (d : RevCrc.RevDigest) → length (RevCrc.forge_crc before d) ≡ 4
unfolding RevCrc.forge_crc
length-forge_crc before d = length-le_bytes 4 _

starts-below :
    (bound : ℕ) (n : ℕ) (entries : List Zip.Entry)
    → n < bound
    → All (λ (e : Zip.Entry). e.start_offset ≤ n) entries
    → All (λ (e : Zip.Entry). e.start_offset < bound) entries
starts-below bound n [] h starts = tt
starts-below bound n (e ∷ es) h (start, starts) = (omega arith, starts-below bound n es h starts)

-- The four bytes that are forged after `front`, for the given checksum.
abbrev forged : (crc : Crc) → ℕ → Bytes → Bytes → ℕ → Bytes
forged crc before aux_data footer target_crc =
    RevCrc.forge_crc before
      (RevCrc.update (RevCrc.update (RevCrc.digest (RevCrc.new crc) target_crc) aux_data) footer)

forged-checksum :
    (crc : Crc) (before target_crc : ℕ) (front aux_data footer : Bytes)
    → before ≡ crc.checksum front
    → target_crc < 2 ^ 32
    → All IsByte aux_data
    → All IsByte footer
    → crc.checksum (front ++ forged crc before aux_data footer target_crc ++ (footer ++ aux_data))
      ≡ target_crc
forged-checksum crc before target_crc front aux_data footer is fit aux_bytes footer_bytes =
    rw (is, update-update)
      (checksum-forge_crc crc front (footer ++ aux_data) target_crc fit
        (All-append IsByte footer aux_data footer_bytes aux_bytes))

-- The digest of the whole, against the checksum of the whole.
digest_of_all :
    (crc : Crc) (d : crc.Digest) (front forge footer aux_data : Bytes)
    → Hashes crc d front
    → crc.finalize (crc.update (crc.update (crc.update d forge) footer) aux_data)
      ≡ crc.checksum (front ++ forge ++ (footer ++ aux_data))
digest_of_all crc d front forge footer aux_data h =
    finalize-Hashes crc (crc.update (crc.update (crc.update d forge) footer) aux_data)
      (front ++ forge ++ footer ++ aux_data)
      (Hashes-update crc (crc.update (crc.update d forge) footer) (front ++ forge ++ footer)
        aux_data
        (Hashes-update crc (crc.update d forge) (front ++ forge) footer
          (Hashes-update crc d front forge h)))
    ∙ ap crc.checksum (append_assoc (front ++ forge) footer aux_data)

regroup :
    (sent zeros forge footer aux_data : Bytes)
    → sent ++ (zeros ++ forge ++ footer) ++ aux_data
      ≡ sent ++ zeros ++ forge ++ (footer ++ aux_data)
regroup sent zeros forge footer aux_data = simp append_assoc refl

abbrev zeros : ℕ → Bytes
zeros n = replicate n 0

module _ (io : ByteBuf) (deflate : Deflate) (crc : Crc) where
  -- The size of a finished archive, with the four bytes for the checksum.
  abbrev pub total_size : Reconstructor crc → ℕ
  total_size r = Zip.current_size r.zip_writer + Zip.central_directory_size r.zip_writer + 4

  pub finalize_world-too_large :
      (r : Reconstructor crc) (world : WorldDescription) (size target_crc : ℕ)
      → size < total_size r
      → finalize_world io deflate crc r world size target_crc ≡ err world_does_not_fit
  unfolding finalize_world
  finalize_world-too_large r world size target_crc h = rw (lt→ltb _ _ h) refl

  with_footer :
      (r : Reconstructor crc) (sent footer : Bytes) (world_desc : WorldDescription)
      (target_world_size target_crc : ℕ)
      → IsAfter crc r sent
      → Zip.encode_central_directory io
          (Zip.advance_offset (length (zeros (target_world_size - total_size r)) + 4) r.zip_writer)
        ≡ ok footer
      → length footer ≡ Zip.central_directory_size r.zip_writer
      → All IsByte footer
      → total_size r ≤ target_world_size
      → target_world_size + 503 ≤ 2 ^ 32
      → length world_desc.aux_data + 503 ≤ 2 ^ 32
      → target_crc < 2 ^ 32
      → All IsByte world_desc.aux_data
      → IsWorldEnd crc sent world_desc.aux_data target_world_size target_crc
          (finalize_world io deflate crc r world_desc target_world_size target_crc)
  unfolding finalize_world Zip.current_size
  with_footer r sent footer world_desc target_world_size target_crc after encoded footer_size
        footer_bytes room fit aux_fit crc_fit aux_bytes =
      rw (guarded, encoded, sized, crc_test)
        (record {
          world_end = output;
          run =
              align_world-padding io deflate crc aux output (Zip.current_size r.zip_writer)
                target_world_size output_size fit aux_fit;
          size = omega (arith, length-append sent output, after.offset, output_size);
          checksum = ap crc.checksum (regroup sent gap forge footer aux) ∙ whole;
        })
    where
      aux : Bytes
      aux = world_desc.aux_data

      gap : Bytes
      gap = zeros (target_world_size - total_size r)

      padded : crc.Digest
      padded = crc.update r.crc_hasher gap

      padded-Hashes : Hashes crc padded (sent ++ gap)
      padded-Hashes = Hashes-update crc r.crc_hasher sent gap after.hash

      forge : Bytes
      forge = forged crc (crc.finalize padded) aux footer target_crc

      output : Bytes
      output = gap ++ forge ++ footer

      output_size : Zip.current_size r.zip_writer + length output ≡ target_world_size
      output_size = omega (
        arith,
        length-append (gap ++ forge) footer,
        length-append gap forge,
        footer_size,
        length-forge_crc (crc.finalize padded)
            (RevCrc.update (RevCrc.update (RevCrc.digest (RevCrc.new crc) target_crc) aux) footer),
        length-replicate {A = ℕ} (target_world_size - total_size r) 0,
      )

      guarded : ltb target_world_size (total_size r) ≡ false
      guarded = not-lt→ltb _ _ (omega arith)

      sized : (Zip.current_size r.zip_writer + length output == target_world_size) ≡ true
      sized =
          (==_iff (Zip.current_size r.zip_writer + length output) target_world_size).1 output_size

      whole : crc.checksum (sent ++ gap ++ forge ++ (footer ++ aux)) ≡ target_crc
      whole =
          forged-checksum crc (crc.finalize padded) target_crc (sent ++ gap) aux footer
            (finalize-Hashes crc padded (sent ++ gap) padded-Hashes) crc_fit aux_bytes footer_bytes

      crc_test :
          (crc.finalize (crc.update (crc.update (crc.update padded forge) footer) aux)
            == target_crc)
          ≡ true
      crc_test =
          (==_iff _ target_crc).1
            (digest_of_all crc padded (sent ++ gap) forge footer aux padded-Hashes ∙ whole)

  -- After files whose bytes were sent, with fewer than 2 ^ 16 entries, when the archive with its
  -- directory fits the target size, which like the size of the auxiliary data is at most
  -- 2 ^ 32 - 503, and the target checksum is below 2 ^ 32: `finalize_world` ends with no error and
  -- no failed assertion; the bytes that were sent and the new ones have the target size, and with
  -- the auxiliary data, which is bytes, the target checksum; the world and the auxiliary data are
  -- each padded with zeros to whole blocks.
  pub finalize_world-IsWorldEnd :
      (r : Reconstructor crc) (sent : Bytes) (world_desc : WorldDescription)
      (target_world_size target_crc : ℕ)
      → IsAfter crc r sent
      → length r.zip_writer.entries < 2 ^ 16
      → total_size r ≤ target_world_size
      → target_world_size + 503 ≤ 2 ^ 32
      → length world_desc.aux_data + 503 ≤ 2 ^ 32
      → target_crc < 2 ^ 32
      → All IsByte world_desc.aux_data
      → IsWorldEnd crc sent world_desc.aux_data target_world_size target_crc
          (finalize_world io deflate crc r world_desc target_world_size target_crc)
  unfolding Zip.advance_offset Zip.central_directory_size Zip.current_size
  finalize_world-IsWorldEnd r sent world_desc target_world_size target_crc after count room fit
        aux_fit crc_fit bytes =
      let (footer, encoded, footer_size) =
        length-encode_central_directory io zip
          (omega (arith, length-replicate {A = ℕ} (target_world_size - total_size r) 0)) count
          (starts-below (2 ^ 32) (length sent) r.zip_writer.entries (omega (arith, after.offset))
            after.starts)
          (omega arith) in
      with_footer r sent footer world_desc target_world_size target_crc after encoded footer_size
        (encode_central_directory-IsByte io zip footer after.names encoded) room fit aux_fit crc_fit
        bytes
    where
      zip : Zip.Writer
      zip = Zip.advance_offset (length (zeros (target_world_size - total_size r)) + 4) r.zip_writer
