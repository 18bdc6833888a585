-- ===== src/Factorio/Client/Transfer/Served.antt =====
-- factorio-cacher/src/proxy/client_proxy.rs: the pieces that `transfer_world_data` sends, one after
-- the other, are the world that the game was told of.
use factory_cacher.Base.{
  ℕ, ◌+◌, ◌≤◌, ◌^◌, ◌<◌, ◌≡◌, refl, sym, ap, ◌∙◌, true, Option, some, List, [], ◌∷◌, ◌++◌, ok,
  concat, arith, All, length, append_assoc, append-nil, ◌⊎◌, inl, inr, err, world_does_not_fit,
  Bool-cases, ltb, ltb→lt, ltb-false→le,
}
use factory_cacher.Base.Words.{Bytes, IsByte}
use factory_cacher.Extern.Blake3.{Blake3}
use factory_cacher.Extern.ByteBuf.{ByteBuf}
use factory_cacher.Extern.Crc.{Crc}
use factory_cacher.Extern.Deflate.{Deflate}
use factory_cacher.Dedup.{ChunkMap, map_provider}
use factory_cacher.Dedup.Levels.{Keyed}
use factory_cacher.Dedup.Rebuild.{NoCollision}
use factory_cacher.Factorio.World
use factory_cacher.Factorio.World.Described.{Entry, Described}
use factory_cacher.Factorio.World.{FileDescription, WorldDescription, Reconstructor}
use factory_cacher.Factorio.World.Align.{padding}
use factory_cacher.Factorio.World.Files.{FitsArchive, write_file-Writes, new-IsAfter}
use factory_cacher.Factorio.World.Finalize.{
  IsAfter, total_size, finalize_world-IsWorldEnd, finalize_world-too_large,
}
use factory_cacher.Factorio.Zip
use factory_cacher.Factorio.Client.Transfer.{
  Run, WorldReady, ended, try_run, then_run, rebuild_world, send_end,
}
use factory_cacher.Factorio.Client.Transfer.Rebuilt.{
  write_files, write_world, rebuild_world-Described,
}

module _ (io : ByteBuf) (deflate : Deflate) (crc : Crc) where
  -- Each file fits the fields of the archive.
  abbrev pub AllFit : List FileDescription → List Bytes → Type 0
  AllFit [] [] = Unit {0}
  AllFit (file ∷ files) (content ∷ contents) =
      FitsArchive io deflate crc file content × AllFit files contents
  AllFit _ _ = ⊥

  -- All files were written, and nothing failed.
  pub record AllWritten {P : Type 0} (r : Reconstructor crc) (p : P) (files : List FileDescription)
      (run : Run (Reconstructor crc × P)) : Type 0 where
    pub r' : Reconstructor crc
    pub outs : List Bytes
    pub ends : run ≡ ended outs (ok (r', p))
    pub after : IsAfter crc r' (concat outs)
    pub entries : length r'.zip_writer.entries ≡ length r.zip_writer.entries + length files

  concat-snoc : (xs : List Bytes) (x : Bytes) → concat (xs ++ x ∷ []) ≡ concat xs ++ x
  concat-snoc [] x = append-nil x
  concat-snoc (y ∷ ys) x = ap (◌++◌ y) (concat-snoc ys x) ∙ sym (append_assoc y (concat ys) x)

  write_files-AllWritten :
      {P : Type 0} (r : Reconstructor crc) (files : List FileDescription) (contents : List Bytes)
      (p : P) (sent : List Bytes)
      → IsAfter crc r (concat sent)
      → AllFit files contents
      → AllWritten r p files (write_files io deflate crc r files contents p sent)
  unfolding write_files try_run
  write_files-AllWritten r [] [] p sent after fit = record {
    r' = r;
    outs = sent;
    ends = refl;
    after = after;
    entries = omega arith;
  }
  write_files-AllWritten r (f ∷ fs) (c ∷ cs) p sent after (here, rest) =
      let w = write_file-Writes io deflate crc r (concat sent) f c after here in
      let later =
        write_files-AllWritten w.r' fs cs p (sent ++ w.out ∷ [])
          (rw (concat-snoc sent w.out) w.after) rest in
      rw (w.run, try_run)
        (record {
          r' = later.r';
          outs = later.outs;
          ends = later.ends;
          after = later.after;
          entries = omega (arith, later.entries, w.one_more);
        })
  write_files-AllWritten r [] (c ∷ cs) p sent after fit = absurd fit
  write_files-AllWritten r (f ∷ fs) [] p sent after fit = absurd fit

  -- All files of a world were written: the reconstructor that is left, and the pieces.
  pub record FilesWritten {P : Type 0} (ready : WorldReady) (contents : List Bytes) (p : P)
      : Type 0 where
    pub r : Reconstructor crc
    pub pieces : List Bytes
    pub written :
        write_files io deflate crc (World.new crc) ready.world.files contents p []
        ≡ ended pieces (ok (r, p))
    pub after : IsAfter crc r (concat pieces)

  -- The bytes that the archive of these files takes at least: what was sent, its directory, and the
  -- four forged bytes.
  abbrev pub needed :
      {P : Type 0} (ready : WorldReady) (contents : List Bytes) (p : P)
      → FilesWritten ready contents p
      → ℕ
  needed ready contents p files =
      length (concat files.pieces) + Zip.central_directory_size files.r.zip_writer + 4

  -- The pieces are the world, the auxiliary data, and zeros behind each up to whole blocks. The
  -- world has the size that was announced, and both together the checksum.
  pub record Served {P : Type 0} (ready : WorldReady) (contents : List Bytes) (p : P)
      (run : Run (Option P)) : Type 0 where
    pub files : FilesWritten ready contents p
    pub fits : needed ready contents p files ≤ ready.new_info.world_size
    pub pieces : List Bytes
    pub world : Bytes
    pub ends : run ≡ record { sent = pieces; marked_dirty = true; result = ok (some p) }
    pub all :
        concat pieces
        ≡ world
          ++ padding ready.new_info.world_size
          ++ ready.world.aux_data
          ++ padding (length ready.world.aux_data)
    pub size : length world ≡ ready.new_info.world_size
    pub checksum : crc.checksum (world ++ ready.world.aux_data) ≡ ready.new_info.world_crc

  -- The archive of the files is larger than was announced, and the task ends with an error, its
  -- files sent.
  pub record TooLarge {P : Type 0} (ready : WorldReady) (contents : List Bytes) (p : P)
      (run : Run (Option P)) : Type 0 where
    pub files : FilesWritten ready contents p
    pub larger : ready.new_info.world_size < needed ready contents p files
    pub ends :
        run ≡ record { sent = files.pieces; marked_dirty = true; result = err world_does_not_fit }

  -- What was announced fits the arithmetic.
  pub record IsAnnounced (ready : WorldReady) : Type 0 where
    pub files : length ready.world.files < 2 ^ 16
    pub world_size : ready.new_info.world_size + 503 ≤ 2 ^ 32
    pub aux_size : length ready.world.aux_data + 503 ≤ 2 ^ 32
    pub world_crc : ready.new_info.world_crc < 2 ^ 32
    pub aux_bytes : All IsByte ready.world.aux_data

  current_size-offset :
      (r : Reconstructor crc) (sent : Bytes)
      → IsAfter crc r sent
      → Zip.current_size r.zip_writer ≡ length sent
  unfolding Zip.current_size
  current_size-offset r sent after = after.offset

  write_world-Served :
      {P : Type 0} (ready : WorldReady) (contents : List Bytes) (p : P)
      → IsAnnounced ready
      → AllFit ready.world.files contents
      → Served ready contents p (write_world io deflate crc ready contents p)
        ⊎ TooLarge ready contents p (write_world io deflate crc ready contents p)
  unfolding write_world then_run ended try_run send_end World.new Zip.new
  write_world-Served ready contents p announced fit =
      let w =
        write_files-AllWritten (World.new crc) ready.world.files contents p []
          (new-IsAfter io deflate crc) fit in
      let files : FilesWritten ready contents p = record {
        r = w.r';
        pieces = w.outs;
        written = w.ends;
        after = w.after;
      } in
      let same : total_size io deflate crc w.r' ≡ needed ready contents p files =
        ap (λ (n : ℕ). n + Zip.central_directory_size w.r'.zip_writer + 4)
          (current_size-offset w.r' (concat w.outs) w.after) in
      elim (Bool-cases (ltb ready.new_info.world_size (total_size io deflate crc w.r'))) [
        | inr room ↦
            let end =
              finalize_world-IsWorldEnd io deflate crc w.r' (concat w.outs) ready.world
                ready.new_info.world_size ready.new_info.world_crc w.after
                (omega (arith, w.entries, announced.files)) (ltb-false→le _ _ room)
                announced.world_size announced.aux_size announced.world_crc announced.aux_bytes in
            inl (record {
              files = files;
              fits = rw (sym same) (ltb-false→le _ _ room);
              pieces = w.outs ++ last end.world_end ∷ [];
              world = concat w.outs ++ end.world_end;
              ends = rw (w.ends, end.run) refl;
              all = concat-snoc w.outs (last end.world_end) ∙ simp append_assoc refl;
              size = end.size;
              checksum = end.checksum;
            })
        | inl larger ↦ inr (record {
          files = files;
          larger = rw (sym same) (ltb→lt _ _ larger);
          ends =
              rw
                (
                  w.ends,
                  finalize_world-too_large io deflate crc w.r' ready.world ready.new_info.world_size
                      ready.new_info.world_crc (ltb→lt _ _ larger),
                )
                refl;
        })
      ]
    where
      last : Bytes → Bytes
      last world_end =
          world_end
          ++ padding ready.new_info.world_size
          ++ ready.world.aux_data
          ++ padding (length ready.world.aux_data)

-- With the chunks of a described world, stored under their hashes and no two under one hash, when
-- fewer than 2 ^ 16 files with sizes and names that fit the archive are described, and the
-- announced sizes and checksum fit 32 bits (the sizes with room for a block), the files are all
-- written and sent. What they, their directory and the four forged bytes take decides: if it is at
-- most the announced size, the task ends well, with pieces that make up a world of the announced
-- size and, with the auxiliary data, of the announced checksum, in whole blocks; if it is more, the
-- task ends with the error that says so.
pub rebuild_world-Served :
    (io : ByteBuf) (deflate : Deflate) (crc : Crc) (blake : Blake3) (chunks : ChunkMap) (fuel : ℕ)
    (ready : WorldReady) (entries : List Entry) (contents : List Bytes)
    → Keyed io blake chunks
    → NoCollision blake chunks
    → Described io deflate blake chunks fuel entries ready.world.files contents
    → IsAnnounced io deflate crc ready
    → AllFit io deflate crc ready.world.files contents
    → Served io deflate crc ready contents chunks
        (rebuild_world io deflate crc map_provider fuel fuel ready chunks)
      ⊎ TooLarge io deflate crc ready contents chunks
          (rebuild_world io deflate crc map_provider fuel fuel ready chunks)
rebuild_world-Served io deflate crc blake chunks fuel ready entries contents keyed distinct
      described announced fit =
    rw
      (rebuild_world-Described io deflate crc blake chunks keyed distinct fuel ready entries
        contents described)
      (write_world-Served io deflate crc ready contents chunks announced fit)
