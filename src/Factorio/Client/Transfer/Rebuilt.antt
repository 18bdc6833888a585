-- ===== src/Factorio/Client/Transfer/Rebuilt.antt =====
-- factorio-cacher/src/proxy/client_proxy.rs: `transfer_world_data` with the chunks that
-- `deconstruct_world` stored, against a transfer that is given the contents of the files.
use factory_cacher.Base.{
  ℕ, ◌≡◌, refl, Option, List, [], ◌∷◌, ◌++◌, map, Outcome, ok, err, panic, stuck, ◌>>=◌, All,
}
use factory_cacher.Base.Words.{Bytes}
use factory_cacher.Extern.Blake3.{Blake3}
use factory_cacher.Extern.ByteBuf.{ByteBuf}
use factory_cacher.Extern.Crc.{Crc}
use factory_cacher.Extern.Deflate.{Deflate}
use factory_cacher.Dedup.{ChunkMap, map_provider}
use factory_cacher.Dedup.Levels.{Keyed}
use factory_cacher.Dedup.Prefetch.Ends.{IsTree, prefetch_metadata_chunks-ends}
use factory_cacher.Dedup.Rebuild.{NoCollision, reconstruct_data-Yields}
use factory_cacher.Factorio.World
use factory_cacher.Factorio.World.{
  FileDescription, WorldDescription, Reconstructor, deconstruct_world,
}
use factory_cacher.Factorio.World.Described.{Entry, Described}
use factory_cacher.Factorio.World.Deconstruct.{deconstruct_world-IsDeconstructed}
use factory_cacher.Factorio.Client.Transfer.{
  Run, WorldReady, ended, try_run, then_run, rebuild_files, rebuild_world, send_end, chunk_list_of,
}

try_run-ok :
    {A B C : Type 0} (sent : List Bytes) (x : Outcome A) (g : A → B) (k : B → Run C)
    (k' : A → Run C)
    → ((a : A) → k (g a) ≡ k' a)
    → try_run sent (x >>= λ a. ok (g a)) k ≡ try_run sent x k'
unfolding try_run
try_run-ok sent (ok a) g k k' same = same a
try_run-ok sent (err e) g k k' same = refl
try_run-ok sent panic g k k' same = refl
try_run-ok sent stuck g k k' same = refl

module _ (io : ByteBuf) (deflate : Deflate) (crc : Crc) where
  -- The loop over the files, given their contents.
  unfoldable pub write_files :
      {P : Type 0}
      → Reconstructor crc
      → List FileDescription
      → List Bytes
      → P
      → List Bytes
      → Run (Reconstructor crc × P)
  unfolding ended try_run
  write_files r [] contents p sent = ended sent (ok (r, p))
  write_files r (file ∷ files) [] p sent = ended sent stuck
  write_files r (file ∷ files) (content ∷ contents) p sent =
      try_run sent (World.write_file io deflate crc r file content)
        (λ x. write_files x.0 files contents p (sent ++ x.1 ∷ []))

  -- The transfer, given the contents.
  unfoldable pub write_world : {P : Type 0} → WorldReady → List Bytes → P → Run (Option P)
  unfolding then_run write_files send_end
  write_world ready contents p =
      then_run (write_files (World.new crc) ready.world.files contents p []) (λ sent x.
        send_end sent x.1 (
          World.finalize_world io deflate crc x.0 ready.world ready.new_info.world_size
            ready.new_info.world_crc))

  module _ (blake : Blake3) (chunks : ChunkMap) (keyed : Keyed io blake chunks)
      (distinct : NoCollision blake chunks) where
    rebuild_files-write_files :
        (fuel : ℕ) (r : Reconstructor crc) (entries : List Entry) (files : List FileDescription)
        (contents sent : List Bytes)
        → Described io deflate blake chunks fuel entries files contents
        → rebuild_files io deflate crc map_provider fuel r files chunks sent
          ≡ write_files r files contents chunks sent
    unfolding rebuild_files write_files World.reconstruct_world_file
    rebuild_files-write_files fuel r [] [] [] sent h = refl
    rebuild_files-write_files fuel r (e ∷ es) (f ∷ fs) (c ∷ cs) sent (here, rest) =
        let (pieces, run, joined) =
          reconstruct_data-Yields io blake chunks keyed distinct here.level fuel f.chunk_list c
            here.low here.node in
        rw (run, joined, try_run)
          (try_run-ok sent (World.write_file io deflate crc r f c) (λ w. (w, chunks)) _ _
            (λ w. rebuild_files-write_files fuel w.0 es fs cs (sent ++ w.1 ∷ []) rest))
    rebuild_files-write_files fuel r [] [] (c ∷ cs) sent h = absurd h
    rebuild_files-write_files fuel r [] (f ∷ fs) cs sent h = absurd h
    rebuild_files-write_files fuel r (e ∷ es) [] cs sent h = absurd h
    rebuild_files-write_files fuel r (e ∷ es) (f ∷ fs) [] sent h = absurd h

    Described-IsTree :
        (fuel : ℕ) (entries : List Entry) (files : List FileDescription) (contents : List Bytes)
        → Described io deflate blake chunks fuel entries files contents
        → All (IsTree chunks fuel) (map chunk_list_of files)
    unfolding chunk_list_of
    Described-IsTree fuel [] [] [] h = tt
    Described-IsTree fuel (e ∷ es) (f ∷ fs) (c ∷ cs) (here, rest) =
        ((here.level, c, here.low, here.node), Described-IsTree fuel es fs cs rest)
    Described-IsTree fuel [] [] (c ∷ cs) h = absurd h
    Described-IsTree fuel [] (f ∷ fs) cs h = absurd h
    Described-IsTree fuel (e ∷ es) [] cs h = absurd h
    Described-IsTree fuel (e ∷ es) (f ∷ fs) [] h = absurd h

    pub rebuild_world-Described :
        (fuel : ℕ) (ready : WorldReady) (entries : List Entry) (contents : List Bytes)
        → Described io deflate blake chunks fuel entries ready.world.files contents
        → rebuild_world io deflate crc map_provider fuel fuel ready chunks
          ≡ write_world ready contents chunks
    unfolding rebuild_world write_world try_run
    rebuild_world-Described fuel ready entries contents h =
        rw
          (
            prefetch_metadata_chunks-ends io blake chunks keyed distinct fuel
                (map chunk_list_of ready.world.files)
                (Described-IsTree fuel entries ready.world.files contents h),
            rebuild_files-write_files fuel (World.new crc) entries ready.world.files contents [] h,
          )
          refl

-- Of a world that `deconstruct_world` took apart, with no two of its stored chunks under one hash,
-- the other side's run on its description and these chunks does, with enough fuel, exactly what the
-- transfer does that is given the decoded contents of the archive's files: it sends the same pieces
-- and ends in the same way.
pub rebuild_world-deconstruct_world :
    (io : ByteBuf) (deflate : Deflate) (crc : Crc) (blake : Blake3)
    (open_archive : Bytes → Outcome (List Entry)) (entries : List Entry)
    (world_data aux_data : Bytes) (ready : WorldReady) (chunks : ChunkMap)
    → open_archive world_data ≡ ok entries
    → deconstruct_world io deflate blake open_archive world_data aux_data ≡ ok (ready.world, chunks)
    → NoCollision blake chunks
    → (fuel : ℕ) × (contents : List Bytes) × Described io deflate blake chunks fuel entries
        ready.world.files contents
      × (rebuild_world io deflate crc map_provider fuel fuel ready chunks
          ≡ write_world io deflate crc ready contents chunks)
rebuild_world-deconstruct_world io deflate crc blake open_archive entries world_data aux_data ready
      chunks opened run distinct =
    let parts =
      deconstruct_world-IsDeconstructed io deflate blake open_archive entries world_data aux_data
        ready.world chunks opened run in
    (
      parts.bound,
      parts.contents,
      parts.described,
      rebuild_world-Described io deflate crc blake chunks parts.keyed distinct parts.bound ready
          entries parts.contents parts.described,
    )
