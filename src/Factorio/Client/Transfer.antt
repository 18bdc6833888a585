-- ===== src/Factorio/Client/Transfer.antt =====
-- factorio-cacher/src/proxy/client_proxy.rs: `transfer_world_data`, the task that rebuilds the world
-- from its description and hands its pieces on. What `world_data_sender` was given stays given when
-- the task fails later, so a run is the pieces and an outcome. The receiver is not closed.
pub mod Rebuilt
pub mod Served
use factory_cacher.Base.{
  ℕ, Bool, true, false, Option, none, some, List, [], ◌∷◌, ◌++◌, map, Outcome, ok, err, panic,
  stuck, ◌>>=◌, Error, unexpected_eof,
}
use factory_cacher.Base.Words.{Bytes}
use factory_cacher.Extern.ByteBuf.{ByteBuf}
use factory_cacher.Extern.Crc.{Crc}
use factory_cacher.Extern.Deflate.{Deflate}
use factory_cacher.Dedup.{ChunkList, ChunkProvider}
use factory_cacher.Dedup.Prefetch.{prefetch_metadata_chunks}
use factory_cacher.Factorio.Protocol.{WorldMetadata}
use factory_cacher.Factorio.World
use factory_cacher.Factorio.World.{FileDescription, WorldDescription, Reconstructor}
use factory_cacher.Message.{read_message}

-- `WorldReadyMessage`
pub record WorldReady : Type 0 where
  pub world : WorldDescription
  pub old_info : WorldMetadata
  pub new_info : WorldMetadata

-- What the task has done: the pieces it sent, whether it marked the chunk cache as changed, and how
-- it ended.
pub record Run (A : Type 0) : Type 0 where
  pub sent : List Bytes
  pub marked_dirty : Bool
  pub result : Outcome A

unfoldable pub ended : {A : Type 0} → List Bytes → Outcome A → Run A
ended sent result = record { sent = sent; marked_dirty = false; result = result }

-- `?` on a part that sends nothing: the rest runs on its value.
unfoldable pub try_run : {A B : Type 0} → List Bytes → Outcome A → (A → Run B) → Run B
unfolding ended
try_run sent (ok a) rest = rest a
try_run sent (err e) rest = ended sent (err e)
try_run sent panic rest = ended sent panic
try_run sent stuck rest = ended sent stuck

-- The rest of the task, behind a loop that sends.
unfoldable pub then_run : {A B : Type 0} → Run A → (List Bytes → A → Run B) → Run B
unfolding try_run
then_run run rest = try_run run.sent run.result (rest run.sent)

-- The match on `read_message`: the end of the stream before a description ends the task well.
unfoldable pub try_message :
    {B : Type 0} → Outcome (Bytes × Bytes) → (Bytes × Bytes → Run (Option B)) → Run (Option B)
unfolding ended
try_message (ok message) rest = rest message
try_message (err unexpected_eof) rest = ended [] (ok none)
try_message (err e) rest = ended [] (err e)
try_message panic rest = ended [] panic
try_message stuck rest = ended [] stuck

unfoldable pub chunk_list_of : FileDescription → ChunkList
chunk_list_of file = file.chunk_list

-- What follows the loop: the cache is marked, and the last piece is made and sent.
unfoldable pub send_end : {P : Type 0} → List Bytes → P → Outcome Bytes → Run (Option P)
send_end sent p (ok last_data) = record {
  sent = sent ++ last_data ∷ [];
  marked_dirty = true;
  result = ok (some p);
}
send_end sent p (err e) = record { sent = sent; marked_dirty = true; result = err e }
send_end sent p panic = record { sent = sent; marked_dirty = true; result = panic }
send_end sent p stuck = record { sent = sent; marked_dirty = true; result = stuck }

module _ (io : ByteBuf) (deflate : Deflate) (crc : Crc) {P : Type 0}
    (provider : ChunkProvider P) where
  -- The loop over the files: each is rebuilt and sent. The fuel bounds the levels of a tree.
  unfoldable pub rebuild_files :
      ℕ → Reconstructor crc → List FileDescription → P → List Bytes → Run (Reconstructor crc × P)
  unfolding try_run ended
  rebuild_files fuel r [] p sent = ended sent (ok (r, p))
  rebuild_files fuel r (file_desc ∷ files) p sent =
      try_run sent (World.reconstruct_world_file io deflate crc provider fuel r file_desc p)
        (λ x. rebuild_files fuel x.0.0 files x.1 (sent ++ x.0.1 ∷ []))

  -- From the decoded description on.
  unfoldable pub rebuild_world : ℕ → ℕ → WorldReady → P → Run (Option P)
  unfolding try_run then_run rebuild_files send_end chunk_list_of
  rebuild_world levels fuel world_ready p =
      try_run []
        (prefetch_metadata_chunks io provider levels (map chunk_list_of world_ready.world.files) p)
        (λ p1.
          then_run (rebuild_files fuel (World.new crc) world_ready.world.files p1 []) (λ sent x.
            send_end sent x.1 (
              World.finalize_world io deflate crc x.0 world_ready.world
                world_ready.new_info.world_size world_ready.new_info.world_crc)))

  -- `transfer_world_data`; `decode_message` is the decoding of zstd and MessagePack.
  unfoldable pub transfer_world_data :
      (Bytes → Outcome WorldReady) → ℕ → ℕ → Bytes → P → Run (Option P)
  unfolding try_message try_run rebuild_world
  transfer_world_data decode_message levels fuel input p =
      try_message (read_message input) (λ message.
        try_run [] (decode_message message.0)
          (λ world_ready. rebuild_world levels fuel world_ready p))
