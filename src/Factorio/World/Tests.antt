-- ===== src/Factorio/World/Tests.antt =====
-- factorio-cacher/src/factorio_world.rs, rev_crc.rs and proxy/client_proxy.rs: the theorems on a
-- world with one small file.
use factory_cacher.Base.{ℕ, ◌≡◌, refl, List, [], ◌∷◌, ◌++◌, ok, arith, Outcome, ◌⊎◌}
use factory_cacher.Base.HashMap
use factory_cacher.Base.Words.{Bytes}
use factory_cacher.Extern.Blake3.{number_hash}
use factory_cacher.Extern.ByteBuf.{list_buf}
use factory_cacher.Extern.Crc.{register_crc}
use factory_cacher.Extern.Deflate.{no_deflate}
use factory_cacher.Dedup.{map_provider}
use factory_cacher.Dedup.Tests.{
  three, three_list, three_chunks, three-IsNode, three-NoCollision, three_stored, three_short,
}
use factory_cacher.Factorio.Protocol.{WorldMetadata}
use factory_cacher.Base.SortedSet.Laws.{count}
use factory_cacher.Factorio.Protocol.{transfer_block_size}
use factory_cacher.Factorio.Server.{Downloading, total_block_count, block_count}
use factory_cacher.Factorio.Server.Download.{Complete}
use factory_cacher.Factorio.Server.Transfer.{received_parts}
use factory_cacher.Factorio.Server.Transfer.Parts.{
  IsHonest, padded, block_of, received_parts-Complete,
}
use factory_cacher.Factorio.RevCrc
use factory_cacher.Factorio.RevCrc.Forge.{checksum-forge_crc}
use factory_cacher.Factorio.World.{
  FileDescription, normal, zlib, decode_factorio_file, encode_factorio_file, deconstruct_world,
  deconstruct_files, chunk_file, is_level, unwrap_or, behind_slash, strip_prefix, deflate_level_of,
}
use factory_cacher.Factorio.World.Described.{Entry, Described}
use factory_cacher.Factorio.World.Files.{decode_factorio_file-encode_factorio_file}
use factory_cacher.Factorio.Client.Transfer.{WorldReady, rebuild_world}
use factory_cacher.Factorio.Client.Transfer.Rebuilt.{write_world, rebuild_world-deconstruct_world}
use factory_cacher.Factorio.Client.Transfer.Served.{
  Served, TooLarge, IsAnnounced, AllFit, rebuild_world-Served,
}
use factory_cacher.Factorio.Zip

checksum-forge_crc_example :
    register_crc.checksum (
      (1 ∷ 2 ∷ [])
      ++ RevCrc.forge_crc
          (register_crc.checksum (1 ∷ 2 ∷ []))
          (RevCrc.update (RevCrc.digest (RevCrc.new register_crc) 77) (3 ∷ []))
      ++ (3 ∷ []))
    ≡ 77
checksum-forge_crc_example =
    checksum-forge_crc register_crc (1 ∷ 2 ∷ []) (3 ∷ []) 77 (omega arith) (omega arith, tt)

-- "level.dat0", which is compressed.
abbrev level_name : Bytes
level_name = 108 ∷ 101 ∷ 118 ∷ 101 ∷ 108 ∷ 46 ∷ 100 ∷ 97 ∷ 116 ∷ 48 ∷ []

level_decoded :
    decode_factorio_file list_buf no_deflate level_name three
    ≡ ok (record { file_type = zlib; bytes = three })
unfolding decode_factorio_file is_level unwrap_or behind_slash strip_prefix
level_decoded = refl

decode_factorio_file-encode_factorio_file_example :
    decode_factorio_file list_buf no_deflate level_name
      (encode_factorio_file list_buf no_deflate (record { file_type = zlib; bytes = three }))
    ≡ ok (record { file_type = zlib; bytes = three })
decode_factorio_file-encode_factorio_file_example =
    decode_factorio_file-encode_factorio_file list_buf no_deflate level_name three
      (record { file_type = zlib; bytes = three }) level_decoded

abbrev file : FileDescription
file = record { file_type = normal; file_name = 97 ∷ []; content_size = 3; chunk_list = three_list }

abbrev info : WorldMetadata
info = record { world_size = 200; no_idea1 = 0; aux_size = 1; no_idea2 = 0; world_crc = 99 }

abbrev ready : WorldReady
ready = record {
  world = record { files = file ∷ []; aux_data = 5 ∷ []; total_chunks = 1 };
  old_info = info;
  new_info = info;
}

abbrev entries : List Entry
entries = ok (97 ∷ [], three) ∷ []

open_archive : Bytes → Outcome (List Entry)
open_archive world_data = ok entries

taken_apart :
    deconstruct_world list_buf no_deflate number_hash open_archive [] (5 ∷ [])
    ≡ ok (ready.world, three_chunks)
unfolding open_archive deconstruct_world deconstruct_files decode_factorio_file chunk_file is_level
    unwrap_or behind_slash strip_prefix HashMap.len
taken_apart = rw (three_stored, three_short) refl

rebuild_world-deconstruct_world_example :
    (fuel : ℕ) × (contents : List Bytes) × Described list_buf no_deflate number_hash three_chunks
      fuel entries ready.world.files contents
    × (rebuild_world list_buf no_deflate register_crc map_provider fuel fuel ready three_chunks
        ≡ write_world list_buf no_deflate register_crc ready contents three_chunks)
unfolding open_archive
rebuild_world-deconstruct_world_example =
    rebuild_world-deconstruct_world list_buf no_deflate register_crc number_hash open_archive
      entries [] (5 ∷ []) ready three_chunks refl taken_apart three-NoCollision

described :
    Described list_buf no_deflate number_hash three_chunks 1 entries (file ∷ []) (three ∷ [])
unfolding decode_factorio_file is_level unwrap_or behind_slash strip_prefix
described = (
  record {
    buf = three;
    found = refl;
    decoded = refl;
    content_size = refl;
    level = 0;
    low = omega arith;
    node = three-IsNode;
  },
  tt,
)

announced : IsAnnounced list_buf no_deflate register_crc ready
announced = record {
  files = omega arith;
  world_size = omega arith;
  aux_size = omega arith;
  world_crc = omega arith;
  aux_bytes = (omega arith, tt);
}

fits : AllFit list_buf no_deflate register_crc (file ∷ []) (three ∷ [])
unfolding encode_factorio_file Zip.stored deflate_level_of
fits = ((omega arith, omega arith, omega arith, (omega arith, tt)), tt)

rebuild_world-Served_example :
    Served list_buf no_deflate register_crc ready
      (three ∷ [])
      three_chunks
      (rebuild_world list_buf no_deflate register_crc map_provider 1 1 ready three_chunks)
    ⊎ TooLarge list_buf no_deflate register_crc ready
        (three ∷ [])
        three_chunks
        (rebuild_world list_buf no_deflate register_crc map_provider 1 1 ready three_chunks)
rebuild_world-Served_example =
    rebuild_world-Served list_buf no_deflate register_crc number_hash three_chunks 1 ready entries
      (three ∷ []) (refl, tt) three-NoCollision described announced fits

abbrev small_world : Bytes
small_world = 1 ∷ 2 ∷ []

abbrev small_whole : Bytes
small_whole = padded small_world (3 ∷ [])

-- The block of the auxiliary data has arrived before that of the world.
abbrev download : Downloading
download = record {
  world_info = record { world_size = 2; no_idea1 = 0; aux_size = 1; no_idea2 = 0; world_crc = 9 };
  new_world_info = record {
    world_size = 3;
    no_idea1 = 0;
    aux_size = 1;
    no_idea2 = 0;
    world_crc = 9;
  };
  world_block_count = 1;
  download_start_time = 0;
  received_blocks =
      record { block_id = 1; bytes = block_of small_whole 1 }
      ∷ record { block_id = 0; bytes = block_of small_whole 0 }
      ∷ [];
  block_request_queue = [];
  inflight_block_requests = [];
  last_block_time = 0;
}

download-Complete : Complete (total_block_count download.world_info) download
unfolding total_block_count block_count transfer_block_size count
download-Complete = λ id. ground arith

download-IsHonest : IsHonest download small_world (3 ∷ [])
unfolding block_count transfer_block_size
download-IsHonest = record {
  world_size = refl;
  aux_size = refl;
  block_count = refl;
  blocks = (refl, (refl, tt));
}

received_parts-Complete_example : received_parts download ≡ ok (small_world, 3 ∷ [])
received_parts-Complete_example =
    received_parts-Complete download small_world (3 ∷ []) download-Complete download-IsHonest
      (omega arith)
