-- ===== src/Factorio/World.antt =====
-- factorio-cacher/src/factorio_world.rs: a world taken apart into files and chunks, and built again
-- with the size and the checksum that the game was told. A name is its UTF-8 bytes, which are
-- digits where the characters are. Sums and products of u32 wrap around.
pub mod Align
pub mod Described
pub mod Deconstruct
pub mod Finalize
pub mod Files
mod Tests
use factory_cacher.Base.{
  ℕ, ◌+◌, ◌-◌, ◌*◌, ◌%◌, ◌^◌, Bool, true, false, ◌&&◌, not, Option, none, some, List, [], ◌∷◌, ◌++◌,
  ltb, leb, ◌==◌, if◌then◌else◌, length, take, replicate, concat, Outcome, ok, ◌>>=◌, ◌>>◌, assert,
  guard, ok_or, inflate_failed, world_does_not_fit,
}
use factory_cacher.Base.HashMap
use factory_cacher.Base.Words.{Bytes}
use factory_cacher.Extern.Blake3.{Blake3}
use factory_cacher.Extern.ByteBuf.{ByteBuf}
use factory_cacher.Extern.Crc.{Crc}
use factory_cacher.Extern.Deflate.{Deflate}
use factory_cacher.Dedup.{
  ChunkList, ChunkMap, ChunkProvider, chunk_data, minimize_chunk_list, reconstruct_data,
}
use factory_cacher.Factorio.Protocol.{transfer_block_size}
use factory_cacher.Factorio.RevCrc
use factory_cacher.Factorio.Server.{block_count}
use factory_cacher.Factorio.Zip

-- `RECONSTRUCT_DEFLATE_LEVEL`
abbrev pub reconstruct_deflate_level : ℕ
reconstruct_deflate_level = 1

-- `FactorioFileType`
pub data FileType : Type 0 where
  normal : FileType
  zlib : FileType

-- `FactorioFileDescription`
pub record FileDescription : Type 0 where
  pub file_type : FileType
  pub file_name : Bytes
  pub content_size : ℕ
  pub chunk_list : ChunkList

-- `FactorioWorldDescription`
pub record WorldDescription : Type 0 where
  pub files : List FileDescription
  pub aux_data : Bytes
  pub total_chunks : ℕ

-- `FactorioFile`
pub record File : Type 0 where
  pub file_type : FileType
  pub bytes : Bytes

-- `rsplit_once('/')`: what is behind the last slash.
unfoldable pub behind_slash : Bytes → Option Bytes
behind_slash [] = none
behind_slash (c ∷ cs) = elim (behind_slash cs) [
  | some last ↦ some last
  | none ↦ if c == 47 then some cs else none
]

-- `Option::unwrap_or`
unfoldable pub unwrap_or : Option Bytes → Bytes → Bytes
unwrap_or (some name) default = name
unwrap_or none default = default

-- `strip_prefix`
unfoldable pub strip_prefix : Bytes → Bytes → Option Bytes
strip_prefix [] name = some name
strip_prefix (p ∷ ps) [] = none
strip_prefix (p ∷ ps) (c ∷ cs) = let rest = strip_prefix ps cs in if p == c then rest else none

-- `chars().all(|c| c.is_ascii_digit())`
unfoldable pub all_digits : Bytes → Bool
all_digits [] = true
all_digits (c ∷ cs) = leb 48 c && leb c 57 && all_digits cs

-- "level.dat"
abbrev pub level_dat : Bytes
level_dat = 108 ∷ 101 ∷ 118 ∷ 101 ∷ 108 ∷ 46 ∷ 100 ∷ 97 ∷ 116 ∷ []

-- The test of `decode_factorio_file`: the last part of the name is "level.dat" and digits.
unfoldable pub is_level : Bytes → Bool
unfolding behind_slash strip_prefix all_digits
is_level file_name = elim (strip_prefix level_dat (unwrap_or (behind_slash file_name) file_name)) [
  | some suffix ↦ all_digits suffix
  | none ↦ false
]

-- `WorldReconstructor`
pub record Reconstructor (crc : Crc) : Type 0 where
  pub zip_writer : Zip.Writer
  pub crc_hasher : crc.Digest

-- `WorldReconstructor::new`
unfoldable pub new : (crc : Crc) → Reconstructor crc
new crc = record { zip_writer = Zip.new; crc_hasher = crc.digest }

-- `BytesMut::resize(len, 0)`
unfoldable pub resize : ℕ → Bytes → Bytes
resize len output = take len output ++ replicate (len - length output) 0

-- `(x as u32 + TRANSFER_BLOCK_SIZE - 1) / TRANSFER_BLOCK_SIZE * TRANSFER_BLOCK_SIZE`
unfoldable pub aligned_length : ℕ → ℕ
aligned_length size = (block_count (size % 2 ^ 32) * transfer_block_size) % 2 ^ 32

-- `aligned - size + output.len()` on usize
unfoldable pub padded_length : ℕ → ℕ → ℕ → ℕ
padded_length aligned size len = ((aligned + 2 ^ 64 - size) % 2 ^ 64 + len) % 2 ^ 64

module _ (io : ByteBuf) (deflate : Deflate) where
  -- `decode_factorio_file`
  pub decode_factorio_file : Bytes → Bytes → Outcome File
  decode_factorio_file file_name file_data =
      if is_level file_name
      then (do
        uncompressed_data ←
            ok_or (deflate.decompress_to_vec_zlib_with_limit file_data 20000000) inflate_failed
        ok (record { file_type = zlib; bytes = uncompressed_data }))
      else ok (record { file_type = normal; bytes = file_data })

  -- `encode_factorio_file`
  pub encode_factorio_file : File → Bytes
  encode_factorio_file file = elim file.file_type [
    | normal ↦ file.bytes
    | zlib ↦ deflate.compress_to_vec_zlib file.bytes reconstruct_deflate_level
  ]

  -- The match on the type of a file in `reconstruct_world_file`.
  pub deflate_level_of : FileType → Option ℕ
  deflate_level_of normal = some reconstruct_deflate_level
  deflate_level_of zlib = none

  module _ (blake : Blake3) where
    -- `chunk_file`
    pub chunk_file : Bytes → File → ChunkMap → Outcome (FileDescription × ChunkMap)
    chunk_file file_name file chunks = do
      (chunk_list, chunks1) ← chunk_data io blake file.bytes chunks
      (chunk_list', chunks2) ← minimize_chunk_list io blake chunk_list chunks1
      ok (
        record {
          file_type = file.file_type;
          file_name = file_name;
          content_size = length file.bytes;
          chunk_list = chunk_list';
        },
        chunks2,
      )

    -- The loop of `deconstruct_world` over the files of the archive: `by_index` and `read_to_end`
    -- give the name of a file and its content.
    pub deconstruct_files :
        List (Outcome (Bytes × Bytes)) → ChunkMap → Outcome (List FileDescription × ChunkMap)
    deconstruct_files [] chunks = ok ([], chunks)
    deconstruct_files (zip_file ∷ rest) chunks = do
      (file_name, buf) ← zip_file
      decoded_file ← decode_factorio_file file_name buf
      (file, chunks1) ← chunk_file file_name decoded_file chunks
      (files, chunks2) ← deconstruct_files rest chunks1
      ok (file ∷ files, chunks2)

    -- `deconstruct_world`; `open_archive` is `ZipArchive::new` and what the archive gives for each
    -- index.
    pub deconstruct_world :
        (Bytes → Outcome (List (Outcome (Bytes × Bytes))))
        → Bytes
        → Bytes
        → Outcome (WorldDescription × ChunkMap)
    deconstruct_world open_archive world_data aux_data = do
      zip_reader ← open_archive world_data
      (files, chunks) ← deconstruct_files zip_reader []
      ok (record { files = files; aux_data = aux_data; total_chunks = HashMap.len chunks }, chunks)

  module _ (crc : Crc) where
    -- `WorldReconstructor::reconstruct_world_file`, behind the loop that collects the chunks.
    pub write_file :
        Reconstructor crc → FileDescription → Bytes → Outcome (Reconstructor crc × Bytes)
    write_file r file_desc buf = do
      let file_data = encode_factorio_file (record { file_type = file_desc.file_type; bytes = buf })
      (zip_writer, zip_entry_data) ←
          Zip.encode_file io deflate.compress_to_vec crc.checksum r.zip_writer file_desc.file_name
            file_data (deflate_level_of file_desc.file_type)
      ok (
        record { zip_writer = zip_writer; crc_hasher = crc.update r.crc_hasher zip_entry_data },
        zip_entry_data,
      )

    -- `WorldReconstructor::reconstruct_world_file`; the fuel bounds the levels of the tree.
    unfoldable pub reconstruct_world_file :
        {P : Type 0}
        → ChunkProvider P
        → ℕ
        → Reconstructor crc
        → FileDescription
        → P
        → Outcome ((Reconstructor crc × Bytes) × P)
    reconstruct_world_file provider fuel r file_desc p = do
      (pieces, p1) ← reconstruct_data io provider fuel file_desc.chunk_list p
      written ← write_file r file_desc (concat pieces)
      ok (written, p1)

    -- The end of `finalize_world`: the padding behind the world, and the auxiliary data.
    pub align_world : Bytes → ℕ → ℕ → Bytes → Outcome Bytes
    align_world aux_data current_size target_world_size output = do
      let world_output =
          resize
            (padded_length (aligned_length target_world_size) target_world_size (length output))
            output
      let with_aux = world_output ++ aux_data
      let output' =
          resize
            (padded_length (aligned_length (length aux_data)) (length aux_data) (length with_aux))
            with_aux
      assert ((current_size + length output') % transfer_block_size == 0)
      ok output'

    -- `WorldReconstructor::finalize_world`
    pub finalize_world : Reconstructor crc → WorldDescription → ℕ → ℕ → Outcome Bytes
    finalize_world r world_desc target_world_size target_crc = do
      let current_size = Zip.current_size r.zip_writer
      let total_size = current_size + Zip.central_directory_size r.zip_writer + 4
      guard (not (ltb target_world_size total_size)) world_does_not_fit
      let padding = replicate (target_world_size - total_size) 0
      let padded = crc.update r.crc_hasher padding
      zip_footer ←
          Zip.encode_central_directory io (Zip.advance_offset (length padding + 4) r.zip_writer)
      let forward_crc = crc.finalize padded
      let rev_crc_hasher =
          RevCrc.update
            (RevCrc.update (RevCrc.digest (RevCrc.new crc) target_crc) world_desc.aux_data)
            zip_footer
      let forge_bytes = RevCrc.forge_crc forward_crc rev_crc_hasher
      let output = padding ++ forge_bytes ++ zip_footer
      assert (current_size + length output == target_world_size)
      let whole =
          crc.update (crc.update (crc.update padded forge_bytes) zip_footer) world_desc.aux_data
      assert (crc.finalize whole == target_crc)
      align_world world_desc.aux_data current_size target_world_size output
