-- ===== src/Factorio/Zip.antt =====
-- factorio-cacher/src/zip_writer.rs: `ZipWriter`, which writes the files of a world and the central
-- directory of their archive. A file's name is its bytes. The crates' deflate and checksum are
-- arguments; a conversion to a narrower number panics when the number does not fit.
use factory_cacher.Base.{
  ℕ, ◌+◌, ◌^◌, ◌<◌, Option, none, some, List, [], ◌∷◌, ◌++◌, ltb, length, Outcome, ok, panic, ◌>>=◌,
  ◌>>◌, assert, if◌then◌else◌,
}
use factory_cacher.Base.Words.{Bytes}
use factory_cacher.Extern.ByteBuf.{ByteBuf}
pub mod Size
pub mod Octets

-- `ZipEntryMetadata`
pub record Entry : Type 0 where
  pub start_offset : ℕ
  pub file_name : Bytes
  pub file_name_size : ℕ
  pub compressed_size : ℕ
  pub uncompressed_size : ℕ
  pub compression_method : ℕ
  pub data_crc : ℕ

-- `ZipWriter`
pub record Writer : Type 0 where
  pub current_offset : ℕ
  pub entries : List Entry

-- `ZipWriter::new`
unfoldable pub new : Writer
new = record { current_offset = 0; entries = [] }

-- `CENTRAL_DIRECTORY_ENTRY_SIZE`
abbrev pub central_directory_entry_size : ℕ
central_directory_entry_size = 46

-- `END_OF_CENTRAL_DIRECTORY_SIZE`
abbrev pub end_of_central_directory_size : ℕ
end_of_central_directory_size = 22

-- `x.try_into().expect(…)` to a number of `w` bytes.
pub narrow : ℕ → ℕ → Outcome ℕ
narrow w x = if ltb x (2 ^ w) then ok x else panic

-- `advance_offset`
unfoldable pub advance_offset : ℕ → Writer → Writer
advance_offset offset z = record z { current_offset = z.current_offset + offset }

-- The loop of `central_directory_size`.
unfoldable pub entries_size : ℕ → List Entry → ℕ
entries_size size [] = size
entries_size size (entry ∷ entries) =
    entries_size (size + (central_directory_entry_size + length entry.file_name)) entries

-- `central_directory_size`
unfoldable pub central_directory_size : Writer → ℕ
central_directory_size z = entries_size 0 z.entries + end_of_central_directory_size

-- `current_size`
unfoldable pub current_size : Writer → ℕ
current_size z = z.current_offset

module _ (io : ByteBuf) where
  -- A run of `put_u16_le` and `put_u32_le`: each number with its width in bytes.
  pub put_fields : List (ℕ × ℕ) → Bytes → Bytes
  put_fields [] buf = buf
  put_fields ((w, x) ∷ fields) buf = put_fields fields (io.put_le w x buf)

  -- The body of the loop of `encode_central_directory`.
  pub put_entry : Entry → Bytes → Outcome Bytes
  put_entry entry buf = do
    offset ← narrow 32 entry.start_offset
    ok (
        put_fields
          ((4, 0x02014b50)
            ∷ (2, 45)
            ∷ (2, 45)
            ∷ (2, 0)
            ∷ (2, entry.compression_method)
            ∷ (2, 0)
            ∷ (2, 0)
            ∷ (4, entry.data_crc)
            ∷ (4, entry.compressed_size)
            ∷ (4, entry.uncompressed_size)
            ∷ (2, entry.file_name_size)
            ∷ (2, 0)
            ∷ (2, 0)
            ∷ (2, 0)
            ∷ (2, 0)
            ∷ (4, 0)
            ∷ (4, offset)
            ∷ [])
          buf
        ++ entry.file_name)

  pub put_entries : List Entry → Bytes → Outcome Bytes
  put_entries [] buf = ok buf
  put_entries (entry ∷ entries) buf = do buf' ← put_entry entry buf; put_entries entries buf'

  -- `encode_central_directory`
  pub encode_central_directory : Writer → Outcome Bytes
  encode_central_directory z = do
    central_directory_offset ← narrow 32 z.current_offset
    entry_count ← narrow 16 (length z.entries)
    buf ← put_entries z.entries []
    size ← narrow 32 (length buf)
    ok (
        put_fields
          ((4, 0x06054b50)
            ∷ (2, 0)
            ∷ (2, 0)
            ∷ (2, entry_count)
            ∷ (2, entry_count)
            ∷ (4, size)
            ∷ (4, central_directory_offset)
            ∷ (2, 0)
            ∷ [])
          buf)

  -- The crates `miniz_oxide` (`deflate::compress_to_vec`) and `crc` (`ZIP_CRC.checksum`).
  module _ (compress_to_vec : Bytes → ℕ → Bytes) (checksum : Bytes → ℕ) where
    -- What is stored of a file, and by which method.
    unfoldable pub stored : Bytes → Option ℕ → Bytes × ℕ
    stored file_data none = (file_data, 0)
    stored file_data (some deflate_level) = (compress_to_vec file_data deflate_level, 8)

    -- `encode_file`
    pub encode_file : Writer → Bytes → Bytes → Option ℕ → Outcome (Writer × Bytes)
    encode_file z file_name file_data deflate_level =
        let (final_data, compression_method) = stored file_data deflate_level in
        let data_crc = checksum file_data in
        do
          uncompressed_size ← narrow 32 (length file_data)
          compressed_size ← narrow 32 (length final_data)
          file_name_size ← narrow 16 (length file_name)
          let buf =
              put_fields
                ((4, 0x04034b50)
                  ∷ (2, 45)
                  ∷ (2, 0)
                  ∷ (2, compression_method)
                  ∷ (2, 0)
                  ∷ (2, 0)
                  ∷ (4, data_crc)
                  ∷ (4, compressed_size)
                  ∷ (4, uncompressed_size)
                  ∷ (2, file_name_size)
                  ∷ (2, 0)
                  ∷ [])
                []
              ++ file_name
          let entry : Entry = record {
            start_offset = z.current_offset;
            file_name = file_name;
            file_name_size = file_name_size;
            compressed_size = compressed_size;
            uncompressed_size = uncompressed_size;
            compression_method = compression_method;
            data_crc = data_crc;
          }
          ok (
            record {
              current_offset = z.current_offset + length buf + length final_data;
              entries = z.entries ++ entry ∷ [];
            },
            buf ++ final_data,
          )
