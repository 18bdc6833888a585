-- ===== src/Factorio/RevCrc.antt =====
-- factorio-cacher/src/rev_crc.rs: the checksum run backwards, and the four bytes that make the
-- checksum of a whole equal to a target. `<<` on a u32 drops the digits above 32.
use Prim.Native.Nat.{bit_xor}
use factory_cacher.Base.{
  ℕ, zero, suc, ◌+◌, ◌*◌, ◌/◌, ◌%◌, ◌^◌, List, [], ◌∷◌, reverse, get_or, set, replicate, foldl,
}
use factory_cacher.Base.Words.{Bytes, le_bytes}
use factory_cacher.Extern.Crc.{Crc}
pub mod Inverse
pub mod Forge

-- `RevCRC`, of whose `algorithm` only `xorout` is read.
pub record RevCrc : Type 0 where
  pub xorout : ℕ
  pub reverse_table : List ℕ

-- `RevDigest`
pub record RevDigest : Type 0 where
  pub crc : RevCrc
  pub value : ℕ

-- The loop of `RevCRC::new` from the entry `n` on.
unfoldable pub fill_reverse : ℕ → List ℕ → List ℕ → List ℕ
fill_reverse n [] reverse_table = reverse_table
fill_reverse n (entry ∷ table) reverse_table =
    fill_reverse (suc n) table
      (set reverse_table (entry / 2 ^ 24) (bit_xor (entry * 2 ^ 8 % 2 ^ 32) n))

-- `RevCRC::new`
unfoldable pub new : Crc → RevCrc
new crc = record { xorout = crc.xorout; reverse_table = fill_reverse 0 crc.table (replicate 256 0) }

-- The body of the loop of `RevCRC::update`.
unfoldable pub unfeed : List ℕ → ℕ → ℕ → ℕ
unfeed reverse_table value byte =
    bit_xor (bit_xor (value * 2 ^ 8 % 2 ^ 32) (get_or reverse_table (value / 2 ^ 24) 0)) byte

-- `RevCRC::update`
unfoldable pub update_value : RevCrc → ℕ → Bytes → ℕ
update_value crc value bytes = foldl (unfeed crc.reverse_table) value (reverse bytes)

-- `RevCRC::digest`
unfoldable pub digest : RevCrc → ℕ → RevDigest
digest crc initial_value = record { crc = crc; value = bit_xor initial_value crc.xorout }

-- `RevDigest::update`
unfoldable pub update : RevDigest → Bytes → RevDigest
update d bytes = record d { value = update_value d.crc d.value bytes }

-- `RevDigest::finalize`
unfoldable pub finalize : RevDigest → ℕ
finalize d = d.value

-- `forge_crc`
unfoldable pub forge_crc : ℕ → RevDigest → Bytes
forge_crc before_digest after_digest =
    le_bytes 4
      (finalize (update after_digest (le_bytes 4 (bit_xor before_digest after_digest.crc.xorout))))
