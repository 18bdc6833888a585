-- ===== src/Chunker.antt =====
-- common/src/chunker.rs: content-defined chunks. A chunk ends where the rolling hash of the bytes
-- before it has its low bits zero, within the minimal and the maximal size.
pub mod RollingHash
pub mod Partition
pub mod Stability
pub mod Tests
use Prim.Native.Nat.{bit_and}
use factory_cacher.Base.{
  ℕ, zero, suc, ◌+◌, ◌-◌, min, Option, none, some, List, [], ◌∷◌, ◌^◌, ◌||◌, leb, ◌==◌,
  if◌then◌else◌, length, take, drop, is_empty,
}
use factory_cacher.Base.Words.{Bytes}
use RollingHash.{RabinKarpHash, new_hash, update, reset}

unfoldable pub min_chunk_size : ℕ
min_chunk_size = 2 ^ 9

unfoldable pub max_chunk_size : ℕ
max_chunk_size = 2 ^ 12

unfoldable pub chunk_mask : ℕ
chunk_mask = 2 ^ 11 - 1

pub record Chunker : Type 0 where
  pub rolling_hash : RabinKarpHash
  pub bytes : Bytes

-- `Chunker::new`
pub new : Bytes → Chunker
new bytes = record { rolling_hash = new_hash; bytes = bytes }

-- The `for` loop of `next` over the bytes behind the first `chunk_size`: the hash and the size at
-- its `break`, or at the end of the data.
pub scan : RabinKarpHash → ℕ → Bytes → RabinKarpHash × ℕ
scan h chunk_size [] = (h, chunk_size)
scan h chunk_size (byte ∷ bytes) =
    let (h', hash) = update h byte in
    let rest = scan h' (chunk_size + 1) bytes in
    if bit_and hash chunk_mask == 0 || leb max_chunk_size (chunk_size + 1)
    then (h', chunk_size + 1)
    else rest

-- `Iterator::next`
pub next : Chunker → Option (Bytes × Chunker)
next c =
    if is_empty c.bytes
    then none
    else (let start = min min_chunk_size (length c.bytes) in
        let (h, chunk_size) = scan c.rolling_hash start (drop start c.bytes) in
        some (
          take chunk_size c.bytes,
          record { rolling_hash = reset h; bytes = drop chunk_size c.bytes },
        ))

-- `for chunk in chunker`, with fuel for the number of rounds.
pub collect : ℕ → Chunker → List Bytes
collect zero c = []
collect (suc fuel) c = elim (next c) [ none ↦ [] | some (chunk, c') ↦ chunk ∷ collect fuel c' ]

-- Each chunk takes a byte at least, so that the length of the data is enough fuel.
pub chunks : Bytes → List Bytes
chunks bytes = collect (length bytes) (new bytes)
