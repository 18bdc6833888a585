-- ===== src/Extern/Crc.antt =====
-- `crc::Crc<u32>` with `CRC_32_ISO_HDLC`, which the repository only calls. The laws state the
-- catalogue's description of that checksum: a register of 32 bits, shifted a byte at a time through
-- a table, which holds for each byte its eight shifts through the polynomial.
use Prim.Native.Nat.{bit_xor}
use mathlib.Core.List.{foldl, foldl-append}
use factory_cacher.Base.{
  ℕ, zero, suc, ◌/◌, ◌%◌, ◌≡◌, refl, sym, ap, ◌∙◌, ◌++◌, List, [], ◌∷◌, ◌==◌, if◌then◌else◌, get_or,
}
use factory_cacher.Base.Words.{Bytes}

-- One digit of the register: out of the low end, and the polynomial in if it was a one.
abbrev pub shift_one : ℕ → ℕ
shift_one c = if c % 2 == 1 then bit_xor (c / 2) 0xedb88320 else c / 2

abbrev pub shifts : ℕ → ℕ → ℕ
shifts zero c = c
shifts (suc n) c = shifts n (shift_one c)

-- The entries of the bytes from `c` on.
abbrev pub entries_from : ℕ → ℕ → List ℕ
entries_from zero c = []
entries_from (suc n) c = shifts 8 c ∷ entries_from n (suc c)

abbrev pub byte_entries : List ℕ
byte_entries = entries_from 256 0

-- One byte into the register.
abbrev pub feed : List ℕ → ℕ → ℕ → ℕ
feed table value byte = bit_xor (get_or table (bit_xor value byte % 256) 0) (value / 256)

pub record Crc : Type 1 where
  -- `crc.table()[0]`, `crc.algorithm.xorout`
  pub table : List ℕ
  pub xorout : ℕ
  -- `crc::Digest`, and what its register holds
  pub Digest : Type 0
  pub value : Digest → ℕ
  pub digest : Digest
  pub update : Digest → Bytes → Digest
  pub finalize : Digest → ℕ
  pub checksum : Bytes → ℕ
  pub table-entries : table ≡ byte_entries
  pub xorout-ones : xorout ≡ 0xffffffff
  pub value-digest : value digest ≡ 0xffffffff
  pub value-update : (d : Digest) (b : Bytes) → value (update d b) ≡ foldl (feed table) (value d) b
  pub finalize-value : (d : Digest) → finalize d ≡ bit_xor (value d) xorout
  pub checksum_lem : (b : Bytes) → checksum b ≡ finalize (update digest b)

-- The laws can be met: the digest is its register.
abbrev pub register_crc : Crc
register_crc = record {
  table = byte_entries;
  xorout = 0xffffffff;
  Digest = ℕ;
  value = λ v. v;
  digest = 0xffffffff;
  update = foldl (feed byte_entries);
  finalize = λ v. bit_xor v 0xffffffff;
  checksum = λ b. bit_xor (foldl (feed byte_entries) 0xffffffff b) 0xffffffff;
  table-entries = refl;
  xorout-ones = refl;
  value-digest = refl;
  value-update = λ d b. refl;
  finalize-value = λ d. refl;
  checksum_lem = λ b. refl;
}

-- The digest's register is the one after some bytes.
abbrev pub Hashes : (crc : Crc) → crc.Digest → Bytes → Type 0
Hashes crc d bytes = crc.value d ≡ crc.value (crc.update crc.digest bytes)

pub Hashes-digest : (crc : Crc) → Hashes crc crc.digest []
Hashes-digest crc = sym (crc.value-update crc.digest [])

pub Hashes-update :
    (crc : Crc) (d : crc.Digest) (bytes more : Bytes)
    → Hashes crc d bytes
    → Hashes crc (crc.update d more) (bytes ++ more)
Hashes-update crc d bytes more h =
    crc.value-update d more
    ∙ ap (λ (v : ℕ). foldl (feed crc.table) v more) (h ∙ crc.value-update crc.digest bytes)
    ∙ sym (foldl-append (feed crc.table) (crc.value crc.digest) bytes more)
    ∙ sym (crc.value-update crc.digest (bytes ++ more))

pub finalize-Hashes :
    (crc : Crc) (d : crc.Digest) (bytes : Bytes)
    → Hashes crc d bytes
    → crc.finalize d ≡ crc.checksum bytes
finalize-Hashes crc d bytes h =
    crc.finalize-value d
    ∙ ap (λ (v : ℕ). bit_xor v crc.xorout) h
    ∙ sym (crc.checksum_lem bytes ∙ crc.finalize-value (crc.update crc.digest bytes))
