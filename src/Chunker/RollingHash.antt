-- ===== src/Chunker/RollingHash.antt =====
-- common/src/chunker.rs: `RabinKarpHash`, a polynomial hash of the last 32 bytes in u32 arithmetic.
use factory_cacher.Base.{
  ℕ, ◌+◌, ◌-◌, ◌*◌, ◌%◌, ◌^◌, ◌<◌, ◌≡◌, List, arith, length, get_or, set, replicate, length-set,
}

abbrev pub u32 : ℕ → ℕ
u32 n = n % 2 ^ 32

abbrev pub offset : ℕ
offset = 31

abbrev pub mult : ℕ
mult = 0x08104225

abbrev pub window_size : ℕ
window_size = 32

-- `u32::wrapping_pow(MULT, WINDOW_SIZE + 1)`
unfoldable pub window_mult : ℕ
window_mult = u32 (mult ^ (window_size + 1))

pub record RabinKarpHash : Type 0 where
  pub hash : ℕ
  pub window : List ℕ
  pub window_pos : ℕ

-- `RabinKarpHash::new`
unfoldable pub new_hash : RabinKarpHash
new_hash = record { hash = 0; window = replicate window_size 0; window_pos = 0 }

-- `RabinKarpHash::update`: the new state, and the hash. The reads of the window are unchecked in the
-- source.
unfoldable pub update : RabinKarpHash → ℕ → RabinKarpHash × ℕ
update h added_byte =
    let added = u32 (added_byte + offset) in
    let removed = u32 (get_or h.window h.window_pos 0 * window_mult) in
    let hash = u32 (u32 (u32 (h.hash + added) * mult) + (2 ^ 32 - removed)) in
    (
      record {
        hash = hash;
        window = set h.window h.window_pos added;
        window_pos = (h.window_pos + 1) % window_size;
      },
      hash,
    )

-- `RabinKarpHash::reset`: `fill` keeps the window's length.
unfoldable pub reset : RabinKarpHash → RabinKarpHash
reset h = record { hash = 0; window = replicate (length h.window) 0; window_pos = 0 }

-- The position is inside the window, and the hash is a u32.
pub record IsHash (h : RabinKarpHash) : Type 0 where
  pub size : length h.window ≡ window_size
  pub position : h.window_pos < window_size
  pub word : h.hash < 2 ^ 32

pub new_hash-IsHash : IsHash new_hash
unfolding new_hash
new_hash-IsHash = omega arith

pub update-IsHash : (h : RabinKarpHash) (byte : ℕ) → IsHash h → IsHash (update h byte).0
unfolding update
update-IsHash h byte v = omega (arith, length-set h.window h.window_pos (u32 (byte + offset)))

-- After a chunk the hash is as it was at the start.
pub reset-eq-new_hash : (h : RabinKarpHash) → IsHash h → reset h ≡ new_hash
unfolding reset new_hash
reset-eq-new_hash h v = ground arith
