-- ===== src/Factorio/RevCrc/Inverse.antt =====
-- factorio-cacher/src/rev_crc.rs: a byte fed backwards and then forwards leaves the register as it
-- was. The tables are computed once, and compared entry by entry.
use Prim.Native.Nat.{bit_xor}
use factory_cacher.Base.{
  ℕ, zero, suc, ◌+◌, ◌*◌, ◌/◌, ◌%◌, ◌^◌, ◌<◌, ◌≡◌, refl, ap, ap₂, ◌∙◌, List, [], ◌∷◌, get_or,
  replicate, length, Bool, true, ◌==◌, ◌&&◌, arith, ltb,
}
use factory_cacher.Base.Xor.{
  bit_xor-zero, bit_xor-zero_right, bit_xor_self, bit_xor_comm, bit_xor_assoc, bit_xor-lt,
  bit_xor-div, bit_xor-mod,
}
use factory_cacher.Extern.Crc.{byte_entries, feed}
use factory_cacher.Factorio.RevCrc.{fill_reverse, unfeed}

abbrev pub reverse_entries : List ℕ
unfolding fill_reverse
reverse_entries = fill_reverse 0 byte_entries (replicate 256 0)

-- For the byte `h`: with `n` the low byte of its reverse entry, `h` is the high byte of the entry
-- of `n`, whose other bytes are the rest of the reverse entry.
matches : List ℕ → ℕ → Bool
matches [] h = true
matches (r ∷ rest) h =
    (get_or byte_entries (r % 256) 0 == h * 2 ^ 24 + r / 256)
    && ltb r (2 ^ 32)
    && matches rest (suc h)

all_match : matches reverse_entries 0 ≡ true
unfolding matches fill_reverse
all_match = refl

matches-get_or :
    (rs : List ℕ) (from i : ℕ)
    → matches rs from ≡ true
    → i < length rs
    → (get_or byte_entries (get_or rs i 0 % 256) 0 ≡ (from + i) * 2 ^ 24 + get_or rs i 0 / 256)
      × (get_or rs i 0 < 2 ^ 32)
unfolding matches
matches-get_or [] from i h inside = absurd (omega arith)
matches-get_or (r ∷ rs) from zero h inside = ground arith
matches-get_or (r ∷ rs) from (suc i) h inside =
    let later : matches rs (suc from) ≡ true = ground arith in
    let (entry, small) = matches-get_or rs (suc from) i later (omega arith) in
    (omega (arith, entry), small)

abbrev pub reverse_entry : ℕ → ℕ
reverse_entry h = get_or reverse_entries h 0

length-reverse_entries : length reverse_entries ≡ 256
unfolding fill_reverse
length-reverse_entries = refl

-- What the tables hold for the high byte of a register.
reverse_entry-matches :
    (w : ℕ)
    → w < 2 ^ 32
    → (get_or byte_entries (reverse_entry (w / 2 ^ 24) % 256) 0
        ≡ w / 2 ^ 24 * 2 ^ 24 + reverse_entry (w / 2 ^ 24) / 256)
      × (reverse_entry (w / 2 ^ 24) < 2 ^ 32)
reverse_entry-matches w hw =
    let (entry, small) =
      matches-get_or reverse_entries 0 (w / 2 ^ 24) all_match
        (omega (arith, length-reverse_entries)) in
    (entry ∙ omega arith, small)

-- Cancelling.
pub cancel_right : (a b : ℕ) → bit_xor (bit_xor a b) b ≡ a
cancel_right a b = bit_xor_assoc a b b ∙ ap (bit_xor a) (bit_xor_self b) ∙ bit_xor-zero_right a

cancel_outer : (a b : ℕ) → bit_xor a (bit_xor b a) ≡ b
cancel_outer a b = bit_xor_comm a (bit_xor b a) ∙ cancel_right b a

-- The low byte of a register that was fed backwards, and its other bytes.
byte_of_unfed :
    (w b r : ℕ) → b < 256 → bit_xor (bit_xor (w * 2 ^ 8 % 2 ^ 32) r) b % 256 ≡ bit_xor (r % 256) b
byte_of_unfed w b r hb =
    bit_xor-mod 8 (bit_xor (w * 2 ^ 8 % 2 ^ 32) r) b
    ∙ ap₂ bit_xor
        (bit_xor-mod 8 (w * 2 ^ 8 % 2 ^ 32) r
          ∙ ap (λ (x : ℕ). bit_xor x (r % 256)) (low_clear w)
          ∙ bit_xor-zero (r % 256))
        (small b hb)
  where
    low_clear : (w : ℕ) → w * 2 ^ 8 % 2 ^ 32 % 256 ≡ 0
    low_clear w = omega arith

    small : (b : ℕ) → b < 256 → b % 256 ≡ b
    small b hb = omega arith

rest_of_unfed :
    (w b r : ℕ)
    → b < 256
    → bit_xor (bit_xor (w * 2 ^ 8 % 2 ^ 32) r) b / 256 ≡ bit_xor (w % 2 ^ 24) (r / 256)
rest_of_unfed w b r hb =
    bit_xor-div 8 (bit_xor (w * 2 ^ 8 % 2 ^ 32) r) b
    ∙ ap₂ bit_xor
        (bit_xor-div 8 (w * 2 ^ 8 % 2 ^ 32) r
          ∙ ap (λ (x : ℕ). bit_xor x (r / 256)) (shifted_back w))
        (gone b hb)
    ∙ bit_xor-zero_right (bit_xor (w % 2 ^ 24) (r / 256))
  where
    shifted_back : (w : ℕ) → w * 2 ^ 8 % 2 ^ 32 / 256 ≡ w % 2 ^ 24
    shifted_back w = omega arith

    gone : (b : ℕ) → b < 256 → b / 256 ≡ 0
    gone b hb = omega arith

refed : (w t : ℕ) → t < 2 ^ 24 → bit_xor (w / 2 ^ 24 * 2 ^ 24 + t) (bit_xor (w % 2 ^ 24) t) ≡ w
refed w t ht = omega (arith, high, low)
  where
    entry : ℕ
    entry = w / 2 ^ 24 * 2 ^ 24 + t

    rest : ℕ
    rest = bit_xor (w % 2 ^ 24) t

    rest_small : rest < 2 ^ 24
    rest_small = bit_xor-lt 24 (w % 2 ^ 24) t (omega arith) ht

    high : bit_xor entry rest / 2 ^ 24 ≡ w / 2 ^ 24
    high =
        bit_xor-div 24 entry rest
        ∙ ap₂ bit_xor (the_high w t ht) (gone rest rest_small)
        ∙ bit_xor-zero_right (w / 2 ^ 24)
      where
        the_high : (w t : ℕ) → t < 2 ^ 24 → (w / 2 ^ 24 * 2 ^ 24 + t) / 2 ^ 24 ≡ w / 2 ^ 24
        the_high w t ht = omega arith

        gone : (b : ℕ) → b < 2 ^ 24 → b / 2 ^ 24 ≡ 0
        gone b hb = omega arith

    low : bit_xor entry rest % 2 ^ 24 ≡ w % 2 ^ 24
    low =
        bit_xor-mod 24 entry rest
        ∙ ap₂ bit_xor (the_low w t ht) (kept rest rest_small)
        ∙ cancel_outer t (w % 2 ^ 24)
      where
        the_low : (w t : ℕ) → t < 2 ^ 24 → (w / 2 ^ 24 * 2 ^ 24 + t) % 2 ^ 24 ≡ t
        the_low w t ht = omega arith

        kept : (b : ℕ) → b < 2 ^ 24 → b % 2 ^ 24 ≡ b
        kept b hb = omega arith

pub feed-unfeed :
    (w b : ℕ) → w < 2 ^ 32 → b < 256 → feed byte_entries (unfeed reverse_entries w b) b ≡ w
unfolding unfeed
feed-unfeed w b hw hb =
    ap₂ bit_xor (ap (λ (i : ℕ). get_or byte_entries i 0) index ∙ entry.0) (rest_of_unfed w b r hb)
    ∙ refed w (r / 256) (omega (arith, entry.1))
  where
    r : ℕ
    r = reverse_entry (w / 2 ^ 24)

    entry : (get_or byte_entries (r % 256) 0 ≡ w / 2 ^ 24 * 2 ^ 24 + r / 256) × (r < 2 ^ 32)
    entry = reverse_entry-matches w hw

    u : ℕ
    u = bit_xor (bit_xor (w * 2 ^ 8 % 2 ^ 32) r) b

    index : bit_xor u b % 256 ≡ r % 256
    index =
        bit_xor-mod 8 u b
        ∙ ap₂ bit_xor (byte_of_unfed w b r hb) (small b hb)
        ∙ cancel_right (r % 256) b
      where
        small : (b : ℕ) → b < 256 → b % 256 ≡ b
        small b hb = omega arith

pub unfeed-lt : (w b : ℕ) → w < 2 ^ 32 → b < 256 → unfeed reverse_entries w b < 2 ^ 32
unfolding unfeed
unfeed-lt w b hw hb =
    bit_xor-lt 32 (bit_xor (w * 2 ^ 8 % 2 ^ 32) (reverse_entry (w / 2 ^ 24))) b
      (bit_xor-lt 32 (w * 2 ^ 8 % 2 ^ 32) (reverse_entry (w / 2 ^ 24)) (omega arith)
        (reverse_entry-matches w hw).1)
      (omega arith)
