-- ===== src/Factorio/RevCrc/Forge.antt =====
-- factorio-cacher/src/rev_crc.rs: `forge_crc`, against the checksum of the whole.
use Prim.Native.Nat.{bit_xor}
use native.Mathlib.Nat.{pow-suc, mod-mod}
use mathlib.Core.List.{reverse-cons, reverse-append, foldl-append}
use factory_cacher.Base.{
  ℕ, zero, suc, ◌/◌, ◌%◌, ◌^◌, ◌<◌, ◌≡◌, refl, sym, ap, ap₂, ◌∙◌, List, [], ◌∷◌, ◌++◌, get_or,
  replicate, Bool, true, ◌&&◌, arith, ltb, foldl, reverse, All,
}
use factory_cacher.Base.Words.{Bytes, IsByte, le_bytes, le_bytes-IsByte}
use factory_cacher.Base.Xor.{
  bit_xor_comm, bit_xor_assoc, bit_xor-lt, bit_xor-div, bit_xor-mod, bit_xor-zero_right,
}
use factory_cacher.Extern.Crc.{Crc, byte_entries, feed}
use factory_cacher.Factorio.RevCrc.{
  RevDigest, new, fill_reverse, unfeed, update_value, digest, update, finalize, forge_crc,
}
use factory_cacher.Factorio.RevCrc.Inverse.{reverse_entries, feed-unfeed, unfeed-lt, cancel_right}

-- The register after some bytes, and the register before them from the one after.
run : ℕ → Bytes → ℕ
run = foldl (feed byte_entries)

run_back : ℕ → Bytes → ℕ
run_back v bytes = foldl (unfeed reverse_entries) v (reverse bytes)

run_back-cons :
    (v b : ℕ) (bs : Bytes) → run_back v (b ∷ bs) ≡ unfeed reverse_entries (run_back v bs) b
unfolding run_back
run_back-cons v b bs =
    ap (foldl (unfeed reverse_entries) v) (reverse-cons b bs)
    ∙ foldl-append (unfeed reverse_entries) v (reverse bs) (b ∷ [])

run_back-lt : (v : ℕ) (bs : Bytes) → v < 2 ^ 32 → All IsByte bs → run_back v bs < 2 ^ 32
unfolding run_back
run_back-lt v [] hv h = hv
run_back-lt v (b ∷ bs) hv (hb, h) =
    omega (arith, run_back-cons v b bs, unfeed-lt (run_back v bs) b (run_back-lt v bs hv h) hb)

run-run_back : (v : ℕ) (bs : Bytes) → v < 2 ^ 32 → All IsByte bs → run (run_back v bs) bs ≡ v
unfolding run run_back
run-run_back v [] hv h = refl
run-run_back v (b ∷ bs) hv (hb, h) =
    ap (λ (x : ℕ). run (feed byte_entries x b) bs) (run_back-cons v b bs)
    ∙ ap (λ (x : ℕ). run x bs) (feed-unfeed (run_back v bs) b (run_back-lt v bs hv h) hb)
    ∙ run-run_back v bs hv h

-- A word's bytes move the register as if the word had been in it: the two can change places.
shift_word : List ℕ → ℕ → ℕ → ℕ
shift_word table zero x = x
shift_word table (suc w) x = shift_word table w (bit_xor (get_or table (x % 256) 0) (x / 256))

run_word :
    (table : List ℕ) (w v d : ℕ)
    → d < 256 ^ w
    → foldl (feed table) v (le_bytes w d) ≡ shift_word table w (bit_xor v d)
unfolding shift_word le_bytes
run_word table zero v d h = sym (bit_xor-zero_right v) ∙ ap (bit_xor v) (none_left d h)
  where
    none_left : (d : ℕ) → d < 256 ^ 0 → 0 ≡ d
    none_left d h = omega arith
run_word table (suc w) v d h =
    run_word table w (feed table v (d % 256)) (d / 256) (omega (arith, pow-suc 256 w))
    ∙ ap (shift_word table w) one
  where
    index : bit_xor v (d % 256) % 256 ≡ bit_xor v d % 256
    index =
        bit_xor-mod 8 v (d % 256) ∙ ap (bit_xor (v % 256)) (mod-mod d 256) ∙ sym (bit_xor-mod 8 v d)

    one :
        bit_xor (feed table v (d % 256)) (d / 256)
        ≡ bit_xor (get_or table (bit_xor v d % 256) 0) (bit_xor v d / 256)
    one =
        bit_xor_assoc (get_or table (bit_xor v (d % 256) % 256) 0) (v / 256) (d / 256)
        ∙ ap₂ bit_xor (ap (λ (i : ℕ). get_or table i 0) index) (sym (bit_xor-div 8 v d))

run_word_swap : (v d : ℕ) → v < 2 ^ 32 → d < 2 ^ 32 → run v (le_bytes 4 d) ≡ run d (le_bytes 4 v)
unfolding run
run_word_swap v d hv hd =
    run_word byte_entries 4 v d (omega arith)
    ∙ ap (shift_word byte_entries 4) (bit_xor_comm v d)
    ∙ sym (run_word byte_entries 4 d v (omega arith))

-- The four bytes between: run forwards from `before` over the word that was run backwards from
-- `after`, the register is `after`.
run-forged :
    (before after : ℕ)
    → before < 2 ^ 32
    → after < 2 ^ 32
    → run before (le_bytes 4 (run_back after (le_bytes 4 before))) ≡ after
run-forged before after hb ha =
    run_word_swap before (run_back after (le_bytes 4 before)) hb
      (run_back-lt after (le_bytes 4 before) ha (le_bytes-IsByte 4 before))
    ∙ run-run_back after (le_bytes 4 before) ha (le_bytes-IsByte 4 before)

-- The register stays below 2 ^ 32.
all_small : List ℕ → Bool
all_small [] = true
all_small (e ∷ es) = ltb e (2 ^ 32) && all_small es

byte_entries_small : all_small byte_entries ≡ true
unfolding all_small
byte_entries_small = refl

get_or-small : (es : List ℕ) (i : ℕ) → all_small es ≡ true → get_or es i 0 < 2 ^ 32
unfolding all_small
get_or-small [] i h = omega arith
get_or-small (e ∷ es) zero h = ground arith
get_or-small (e ∷ es) (suc i) h = get_or-small es i (ground arith)

run-lt : (v : ℕ) (bs : Bytes) → v < 2 ^ 32 → run v bs < 2 ^ 32
unfolding run
run-lt v [] h = h
run-lt v (b ∷ bs) h = run-lt (feed byte_entries v b) bs (
    bit_xor-lt 32 (get_or byte_entries (bit_xor v b % 256) 0) (v / 256)
      (get_or-small byte_entries (bit_xor v b % 256) byte_entries_small) (omega arith))

-- One update with the second piece and then one with the first is one with both.
pub update-update :
    (d : RevDigest) (front back : Bytes) → update (update d back) front ≡ update d (front ++ back)
unfolding update update_value
update-update d front back =
    ap (λ (v : ℕ). record d { value = v })
      (sym (foldl-append (unfeed d.crc.reverse_table) d.value (reverse back) (reverse front))
        ∙ ap (foldl (unfeed d.crc.reverse_table) d.value) (sym (reverse-append front back)))

module _ (crc : Crc) where
  new-reverse_table : (new crc).reverse_table ≡ reverse_entries
  unfolding new fill_reverse
  new-reverse_table = ap (λ (t : List ℕ). fill_reverse 0 t (replicate 256 0)) crc.table-entries

  value-run : (d : crc.Digest) (b : Bytes) → crc.value (crc.update d b) ≡ run (crc.value d) b
  unfolding run
  value-run d b =
      crc.value-update d b ∙ ap (λ (t : List ℕ). foldl (feed t) (crc.value d) b) crc.table-entries

  value-update-digest :
      (target : ℕ) (b : Bytes)
      → (update (digest (new crc) target) b).value ≡ run_back (bit_xor target crc.xorout) b
  unfolding update update_value digest new run_back
  value-update-digest target b =
      ap (λ (t : List ℕ). foldl (unfeed t) (bit_xor target crc.xorout) (reverse b))
        new-reverse_table

  before : Bytes → ℕ
  before b = run (crc.value crc.digest) b

  checksum-run : (b : Bytes) → crc.checksum b ≡ bit_xor (before b) crc.xorout
  unfolding before
  checksum-run b =
      crc.checksum_lem b
      ∙ crc.finalize-value (crc.update crc.digest b)
      ∙ ap (λ (v : ℕ). bit_xor v crc.xorout) (value-run crc.digest b)

  before-lt : (b : Bytes) → before b < 2 ^ 32
  unfolding before
  before-lt b = run-lt (crc.value crc.digest) b (omega (arith, crc.value-digest))

  target_register-lt : (target : ℕ) → target < 2 ^ 32 → bit_xor target crc.xorout < 2 ^ 32
  target_register-lt target h = bit_xor-lt 32 target crc.xorout h (omega (arith, crc.xorout-ones))

  forge_crc-run_back :
      (front back : Bytes) (target : ℕ)
      → forge_crc (crc.checksum front) (update (digest (new crc) target) back)
        ≡ le_bytes 4
            (run_back (run_back (bit_xor target crc.xorout) back) (le_bytes 4 (before front)))
  unfolding forge_crc finalize update update_value digest new run_back
  forge_crc-run_back front back target =
      ap₂
        (λ (t : List ℕ) (v : ℕ). le_bytes 4 (
          foldl (unfeed t) (foldl (unfeed t) (bit_xor target crc.xorout) (reverse back))
            (reverse (le_bytes 4 v))))
        new-reverse_table
        (ap (λ (c : ℕ). bit_xor c crc.xorout) (checksum-run front)
          ∙ cancel_right (before front) crc.xorout)

-- `forge_crc` hits the target: for a target below 2 ^ 32 and bytes `back`, whatever stands in front,
-- the checksum of the front, the four forged bytes and the back together is the target.
pub checksum-forge_crc :
    (crc : Crc) (front back : Bytes) (target : ℕ)
    → target < 2 ^ 32
    → All IsByte back
    → crc.checksum
        (front ++ forge_crc (crc.checksum front) (update (digest (new crc) target) back) ++ back)
      ≡ target
unfolding before run
checksum-forge_crc crc front back target small bytes =
    checksum-run crc (front ++ forged ++ back)
    ∙ ap (λ (v : ℕ). bit_xor v crc.xorout) register
    ∙ cancel_right target crc.xorout
  where
    forged : Bytes
    forged = forge_crc (crc.checksum front) (update (digest (new crc) target) back)

    goal : ℕ
    goal = bit_xor target crc.xorout

    goal_small : goal < 2 ^ 32
    goal_small = target_register-lt crc target small

    register : before crc (front ++ forged ++ back) ≡ goal
    register =
        foldl-append (feed byte_entries) (crc.value crc.digest) (front ++ forged) back
        ∙ ap (λ (v : ℕ). run v back)
            (foldl-append (feed byte_entries) (crc.value crc.digest) front forged
              ∙ ap (run (before crc front)) (forge_crc-run_back crc front back target)
              ∙ run-forged (before crc front) (run_back goal back) (before-lt crc front)
                  (run_back-lt goal back goal_small bytes))
        ∙ run-run_back goal back goal_small bytes
