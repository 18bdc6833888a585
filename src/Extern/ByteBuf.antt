-- ===== src/Extern/ByteBuf.antt =====
-- Byte buffers of the `bytes` crate (`Buf::try_get_*`, `BufMut::put_*`), which the repository only
-- calls: the operations are fields, and the laws state their documentation. A width is a number
-- of bytes: `get_le 4` is `try_get_u32_le`, `get_be 8` is `try_get_u64`, `put_le 1` is `put_u8`.
use factory_cacher.Base.{
  ℕ, ◌^◌, ◌<◌, ◌≡◌, refl, ◌∙◌, ◌++◌, arith, ltb, if◌then◌else◌, length, take, drop, false, Outcome,
  ok, err, try_get, length-append, take-append_left, drop-append_left, ap, not-lt→ltb,
}
use factory_cacher.Base.Words.{
  Bytes, le_bytes, of_le, be_bytes, of_be, length-le_bytes, length-be_bytes, of_le-le_bytes,
  of_be-be_bytes,
}

-- The first `w` bytes, read by `value`, and the rest; with fewer bytes an error.
abbrev pub read : (Bytes → ℕ) → ℕ → Bytes → Outcome (ℕ × Bytes)
read value w b =
    if ltb (length b) w then err (try_get w (length b)) else ok (value (take w b), drop w b)

-- `try_copy_to_slice`: the first `n` bytes as they are.
abbrev pub read_slice : ℕ → Bytes → Outcome (Bytes × Bytes)
read_slice n b = if ltb (length b) n then err (try_get n (length b)) else ok (take n b, drop n b)

pub record ByteBuf : Type 0 where
  pub get_le : ℕ → Bytes → Outcome (ℕ × Bytes)
  pub get_be : ℕ → Bytes → Outcome (ℕ × Bytes)
  pub put_le : ℕ → ℕ → Bytes → Bytes
  pub put_be : ℕ → ℕ → Bytes → Bytes
  pub get_slice : ℕ → Bytes → Outcome (Bytes × Bytes)
  pub get_le_lem : (w : ℕ) (b : Bytes) → get_le w b ≡ read of_le w b
  pub get_be_lem : (w : ℕ) (b : Bytes) → get_be w b ≡ read of_be w b
  pub put_le_lem : (w x : ℕ) (b : Bytes) → put_le w x b ≡ b ++ le_bytes w x
  pub put_be_lem : (w x : ℕ) (b : Bytes) → put_be w x b ≡ b ++ be_bytes w x
  pub get_slice_lem : (n : ℕ) (b : Bytes) → get_slice n b ≡ read_slice n b

-- A prefix of the right length is read whole.
read-append :
    (value : Bytes → ℕ) (w : ℕ) (front rest : Bytes)
    → length front ≡ w
    → read value w (front ++ rest) ≡ ok (value front, rest)
read-append value w front rest h =
    let long : ltb (length (front ++ rest)) w ≡ false =
      not-lt→ltb _ _ (omega (arith, length-append front rest)) in
    rw (long, take-append_left w front rest h, drop-append_left w front rest h)

module _ (io : ByteBuf) where
  pub get_le-append :
      (w x : ℕ) (rest : Bytes) → x < 256 ^ w → io.get_le w (le_bytes w x ++ rest) ≡ ok (x, rest)
  get_le-append w x rest h =
      io.get_le_lem w _
      ∙ read-append of_le w (le_bytes w x) rest (length-le_bytes w x)
      ∙ ap (λ (v : ℕ). ok (v, rest)) (of_le-le_bytes w x h)

  pub get_be-append :
      (w x : ℕ) (rest : Bytes) → x < 256 ^ w → io.get_be w (be_bytes w x ++ rest) ≡ ok (x, rest)
  get_be-append w x rest h =
      io.get_be_lem w _
      ∙ read-append of_be w (be_bytes w x) rest (length-be_bytes w x)
      ∙ ap (λ (v : ℕ). ok (v, rest)) (of_be-be_bytes w x h)

  pub get_slice-append :
      (n : ℕ) (front rest : Bytes)
      → length front ≡ n
      → io.get_slice n (front ++ rest) ≡ ok (front, rest)
  get_slice-append n front rest h =
      let long : ltb (length (front ++ rest)) n ≡ false =
        not-lt→ltb _ _ (omega (arith, length-append front rest)) in
      io.get_slice_lem n (front ++ rest)
      ∙ rw (long, take-append_left n front rest h, drop-append_left n front rest h)

-- The interface can be met: buffers that are lists.
abbrev pub list_buf : ByteBuf
list_buf = record {
  get_le = read of_le;
  get_be = read of_be;
  get_slice = read_slice;
  put_le = λ w x b. b ++ le_bytes w x;
  put_be = λ w x b. b ++ be_bytes w x;
  get_le_lem = λ w b. refl;
  get_be_lem = λ w b. refl;
  put_le_lem = λ w x b. refl;
  put_be_lem = λ w x b. refl;
  get_slice_lem = λ n b. refl;
}
