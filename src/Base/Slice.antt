-- ===== src/Base/Slice.antt =====
-- Slices of bytes (`Bytes::slice`, an index by a range), which panic out of bounds.
use factory_cacher.Base.{
  ℕ, ◌+◌, ◌-◌, ◌≤◌, ◌≡◌, refl, leb, le→leb, length, take, drop, Outcome, ok, ◌>>◌, assert, arith,
}
use factory_cacher.Base.Words.{Bytes}

unfoldable pub slice : ℕ → ℕ → Bytes → Outcome Bytes
slice from to b = do
  assert (leb from to)
  assert (leb to (length b))
  ok (take (to - from) (drop from b))

-- Within bounds.
pub slice-within :
    (from size : ℕ) (b : Bytes)
    → from + size ≤ length b
    → slice from (from + size) b ≡ ok (take size (drop from b))
unfolding slice
slice-within from size b h =
    let same : from + size - from ≡ size = omega arith in
    rw (le→leb from (from + size) (omega arith), le→leb (from + size) (length b) h, same) refl
