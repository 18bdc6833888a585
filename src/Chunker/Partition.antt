-- ===== src/Chunker/Partition.antt =====
-- common/src/chunker.rs: the chunks of some data, and their sizes.
use native.Mathlib.Decide.{dec_lt}
use factory_cacher.Base.{
  ◌⊎◌, eq-nil_of_length, length-append, ℕ, zero, suc, ◌+◌, ◌≤◌, ◌<◌, ◌≡◌, refl, sym, ap, ◌∙◌, min,
  List, [], ◌∷◌, ◌++◌, arith, length, take, drop, concat, is_empty, some, inl, inr,
  take-append-drop, length-drop, length-take, true, false,
}
use factory_cacher.Base.Words.{Bytes}
use factory_cacher.Chunker.RollingHash.{
  RabinKarpHash, IsHash, update-IsHash, update, reset, reset-eq-new_hash, new_hash, new_hash-IsHash,
}
use factory_cacher.Chunker.{
  Chunker, min_chunk_size, max_chunk_size, scan, next, new, collect, chunks,
}

pub not-is_empty : (xs : Bytes) → 0 < length xs → is_empty xs ≡ false
not-is_empty [] h = absurd (omega arith)
not-is_empty (x ∷ xs) h = refl

is_empty_of_length : (xs : Bytes) → length xs ≡ 0 → is_empty xs ≡ true
is_empty_of_length [] h = refl
is_empty_of_length (x ∷ xs) h = absurd (omega arith)

pub size_bounds : (0 < min_chunk_size) × (min_chunk_size < max_chunk_size)
unfolding min_chunk_size max_chunk_size
size_bounds = omega arith

-- The loop only adds to the size, stays within the data and the maximal size, and stops short of
-- the data only at a boundary or at the maximal size.
scan_bounds :
    (h : RabinKarpHash) (size : ℕ) (bytes : Bytes)
    → size < max_chunk_size
    → (size ≤ (scan h size bytes).1)
      × ((scan h size bytes).1 ≤ size + length bytes)
      × ((scan h size bytes).1 ≤ max_chunk_size)
unfolding scan
scan_bounds h size [] p = omega arith
scan_bounds h size (b ∷ bs) p = ground (arith, scan_bounds (update h b).0 (size + 1) bs)

scan-IsHash :
    (h : RabinKarpHash) (size : ℕ) (bytes : Bytes) → IsHash h → IsHash (scan h size bytes).0
unfolding scan
scan-IsHash h size [] v = v
scan-IsHash h size (b ∷ bs) v =
    ground (arith, update-IsHash h b v, scan-IsHash (update h b).0 (size + 1) bs)

-- What one call of `next` gives.
pub record Takes (c : Chunker) (chunk : Bytes) (c' : Chunker) : Type 0 where
  pub yields : next c ≡ some (chunk, c')
  pub splits : chunk ++ c'.bytes ≡ c.bytes
  pub some_bytes : 0 < length chunk
  pub at_most : length chunk ≤ max_chunk_size
  pub last_or_full : (min_chunk_size ≤ length chunk) ⊎ (length c'.bytes ≡ 0)
  pub fresh : c'.rolling_hash ≡ new_hash

abbrev pub start_of : Chunker → ℕ
start_of c = min min_chunk_size (length c.bytes)

abbrev pub end_of : Chunker → RabinKarpHash × ℕ
end_of c = scan c.rolling_hash (start_of c) (drop (start_of c) c.bytes)

abbrev pub chunk_of : Chunker → Bytes
chunk_of c = take (end_of c).1 c.bytes

abbrev pub after : Chunker → Chunker
after c = record { rolling_hash = reset (end_of c).0; bytes = drop (end_of c).1 c.bytes }

next-some : (c : Chunker) → 0 < length c.bytes → next c ≡ some (chunk_of c, after c)
unfolding next
next-some c h = rw (not-is_empty c.bytes h)

pub end_of_bounds :
    (c : Chunker)
    → 0 < length c.bytes
    → (0 < (end_of c).1)
      × ((end_of c).1 ≤ length c.bytes)
      × ((end_of c).1 ≤ max_chunk_size)
      × ((min_chunk_size ≤ (end_of c).1) ⊎ ((end_of c).1 ≡ length c.bytes))
end_of_bounds c h = ground (
  arith,
  size_bounds,
  length-drop (start_of c) c.bytes,
  scan_bounds c.rolling_hash (start_of c) (drop (start_of c) c.bytes),
)

pub next-Takes :
    (c : Chunker) → IsHash c.rolling_hash → 0 < length c.bytes → Takes c (chunk_of c) (after c)
next-Takes c v h = record {
  yields = next-some c h;
  splits = take-append-drop (end_of c).1 c.bytes;
  some_bytes = ground (arith, size, end_of_bounds c h);
  at_most = ground (arith, size, end_of_bounds c h);
  last_or_full = ground (arith, size, end_of_bounds c h, length-drop (end_of c).1 c.bytes);
  fresh = reset-eq-new_hash _ (scan-IsHash c.rolling_hash _ _ v);
}
  where
    size : length (chunk_of c) ≡ min (end_of c).1 (length c.bytes)
    size = length-take (end_of c).1 c.bytes

-- Every chunk has at least one byte and at most the maximal size, and all but the last have at
-- least the minimal size.
abbrev pub SizesInRange : List Bytes → Type 0
SizesInRange [] = Unit {0}
SizesInRange (c ∷ []) = (0 < length c) × (length c ≤ max_chunk_size)
SizesInRange (c ∷ d ∷ cs) =
    (min_chunk_size ≤ length c) × (length c ≤ max_chunk_size) × SizesInRange (d ∷ cs)

SizesInRange-cons :
    (c : Bytes) (cs : List Bytes)
    → min_chunk_size ≤ length c
    → length c ≤ max_chunk_size
    → SizesInRange cs
    → SizesInRange (c ∷ cs)
SizesInRange-cons c [] lo hi h = omega (arith, size_bounds)
SizesInRange-cons c (d ∷ cs) lo hi h = (lo, hi, h)

pub collect_empty : (fuel : ℕ) (c : Chunker) → length c.bytes ≡ 0 → collect fuel c ≡ []
unfolding collect next
collect_empty zero c h = refl
collect_empty (suc fuel) c h = rw (is_empty_of_length c.bytes h, collect, next)

-- One round of `collect`.
pub collect_step :
    (fuel : ℕ) {c c' : Chunker} {chunk : Bytes}
    → Takes c chunk c'
    → collect (suc fuel) c ≡ chunk ∷ collect fuel c'
unfolding collect
collect_step fuel t = rw (t.yields, collect)

collect-partition :
    (fuel : ℕ) (c : Chunker)
    → IsHash c.rolling_hash
    → length c.bytes ≤ fuel
    → (concat (collect fuel c) ≡ c.bytes) × SizesInRange (collect fuel c)
collect-partition zero c v h =
    rw (collect_empty zero c (omega arith)) (sym (eq-nil_of_length c.bytes (omega arith)), tt)
collect-partition (suc fuel) c v h = elim (dec_lt 0 (length c.bytes)) [
  | no done ↦
      rw (collect_empty (suc fuel) c (omega arith))
        (sym (eq-nil_of_length c.bytes (omega arith)), tt)
  | yes more ↦
      let t = next-Takes c v more in
      let c' = after c in
      let (joined, sized) =
        collect-partition fuel c' (rw t.fresh new_hash-IsHash) (omega (arith, shorter t)) in
      rw (collect_step fuel t) (ap (◌++◌ (chunk_of c)) joined ∙ t.splits, extend t sized)
]
  where
    shorter : Takes c (chunk_of c) (after c) → length (after c).bytes < length c.bytes
    shorter t =
        omega (arith, ap length t.splits, length-append (chunk_of c) (after c).bytes, t.some_bytes)

    extend :
        Takes c (chunk_of c) (after c)
        → SizesInRange (collect fuel (after c))
        → SizesInRange (chunk_of c ∷ collect fuel (after c))
    extend t sized = elim t.last_or_full [
      | inl full ↦ SizesInRange-cons _ _ full t.at_most sized
      | inr last ↦ rw (collect_empty fuel (after c) last) (t.some_bytes, t.at_most)
    ]

-- The chunks, one after the other, are the data; every chunk but the last has at least 512 bytes,
-- and none is empty or has more than 4096.
pub chunks-partition :
    (bytes : Bytes) → (concat (chunks bytes) ≡ bytes) × SizesInRange (chunks bytes)
unfolding chunks new
chunks-partition bytes = collect-partition (length bytes) (new bytes) new_hash-IsHash (omega arith)
