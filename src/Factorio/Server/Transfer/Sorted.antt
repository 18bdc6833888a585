-- ===== src/Factorio/Server/Transfer/Sorted.antt =====
-- factorio-cacher/src/proxy/server_proxy.rs: the blocks of a download in the order of their numbers.
use factory_cacher.Base.{
  ℕ, zero, suc, ◌+◌, ◌≤◌, ◌<◌, ◌≡◌, refl, ap, ap₂, ◌∙◌, List, [], ◌∷◌, map, ltb, leb, ◌==◌,
  if◌then◌else◌, ◌&&◌, All, arith, ltb→lt, ltb-false→le, Bool-cases, inl, inr,
}
use factory_cacher.Base.SortedSet.{range}
use factory_cacher.Base.SortedSet.Laws.{count, count-cons, count-cons_self}
use factory_cacher.Factorio.Protocol.{TransferBlock}
use factory_cacher.Factorio.Server.Download.{block_id_of}
use factory_cacher.Factorio.Server.Transfer.{insert_block, sort_blocks}

ids : List TransferBlock → List ℕ
ids blocks = map block_id_of blocks

count-insert_block :
    (z : ℕ) (block : TransferBlock) (blocks : List TransferBlock)
    → count z (ids (insert_block block blocks))
      ≡ (if z == block.block_id then 1 else 0) + count z (ids blocks)
unfolding ids count insert_block
count-insert_block z block [] = refl
count-insert_block z block (other ∷ rest) = ground (arith, count-insert_block z block rest)

pub count-sort_blocks :
    (z : ℕ) (blocks : List TransferBlock)
    → count z (map block_id_of (sort_blocks blocks)) ≡ count z (map block_id_of blocks)
unfolding ids count sort_blocks
count-sort_blocks z [] = refl
count-sort_blocks z (block ∷ blocks) =
    count-insert_block z block (sort_blocks blocks)
    ∙ ap (◌+◌ (if z == block.block_id then 1 else 0)) (count-sort_blocks z blocks)

-- In order, where a number may be there more than once.
abbrev pub InOrder : List ℕ → Type 0
InOrder [] = Unit {0}
InOrder (x ∷ xs) = All (λ y. x ≤ y) xs × InOrder xs

insert_block-All :
    (x : ℕ) (block : TransferBlock) (blocks : List TransferBlock)
    → x ≤ block.block_id
    → All (λ y. x ≤ y) (ids blocks)
    → All (λ y. x ≤ y) (ids (insert_block block blocks))
unfolding ids insert_block
insert_block-All x block [] h rest = (h, tt)
insert_block-All x block (other ∷ blocks) h (first, rest) =
    elim (Bool-cases (leb block.block_id other.block_id)) [
      | inl low ↦ rw (low, insert_block) (h, (first, rest))
      | inr high ↦ rw (high, insert_block) (first, insert_block-All x block blocks h rest)
    ]

All-weaken : (x y : ℕ) (zs : List ℕ) → x ≤ y → All (λ z. y ≤ z) zs → All (λ z. x ≤ z) zs
All-weaken x y [] h rest = tt
All-weaken x y (z ∷ zs) h (first, rest) = (omega arith, All-weaken x y zs h rest)

insert_block-InOrder :
    (block : TransferBlock) (blocks : List TransferBlock)
    → InOrder (ids blocks)
    → InOrder (ids (insert_block block blocks))
unfolding ids insert_block
insert_block-InOrder block [] h = (tt, tt)
insert_block-InOrder block (other ∷ blocks) (first, rest) =
    elim (Bool-cases (leb block.block_id other.block_id)) [
      | inl low ↦
          rw (low, insert_block)
            (
              (
                ground arith,
                All-weaken block.block_id other.block_id (ids blocks) (ground arith) first,
              ),
              (first, rest),
            )
      | inr high ↦
          rw (high, insert_block)
            (
              insert_block-All other.block_id block blocks (ground arith) first,
              insert_block-InOrder block blocks rest,
            )
    ]

pub sort_blocks-InOrder :
    (blocks : List TransferBlock) → InOrder (map block_id_of (sort_blocks blocks))
unfolding ids sort_blocks
sort_blocks-InOrder [] = tt
sort_blocks-InOrder (block ∷ blocks) =
    insert_block-InOrder block (sort_blocks blocks) (sort_blocks-InOrder blocks)

-- What is below all of a list is not in it.
count-below : (z : ℕ) (xs : List ℕ) (x : ℕ) → z < x → All (λ y. x ≤ y) xs → count z xs ≡ 0
unfolding count
count-below z [] x h rest = refl
count-below z (y ∷ ys) x h (first, rest) = ground (arith, count-below z ys x h rest)

-- Numbers in order, each from `start` on `n` times over and no other, are the range.
pub InOrder-range :
    (n start : ℕ) (xs : List ℕ)
    → InOrder xs
    → ((z : ℕ) → count z xs ≡ (if leb start z && ltb z (start + n) then 1 else 0))
    → xs ≡ range start n
unfolding range count
InOrder-range zero start [] order counts = refl
InOrder-range zero start (x ∷ xs) order counts =
    absurd (ground (arith, counts x, count-cons_self x xs))
InOrder-range (suc n) start [] order counts = absurd (ground (arith, counts start))
InOrder-range (suc n) start (x ∷ xs) (first, order) counts = ap₂ ◌∷◌ is_first (
    InOrder-range n (suc start) xs order
      (λ z. ground (arith, counts z, count-cons z x xs, is_first)))
  where
    not_below : start ≤ x
    not_below = ground (arith, counts x, count-cons_self x xs)

    not_above : x ≤ start
    not_above = elim (Bool-cases (ltb start x)) [
      | inl above ↦ absurd (
          ground (
            arith,
            counts start,
            count-below start (x ∷ xs) x (ltb→lt start x above) (omega arith, first),
          ))
      | inr below ↦ ltb-false→le start x below
    ]

    is_first : x ≡ start
    is_first = omega (arith, not_below, not_above)
