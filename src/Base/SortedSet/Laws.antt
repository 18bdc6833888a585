-- ===== src/Base/SortedSet/Laws.antt =====
-- Membership in the sets, by counting.
use factory_cacher.Base.Tests.{
  ltb, ltb-false→le, ltb→lt, not-lt→ltb, ne→==, ◌==◌, if◌then◌else◌, Bool-cases,
}
use factory_cacher.Base.Lists.{length, All, All-snoc}
use Prim.Native.Nat.{ℕ, zero, suc, ◌+◌, ◌<◌, ◌≤◌}
use mathlib.Core.Path.{◌≡◌, refl, ap, ◌∙◌}
use mathlib.Core.Bool.{Bool, true, false}
use mathlib.Core.Logic.{◌⊎◌, inl, inr}
use mathlib.Core.List.{List, [], ◌∷◌, ◌++◌}
use native.Mathlib.Omega.{arith}
use factory_cacher.Base.SortedSet.{insert, remove, range}

-- How often a number is in a list.
unfoldable pub count : ℕ → List ℕ → ℕ
count x [] = 0
count x (y ∷ ys) = (if x == y then 1 else 0) + count x ys

-- A set loses exactly the number that is removed, and says whether it had it.
pub count-remove :
    (x z : ℕ) (xs : List ℕ)
    → count z xs
      ≡ count z (remove x xs).1 + (if (remove x xs).0 then (if z == x then 1 else 0) else 0)
unfolding count remove
count-remove x z [] = refl
count-remove x z (y ∷ ys) = ground (arith, count-remove x z ys)

pub count-remove_found :
    (x z : ℕ) (xs : List ℕ)
    → (remove x xs).0 ≡ true
    → count z xs ≡ count z (remove x xs).1 + (if z == x then 1 else 0)
count-remove_found x z xs found =
    count-remove x z xs
    ∙ ap (λ (b : Bool). count z (remove x xs).1 + (if b then (if z == x then 1 else 0) else 0))
        found

-- A set gains exactly the number that is inserted, unless it has it.
pub count-insert :
    (x z : ℕ) (xs : List ℕ)
    → count x xs ≡ 0
    → count z (insert x xs) ≡ count z xs + (if z == x then 1 else 0)
unfolding count insert
count-insert x z [] h = ground arith
count-insert x z (y ∷ ys) h = ground (arith, count-insert x z ys)

pub count-remove_0 : (x : ℕ) (xs : List ℕ) → (remove x xs).0 ≡ false → count x xs ≡ 0
unfolding count remove
count-remove_0 x [] h = refl
count-remove_0 x (y ∷ ys) h = ground (arith, count-remove_0 x ys)

pub length-insert : (x : ℕ) (xs : List ℕ) → length (insert x xs) ≤ suc (length xs)
unfolding insert
length-insert x [] = omega arith
length-insert x (y ∷ ys) = ground (arith, length-insert x ys)

pub length-remove : (x : ℕ) (xs : List ℕ) → length (remove x xs).1 ≤ length xs
unfolding remove
length-remove x [] = omega arith
length-remove x (y ∷ ys) = ground (arith, length-remove x ys)

pub count-range_below : (z start n : ℕ) → z < start → count z (range start n) ≡ 0
unfolding count range
count-range_below z start zero h = refl
count-range_below z start (suc n) h = ground (arith, count-range_below z (suc start) n)

pub count-range_above : (z start n : ℕ) → start + n ≤ z → count z (range start n) ≡ 0
unfolding count range
count-range_above z start zero h = refl
count-range_above z start (suc n) h = ground (arith, count-range_above z (suc start) n)

-- A range holds each of its numbers once.
pub count-range : (z start n : ℕ) → start ≤ z → z < start + n → count z (range start n) ≡ 1
unfolding count range
count-range z start zero h1 h2 = omega arith
count-range z start (suc n) h1 h2 =
    ground (arith, count-range z (suc start) n, count-range_below z (suc start) n)

-- In the order of its members, and without duplicates.
abbrev pub Increasing : List ℕ → Type 0
Increasing [] = Unit {0}
Increasing (x ∷ xs) = All (λ y. x < y) xs × Increasing xs

pub insert-last : (x : ℕ) (xs : List ℕ) → All (λ z. z < x) xs → insert x xs ≡ xs ++ x ∷ []
unfolding insert
insert-last x [] h = refl
insert-last x (y ∷ ys) h =
    rw (ne→== x y (λ e. omega (arith, h.0)), not-lt→ltb x y (omega (arith, h.0)))
      (ap (λ (r : List ℕ). y ∷ r) (insert-last x ys h.1))

-- A number that a set is below, behind the set, is below what the rest is above.
pub All-below :
    (x : ℕ) (ids swap : List ℕ)
    → All (λ y. x < y) ids
    → All (λ y. All (λ z. z < y) swap) ids
    → All (λ y. All (λ z. z < y) (swap ++ x ∷ [])) ids
All-below x [] swap above below = tt
All-below x (y ∷ ys) swap above below =
    (All-snoc (λ z. z < y) swap x below.0 above.0, All-below x ys swap above.1 below.1)

order-cases :
    (x y : ℕ)
    → ((x == y) ≡ true)
      ⊎ ((((x == y) ≡ false) × (ltb x y ≡ true)) ⊎ (((x == y) ≡ false) × (ltb x y ≡ false)))
order-cases x y = elim (Bool-cases (x == y)) [
  | inl same ↦ inl same
  | inr other ↦ elim (Bool-cases (ltb x y)) [
    | inl less ↦ inr (inl (other, less))
    | inr more ↦ inr (inr (other, more))
  ]
]

All-insert : (P : ℕ → Type 0) (x : ℕ) (xs : List ℕ) → P x → All P xs → All P (insert x xs)
unfolding insert
All-insert P x [] h all = (h, tt)
All-insert P x (y ∷ ys) h all = elim (order-cases x y) [
  | inl same ↦ rw same all
  | inr (inl (other, less)) ↦ rw (other, less) (h, all)
  | inr (inr (other, more)) ↦ rw (other, more) (all.0, All-insert P x ys h all.1)
]

All-trans : (x y : ℕ) (ys : List ℕ) → x < y → All (λ z. y < z) ys → All (λ z. x < z) ys
All-trans x y [] h all = tt
All-trans x y (z ∷ zs) h all = (omega (arith, all.0), All-trans x y zs h all.1)

pub insert-Increasing : (x : ℕ) (xs : List ℕ) → Increasing xs → Increasing (insert x xs)
unfolding insert
insert-Increasing x [] h = (tt, tt)
insert-Increasing x (y ∷ ys) h = elim (order-cases x y) [
  | inl same ↦ rw same h
  | inr (inl (other, less)) ↦
      rw (other, less) ((ltb→lt x y less, All-trans x y ys (ltb→lt x y less) h.0), h)
  | inr (inr (other, more)) ↦
      rw (other, more)
        (All-insert (λ z. y < z) x ys (ground (arith, other, more)) h.0, insert-Increasing x ys h.1)
]

pub count-cons_self : (x : ℕ) (ys : List ℕ) → count x (x ∷ ys) ≡ suc (count x ys)
unfolding count
count-cons_self x ys = ground arith

pub count-cons : (z x : ℕ) (ys : List ℕ) → count z (x ∷ ys) ≡ (if z == x then 1 else 0) + count z ys
unfolding count
count-cons z x ys = refl

pub count-append : (z : ℕ) (xs ys : List ℕ) → count z (xs ++ ys) ≡ count z xs + count z ys
unfolding count
count-append z [] ys = omega arith
count-append z (x ∷ xs) ys = ground (arith, count-append z xs ys)

-- The numbers below `n`, once each.
pub count-range_zero : (z n : ℕ) → count z (range 0 n) ≡ (if ltb z n then 1 else 0)
count-range_zero z n = elim (Bool-cases (ltb z n)) [
  | inl less ↦ rw less (count-range z 0 n (omega arith) (omega (arith, ltb→lt z n less)))
  | inr more ↦ rw more (count-range_above z 0 n (omega (arith, ltb-false→le z n more)))
]
