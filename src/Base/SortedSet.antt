-- ===== src/Base/SortedSet.antt =====
-- `BTreeSet<u32>` of the standard library: a set of numbers, as the list of its members in
-- increasing order.
use factory_cacher.Base.Tests.{ltb, ◌==◌, if◌then◌else◌}
use factory_cacher.Base.Lists.{length}
use Prim.Native.Nat.{ℕ, zero, suc, ◌+◌, ◌<◌}
use mathlib.Core.Bool.{Bool, true, false}
use mathlib.Core.Option.{Option, none, some}
use mathlib.Core.List.{List, [], ◌∷◌}
pub mod Laws

-- `insert`
unfoldable pub insert : ℕ → List ℕ → List ℕ
insert x [] = x ∷ []
insert x (y ∷ ys) =
    let rest = insert x ys in if x == y then y ∷ ys else if ltb x y then x ∷ (y ∷ ys) else y ∷ rest

-- What `remove` leaves, and what it returns: whether the number was there.
unfoldable pub remove : ℕ → List ℕ → Bool × List ℕ
remove x [] = (false, [])
remove x (y ∷ ys) =
    let (found, rest) = remove x ys in if x == y then (true, ys) else (found, y ∷ rest)

-- `pop_first`
unfoldable pub pop_first : List ℕ → Option (ℕ × List ℕ)
pop_first [] = none
pop_first (x ∷ xs) = some (x, xs)

-- `from_iter(start..start + n)`
unfoldable pub range : ℕ → ℕ → List ℕ
range start zero = []
range start (suc n) = start ∷ range (suc start) n
