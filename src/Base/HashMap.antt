-- ===== src/Base/HashMap.antt =====
-- `std::collections::HashMap` with byte sequences for keys, as the history of its insertions,
-- newest first: `get` finds the newest value of a key. `len` counts the keys that differ.
pub mod Laws
use factory_cacher.Base.Lists.{length}
use factory_cacher.Base.Tests.{if◌then◌else◌, Bool-cases}
use factory_cacher.Base.Words.{Bytes, same_bytes, same_bytes_refl, same_bytes→eq}
use Prim.Native.Nat.{ℕ, suc, ◌+◌}
use mathlib.Core.Bool.{Bool, true, false, false≢true}
use mathlib.Core.List.{List, [], ◌∷◌}
use mathlib.Core.Logic.{◌⊎◌, inl, inr}
use mathlib.Core.Option.{Option, none, some}
use mathlib.Core.Path.{◌≡◌, refl, sym, ap, ◌∙◌}
use native.Mathlib.Omega.{arith}

abbrev pub HashMap {ℓ} : Type ℓ → Type ℓ
HashMap V = List (Bytes × V)

module _ {ℓ} {V : Type ℓ} where
  unfoldable pub get : Bytes → HashMap V → Option V
  get k [] = none
  get k ((j, v) ∷ m) = if same_bytes j k then some v else get k m

  abbrev pub insert : Bytes → V → HashMap V → HashMap V
  insert k v m = (k, v) ∷ m

  unfoldable pub remove : Bytes → HashMap V → HashMap V
  remove k [] = []
  remove k ((j, v) ∷ m) = let rest = remove k m in if same_bytes j k then rest else (j, v) ∷ rest

  unfoldable pub contains_key : Bytes → HashMap V → Bool
  contains_key k [] = false
  contains_key k ((j, _) ∷ m) = if same_bytes j k then true else contains_key k m

  unfoldable pub len : HashMap V → ℕ
  unfolding contains_key
  len [] = 0
  len ((k, _) ∷ m) = if contains_key k m then len m else suc (len m)

-- The pair was inserted at some time.
abbrev pub Inserted : {V : Type 0} → Bytes → V → HashMap V → Type 0
Inserted k v [] = ⊥
Inserted k v ((j, w) ∷ m) = ((k ≡ j) × (v ≡ w)) ⊎ Inserted k v m

-- With one value for each key among the insertions, `get` finds an inserted pair.
pub get-Inserted :
    {V : Type 0} (k : Bytes) (v : V) (m : HashMap V)
    → ((w : V) → Inserted k w m → v ≡ w)
    → Inserted k v m
    → get k m ≡ some v
unfolding get
get-Inserted k v [] one h = absurd h
get-Inserted k v ((j, w) ∷ m) one h = elim (Bool-cases (same_bytes j k)) [
  | inl same ↦ rw same (ap some (sym (one w (inl (sym (same_bytes→eq j k same), refl)))))
  | inr other ↦ rw other (get-Inserted k v m (λ u p. one u (inr p)) (older other h))
]
  where
    older : same_bytes j k ≡ false → Inserted k v ((j, w) ∷ m) → Inserted k v m
    older other (inl (e, _)) = absurd (false≢true (sym other ∙ rw e (same_bytes_refl j)))
    older other (inr p) = p
