-- ===== src/Cache/Raw/Sizes.antt =====
-- common/src/chunk_cache.rs: the size of the chunks of a cache, and those of them that fit.
use factory_cacher.Base.{
  ℕ, ◌+◌, ◌≤◌, ◌<◌, ◌≡◌, refl, ap, none, some, [], ◌∷◌, ◌++◌, ltb, if◌then◌else◌, length, arith,
  Bool-cases, inl, inr, Option-cases, lt→ltb, subst,
}
use factory_cacher.Base.HashMap
use factory_cacher.Base.HashMap.{HashMap}
use factory_cacher.Base.HashMap.Laws.{
  Distinct, Distinct-remove, Distinct-push, get-remove_self, remove_absent, get-append_none,
}
use factory_cacher.Base.Words.{Bytes, same_bytes, same_bytes→eq}
use factory_cacher.Extern.LinkedMap.{move_back}

-- The size of all chunks together.
abbrev pub sizes : HashMap Bytes → ℕ
sizes [] = 0
sizes ((_, chunk) ∷ entries) = length chunk + sizes entries

-- The entries that fit: the front ones are given up until the rest is small enough.
unfoldable pub fit : ℕ → HashMap Bytes → HashMap Bytes
fit max_size [] = []
fit max_size (entry ∷ entries) =
    if ltb max_size (sizes (entry ∷ entries)) then fit max_size entries else entry ∷ entries

pub sizes-append : (m n : HashMap Bytes) → sizes (m ++ n) ≡ sizes m + sizes n
sizes-append [] n = omega arith
sizes-append ((k, v) ∷ m) n = omega (arith, sizes-append m n)

pub sizes-remove :
    (k : Bytes) (m : HashMap Bytes) (v : Bytes)
    → Distinct m
    → HashMap.get k m ≡ some v
    → sizes (HashMap.remove k m) + length v ≡ sizes m
unfolding HashMap.get HashMap.remove
sizes-remove k [] v d h = cc
sizes-remove k ((j, w) ∷ m) v d h = elim (Bool-cases (same_bytes j k)) [
  | inl same ↦
      let absent = subst (λ (t : Bytes). HashMap.get t m ≡ none) (same_bytes→eq j k same) d.0 in
      let value : w ≡ v = ground arith in
      rw (same, remove_absent k m absent) (omega (arith, ap length value))
  | inr other ↦ rw other (omega (arith, sizes-remove k m v d.1 (ground arith)))
]

pub sizes-fit : (max_size : ℕ) (m : HashMap Bytes) → sizes (fit max_size m) ≤ max_size
unfolding fit
sizes-fit max_size [] = omega arith
sizes-fit max_size (e ∷ m) = ground (arith, sizes-fit max_size m)

-- Nothing is given up when all fits.
pub fit-small : (max_size : ℕ) (m : HashMap Bytes) → sizes m ≤ max_size → fit max_size m ≡ m
unfolding fit
fit-small max_size [] h = refl
fit-small max_size (e ∷ m) h = ground arith

-- Nothing fits with a last chunk that alone is too large.
pub fit-too_large :
    (max_size : ℕ) (m : HashMap Bytes) (k v : Bytes)
    → max_size < length v
    → fit max_size (m ++ (k, v) ∷ []) ≡ []
unfolding fit
fit-too_large max_size [] k v large = rw (lt→ltb max_size (length v + 0) (omega arith))
fit-too_large max_size (e ∷ m) k v large =
    rw
      (lt→ltb max_size (length e.1 + sizes (m ++ (k, v) ∷ []))
        (omega (arith, sizes-append m ((k, v) ∷ []))))
      (fit-too_large max_size m k v large)

pub Distinct-fit : (max_size : ℕ) (m : HashMap Bytes) → Distinct m → Distinct (fit max_size m)
unfolding fit
Distinct-fit max_size [] d = tt
Distinct-fit max_size (e ∷ m) d = ground (arith, Distinct-fit max_size m d.1)

pub Distinct-move_back : (k v : Bytes) (m : HashMap Bytes) → Distinct m → Distinct (move_back k v m)
Distinct-move_back k v m d =
    Distinct-push k v (HashMap.remove k m) (get-remove_self k m) (Distinct-remove k m d)

pub sizes-move_back_le :
    (k v : Bytes) (m : HashMap Bytes) → Distinct m → sizes (move_back k v m) ≤ sizes m + length v
sizes-move_back_le k v m d = elim (Option-cases (HashMap.get k m)) [
  | inl absent ↦ rw (remove_absent k m absent) (omega (arith, sizes-append m ((k, v) ∷ [])))
  | inr (old, present) ↦
      omega (arith, sizes-remove k m old d present, sizes-append (HashMap.remove k m) ((k, v) ∷ []))
]

pub sizes-move_back_same :
    (k v : Bytes) (m : HashMap Bytes)
    → Distinct m
    → HashMap.get k m ≡ some v
    → sizes (move_back k v m) ≡ sizes m
sizes-move_back_same k v m d present =
    omega (arith, sizes-remove k m v d present, sizes-append (HashMap.remove k m) ((k, v) ∷ []))

-- What is last and small enough is not given up, and is found behind entries with other keys.
pub get-fit_last :
    (max_size : ℕ) (k : Bytes) (front last : HashMap Bytes)
    → HashMap.get k front ≡ none
    → sizes last ≤ max_size
    → HashMap.get k (fit max_size (front ++ last)) ≡ HashMap.get k last
unfolding fit HashMap.get
get-fit_last max_size k [] last absent small = rw (fit-small max_size last small) refl
get-fit_last max_size k ((j, w) ∷ front) last absent small =
    elim (Bool-cases (ltb max_size (length w + sizes (front ++ last)))) [
      | inl large ↦ rw large (get-fit_last max_size k front last (ground arith) small)
      | inr fits ↦ rw fits (get-append_none k ((j, w) ∷ front) last absent)
    ]
