-- ===== src/Base/HashMap/Laws.antt =====
-- Laws of insertion histories with one entry for each key: `get`, `remove` and appending.
use mathlib.Core.Bool.{false, false≢true}
use mathlib.Core.List.{[], ◌∷◌, ◌++◌}
use mathlib.Core.Logic.{◌≢◌, inl, inr}
use mathlib.Core.Option.{Option, none, some}
use mathlib.Core.Path.{◌≡◌, refl, sym, ap, ◌∙◌}
use native.Mathlib.Omega.{arith}
use factory_cacher.Base.Tests.{if◌then◌else◌, Bool-cases}
use factory_cacher.Base.Words.{Bytes, same_bytes, same_bytes_refl, same_bytes→eq, same_bytes-ne}
use factory_cacher.Base.HashMap.{HashMap, get, remove}

pub same_bytes-sym : (a b : Bytes) → same_bytes a b ≡ false → same_bytes b a ≡ false
same_bytes-sym a b h = same_bytes-ne b a (λ e. false≢true (sym h ∙ rw e (same_bytes_refl a)))

-- Each key has one entry.
abbrev pub Distinct {ℓ} : {V : Type ℓ} → HashMap V → Type ℓ
Distinct [] = Unit
Distinct ((k, _) ∷ m) = (get k m ≡ none) × Distinct m

module _ {ℓ} {V : Type ℓ} where
  pub get-remove_self : (k : Bytes) (m : HashMap V) → get k (remove k m) ≡ none
  unfolding get remove
  get-remove_self k [] = refl
  get-remove_self k ((j, v) ∷ m) = elim (Bool-cases (same_bytes j k)) [
    | inl same ↦ rw same (get-remove_self k m)
    | inr other ↦ rw (other, get, other) (get-remove_self k m)
  ]

  pub get-remove_ne : (j k : Bytes) (m : HashMap V) → j ≢ k → get j (remove k m) ≡ get j m
  unfolding get remove
  get-remove_ne j k [] ne = refl
  get-remove_ne j k ((i, v) ∷ m) ne = elim (Bool-cases (same_bytes i k)) [
    | inl same ↦
        rw (same, same_bytes-ne i j (λ e. ne (sym e ∙ same_bytes→eq i k same)))
          (get-remove_ne j k m ne)
    | inr other ↦
        rw other
          (ap (λ (o : Option V). if same_bytes i j then some v else o) (get-remove_ne j k m ne))
  ]

  -- Keys with no entry stay so.
  pub get-remove-none : (j k : Bytes) (m : HashMap V) → get j m ≡ none → get j (remove k m) ≡ none
  unfolding get remove
  get-remove-none j k [] h = refl
  get-remove-none j k ((i, v) ∷ m) h = ground (arith, get-remove-none j k m)

  pub remove_absent : (k : Bytes) (m : HashMap V) → get k m ≡ none → remove k m ≡ m
  unfolding get remove
  remove_absent k [] h = refl
  remove_absent k ((j, v) ∷ m) h = ground (arith, remove_absent k m)

  pub Distinct-remove : (k : Bytes) (m : HashMap V) → Distinct m → Distinct (remove k m)
  unfolding remove
  Distinct-remove k [] d = tt
  Distinct-remove k ((j, v) ∷ m) d = elim (Bool-cases (same_bytes j k)) [
    | inl same ↦ rw same (Distinct-remove k m d.1)
    | inr other ↦ rw other (get-remove-none j k m d.0, Distinct-remove k m d.1)
  ]

  pub get-append_none : (j : Bytes) (m n : HashMap V) → get j m ≡ none → get j (m ++ n) ≡ get j n
  unfolding get
  get-append_none j [] n h = refl
  get-append_none j ((i, v) ∷ m) n h = ground (arith, get-append_none j m n)

  pub get-append_some :
      (j : Bytes) (m n : HashMap V) (v : V) → get j m ≡ some v → get j (m ++ n) ≡ some v
  unfolding get
  get-append_some j [] n v h = cc
  get-append_some j ((i, w) ∷ m) n v h = ground (arith, get-append_some j m n v)

  get-singleton_ne : (j k : Bytes) (v : V) → same_bytes k j ≡ false → get j ((k, v) ∷ []) ≡ none
  unfolding get
  get-singleton_ne j k v h = rw h

  -- A new entry at the back.
  pub Distinct-push :
      (k : Bytes) (v : V) (m : HashMap V)
      → get k m ≡ none
      → Distinct m
      → Distinct (m ++ (k, v) ∷ [])
  unfolding get
  Distinct-push k v [] absent d = (refl, tt)
  Distinct-push k v ((j, w) ∷ m) absent d = elim (Bool-cases (same_bytes j k)) [
    | inl same ↦ absurd (ground (arith))
    | inr other ↦ (
      get-append_none j m ((k, v) ∷ []) d.0
          ∙ get-singleton_ne j k v (ground (arith, same_bytes-sym j k)),
      Distinct-push k v m (ground arith) d.1,
    )
  ]
