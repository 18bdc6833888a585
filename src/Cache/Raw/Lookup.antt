-- ===== src/Cache/Raw/Lookup.antt =====
-- common/src/chunk_cache.rs: `RawChunkCache::get`.
use mathlib.Core.Bool.{false≢true}
use factory_cacher.Base.{
  ◌≡◌, refl, sym, ◌∙◌, subst, inl, inr, some, [], ◌∷◌, Bool-cases, Option-cases,
}
use factory_cacher.Base.HashMap
use factory_cacher.Base.HashMap.{HashMap}
use factory_cacher.Base.HashMap.Laws.{
  get-remove_self, get-remove_ne, get-append_none, get-append_some,
}
use factory_cacher.Base.Words.{Bytes, same_bytes, same_bytes_refl, same_bytes→eq}
use factory_cacher.Extern.LinkedMap.{LinkedMap, move_back}
use factory_cacher.Cache.Raw.{RawCache, get}
use factory_cacher.Cache.Raw.Eviction.{entries_of}

get-move_back :
    (j k v : Bytes) (m : HashMap Bytes)
    → HashMap.get k m ≡ some v
    → HashMap.get j (move_back k v m) ≡ HashMap.get j m
unfolding HashMap.get
get-move_back j k v m present = elim (Bool-cases (same_bytes k j)) [
  | inl same ↦
      subst (λ (i : Bytes). HashMap.get i (move_back k v m) ≡ HashMap.get i m)
        (same_bytes→eq k j same)
        (get-append_none k (HashMap.remove k m) ((k, v) ∷ []) (get-remove_self k m)
          ∙ rw (same_bytes_refl k) (sym present))
  | inr other ↦
      let kept = get-remove_ne j k m (λ e. false≢true (sym other ∙ rw e (same_bytes_refl k))) in
      elim (Option-cases (HashMap.get j m)) [
        | inl absent ↦
            get-append_none j (HashMap.remove k m) ((k, v) ∷ []) (kept ∙ absent)
            ∙ rw other (sym absent)
        | inr (w, there) ↦
            get-append_some j (HashMap.remove k m) ((k, v) ∷ []) w (kept ∙ there) ∙ sym there
      ]
]

module _ (linked : LinkedMap) where
  -- Each key has the chunk that it had.
  abbrev pub SameChunks : RawCache linked → RawCache linked → Type 0
  SameChunks c c' =
      (j : Bytes) → HashMap.get j (entries_of linked c') ≡ HashMap.get j (entries_of linked c)

  pub get-SameChunks : (c : RawCache linked) (k : Bytes) → SameChunks c (get linked c k).1
  unfolding get
  get-SameChunks c k j = elim (Option-cases (HashMap.get k (entries_of linked c))) [
    | inl absent ↦ rw (linked.entries-to_back, absent) refl
    | inr (v, present) ↦
        rw (linked.entries-to_back, present) (get-move_back j k v (entries_of linked c) present)
  ]

  pub get-found :
      (c : RawCache linked) (k : Bytes) → (get linked c k).0 ≡ HashMap.get k (entries_of linked c)
  unfolding get
  get-found c k = linked.to_back-get c.chunks k
