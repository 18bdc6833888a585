-- ===== src/Cache/Raw/Recent.antt =====
-- common/src/chunk_cache.rs: the order of use of `RawChunkCache`.
use factory_cacher.Base.{
  false, inl, inr, none, Bool-cases, ◌+◌, ◌^◌, ◌≤◌, ◌<◌, ◌≡◌, refl, ap, ◌∙◌, some, [], ◌∷◌, ◌++◌,
  length, ok, arith, append_assoc,
}
use factory_cacher.Base.HashMap
use factory_cacher.Base.HashMap.{HashMap}
use factory_cacher.Base.HashMap.Laws.{get-remove_self, get-remove-none}
use factory_cacher.Base.Words.{Bytes, same_bytes, same_bytes_refl}
use factory_cacher.Extern.LinkedMap.{LinkedMap, move_back, touched}
use factory_cacher.Cache.Raw.{RawCache, insert, get}
use factory_cacher.Cache.Raw.Eviction.{entries_of, IsValid, insert-fit, get_lem}
use factory_cacher.Cache.Raw.Sizes.{fit, get-fit_last}

remove-snoc :
    (k' k v : Bytes) (m : HashMap Bytes)
    → same_bytes k k' ≡ false
    → HashMap.remove k' (m ++ (k, v) ∷ []) ≡ HashMap.remove k' m ++ (k, v) ∷ []
unfolding HashMap.remove
remove-snoc k' k v [] other = rw other refl
remove-snoc k' k v ((j, w) ∷ m) other = elim (Bool-cases (same_bytes j k')) [
  | inl same ↦ rw same (remove-snoc k' k v m other)
  | inr ne ↦ rw ne (ap (◌∷◌ (j, w)) (remove-snoc k' k v m other))
]

here : (k v : Bytes) (m : HashMap Bytes) → HashMap.get k ((k, v) ∷ m) ≡ some v
unfolding HashMap.get
here k v m = rw (same_bytes_refl k) refl

-- A chunk that is in a valid cache and was just looked up survives the next insertion, of another
-- key, whenever the two chunks fit into the cache together and the sum of the limit and the new
-- chunk's size does not overflow a u64: others are evicted first.
pub insert-get :
    (linked : LinkedMap) (cache : RawCache linked) (k v k' v' : Bytes)
    → IsValid linked cache
    → HashMap.get k (entries_of linked cache) ≡ some v
    → same_bytes k k' ≡ false
    → length v + length v' ≤ cache.max_size
    → cache.max_size + length v' < 2 ^ 64
    → ((get linked cache k).0 ≡ some v)
      × (cache' : RawCache linked) × (insert linked (get linked cache k).1 k' v' ≡ ok cache')
      × (HashMap.get k (entries_of linked cache') ≡ some v)
insert-get linked cache k v k' v' valid there other small room =
    let (found, order, valid1, limit) = get_lem linked cache k valid in
    let (cache', run, fits, _, _) =
      insert-fit linked (get linked cache k).1 k' v' valid1 (rw limit room) in
    let front = HashMap.remove k' (HashMap.remove k (entries_of linked cache)) in
    let last : HashMap Bytes = (k, v) ∷ (k', v') ∷ [] in
    let ordered : move_back k' v' (entries_of linked (get linked cache k).1) ≡ front ++ last =
      ap (move_back k' v') (order ∙ ap (λ o. touched k o (entries_of linked cache)) there)
      ∙ ap (λ (m : HashMap Bytes). m ++ (k', v') ∷ [])
          (remove-snoc k' k v (HashMap.remove k (entries_of linked cache)) other)
      ∙ append_assoc front ((k, v) ∷ []) ((k', v') ∷ []) in
    let absent : HashMap.get k front ≡ none =
      get-remove-none k k' (HashMap.remove k (entries_of linked cache))
        (get-remove_self k (entries_of linked cache)) in
    (
      found ∙ there,
      cache',
      run,
      ap (HashMap.get k) (fits ∙ ap (fit (get linked cache k).1.max_size) ordered)
          ∙ get-fit_last (get linked cache k).1.max_size k front last absent
              (rw limit (omega (arith, small)))
          ∙ here k v ((k', v') ∷ []),
    )
