-- ===== src/Cache/Raw/Eviction.antt =====
-- common/src/chunk_cache.rs: which chunks an insertion into `RawChunkCache` evicts.
use factory_cacher.Base.{
  ℕ, zero, suc, ◌+◌, ◌^◌, ◌≤◌, ◌<◌, ◌≡◌, refl, ap, ◌∙◌, some, [], ◌∷◌, ltb, length, Outcome, ok,
  arith, Bool-cases, inl, inr, Option-cases, subst, true, false,
}
use factory_cacher.Base.HashMap
use factory_cacher.Base.HashMap.{HashMap}
use factory_cacher.Base.HashMap.Laws.{Distinct, remove_absent}
use factory_cacher.Base.Words.{Bytes}
use factory_cacher.Extern.LinkedMap.{LinkedMap, move_back, touched, Pops}
use factory_cacher.Cache.Raw.{RawCache, evict, insert, get, new, add_u64, sub_u64, without_old}
use factory_cacher.Cache.Raw.Sizes.{
  sizes, fit, sizes-append, sizes-remove, sizes-fit, Distinct-fit, Distinct-move_back,
  sizes-move_back_le, sizes-move_back_same,
}

module _ (linked : LinkedMap) where
  abbrev pub entries_of : RawCache linked → HashMap Bytes
  entries_of cache = linked.entries cache.chunks

  -- The counter is the size of all chunks, within the limit, and no key has two chunks.
  pub record IsValid (cache : RawCache linked) : Type 0 where
    pub counted : cache.total_size ≡ sizes (entries_of cache)
    pub bounded : cache.total_size ≤ cache.max_size
    pub distinct : Distinct (entries_of cache)

  evict_stop :
      (fuel : ℕ) (cache : RawCache linked)
      → ltb cache.max_size cache.total_size ≡ false
      → evict linked (suc fuel) cache ≡ ok cache
  unfolding evict
  evict_stop fuel cache h = rw (h, evict)

  evict_pop :
      (fuel : ℕ) (cache : RawCache linked) (k v : Bytes) (rest : linked.M)
      → ltb cache.max_size cache.total_size ≡ true
      → linked.pop_front cache.chunks ≡ some ((k, v), rest)
      → evict linked (suc fuel) cache
        ≡ evict linked fuel
            (record cache { chunks = rest; total_size = sub_u64 cache.total_size (length v) })
  unfolding evict
  evict_pop fuel cache k v rest h popped = rw (h, popped, evict)

  pub entries-new : (max_size : ℕ) → entries_of (new linked max_size) ≡ []
  unfolding new
  entries-new max_size = linked.entries-new

  pub new-max_size : (max_size : ℕ) → (new linked max_size).max_size ≡ max_size
  unfolding new
  new-max_size max_size = refl

  pub new-IsValid : (max_size : ℕ) → IsValid (new linked max_size)
  unfolding new
  new-IsValid max_size = record {
    counted = rw linked.entries-new refl;
    bounded = omega arith;
    distinct = rw linked.entries-new tt;
  }

  -- What a run of `evict` over the entries `es` leaves.
  abbrev Fits : RawCache linked → HashMap Bytes → Outcome (RawCache linked) → Type 0
  Fits cache es run =
      (cache' : RawCache linked) × (run ≡ ok cache')
      × (entries_of cache' ≡ fit cache.max_size es)
      × (cache'.total_size ≡ sizes (fit cache.max_size es))
      × (cache'.max_size ≡ cache.max_size)

  evict-Fits :
      (es : HashMap Bytes) (fuel : ℕ) (cache : RawCache linked)
      → entries_of cache ≡ es
      → length es < fuel
      → cache.total_size ≡ sizes es
      → sizes es < 2 ^ 64
      → Fits cache es (evict linked fuel cache)
  unfolding fit
  evict-Fits es zero cache e enough count small = absurd (omega arith)
  evict-Fits [] (suc fuel) cache e enough count small =
      (cache, evict_stop fuel cache (ground arith), e, count, refl)
  evict-Fits ((k, v) ∷ es) (suc fuel) cache e enough count small =
      elim (Bool-cases (ltb cache.max_size cache.total_size)) [
        | inl large ↦
            let (m, popped, rest) =
              subst (λ (l : HashMap Bytes). Pops linked.entries l (linked.pop_front cache.chunks)) e
                (linked.pop_front-Pops cache.chunks) in
            rw (evict_pop fuel cache k v m large popped, ← count, large)
              (evict-Fits es fuel
                (record cache { chunks = m; total_size = sub_u64 cache.total_size (length v) }) rest
                (omega arith) (omega arith) (omega arith))
        | inr small_enough ↦
            rw (← count, small_enough) (cache, evict_stop fuel cache small_enough, e, count, refl)
      ]

  -- The total that `insert` computes, before it evicts.
  insert_total :
      (cache : RawCache linked) (k v : Bytes)
      → IsValid cache
      → cache.max_size + length v < 2 ^ 64
      → without_old (add_u64 cache.total_size (length v)) (HashMap.get k (entries_of cache))
        ≡ sizes (move_back k v (entries_of cache))
  insert_total cache k v valid room = elim (Option-cases (HashMap.get k (entries_of cache))) [
    | inl absent ↦
        rw (absent, remove_absent k (entries_of cache) absent)
          (omega
            (arith, valid.counted, valid.bounded, sizes-append (entries_of cache) ((k, v) ∷ [])))
    | inr (old, present) ↦ rw present (
        omega (
          arith,
          valid.counted,
          valid.bounded,
          sizes-remove k (entries_of cache) old valid.distinct present,
          sizes-append (HashMap.remove k (entries_of cache)) ((k, v) ∷ []),
        ))
  ]

  -- An insertion into a valid cache, when the sum of the limit and the chunk's size does not overflow
  -- a u64, does not panic and keeps the cache valid. The chunk becomes the most recently used one,
  -- and of all chunks in the order of use just so many old ones are given up that the rest fits.
  pub insert-fit :
      (cache : RawCache linked) (k v : Bytes)
      → IsValid cache
      → cache.max_size + length v < 2 ^ 64
      → (cache' : RawCache linked) × (insert linked cache k v ≡ ok cache')
        × (entries_of cache' ≡ fit cache.max_size (move_back k v (entries_of cache)))
        × (cache'.max_size ≡ cache.max_size)
        × IsValid cache'
  unfolding insert
  insert-fit cache k v valid room =
      let inserted = linked.insert cache.chunks k v in
      let es = move_back k v (entries_of cache) in
      let total = insert_total cache k v valid room in
      let e = linked.entries-insert cache.chunks k v in
      let small : sizes es < 2 ^ 64 = omega (
        arith,
        valid.counted,
        valid.bounded,
        sizes-move_back_le k v (entries_of cache) valid.distinct,
      ) in
      let (cache', run, fits, counted, limit) =
        evict-Fits es (suc (linked.len inserted.0))
          (record cache {
            chunks = inserted.0;
            total_size = without_old (add_u64 cache.total_size (length v)) inserted.1;
          })
          e (omega (arith, linked.len-entries inserted.0, ap length e))
          (rw (linked.insert-old cache.chunks k v) total) small in
      (
        cache',
        run,
        fits,
        limit,
        record {
          counted = rw (counted, fits) refl;
          bounded = rw (counted, limit) (sizes-fit cache.max_size es);
          distinct = rw fits (
              Distinct-fit cache.max_size es
                (Distinct-move_back k v (entries_of cache) valid.distinct));
        },
      )

  -- The order of use, and nothing else, changes with a lookup.
  get-IsValid :
      (cache : RawCache linked) (k : Bytes) → IsValid cache → IsValid (get linked cache k).1
  unfolding get
  get-IsValid cache k valid = elim (Option-cases (HashMap.get k (entries_of cache))) [
    | inl absent ↦
        let e : linked.entries (linked.to_back cache.chunks k).1 ≡ entries_of cache =
          linked.entries-to_back cache.chunks k ∙ rw absent refl in
        record {
          counted = rw e valid.counted;
          bounded = valid.bounded;
          distinct = rw e valid.distinct;
        }
    | inr (v, present) ↦
        let e : linked.entries (linked.to_back cache.chunks k).1
            ≡ move_back k v (entries_of cache) =
          linked.entries-to_back cache.chunks k ∙ rw present refl in
        record {
          counted =
              rw (e, sizes-move_back_same k v (entries_of cache) valid.distinct present)
                valid.counted;
          bounded = valid.bounded;
          distinct = rw e (Distinct-move_back k v (entries_of cache) valid.distinct);
        }
  ]

  -- A lookup in a valid cache gives the chunk that the cache has for the key, if any, which becomes
  -- the most recently used one, and keeps the cache valid.
  pub get_lem :
      (cache : RawCache linked) (k : Bytes)
      → IsValid cache
      → ((get linked cache k).0 ≡ HashMap.get k (entries_of cache))
        × (entries_of (get linked cache k).1
            ≡ touched k (HashMap.get k (entries_of cache)) (entries_of cache))
        × IsValid (get linked cache k).1
        × ((get linked cache k).1.max_size ≡ cache.max_size)
  unfolding get
  get_lem cache k valid = (
    linked.to_back-get cache.chunks k,
    linked.entries-to_back cache.chunks k,
    get-IsValid cache k valid,
    refl,
  )
