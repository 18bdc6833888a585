-- ===== src/Extern/LinkedMap.antt =====
-- `hashlink::LinkedHashMap` with chunk keys, which the repository only calls: a map that keeps its
-- entries in an order. The laws state the documentation through `entries`, the order of iteration.
use factory_cacher.Base.{ℕ, ◌≡◌, refl, [], ◌∷◌, ◌++◌, Option, none, some, length}
use factory_cacher.Base.HashMap
use factory_cacher.Base.HashMap.{HashMap}
use factory_cacher.Base.Words.{Bytes}

-- `insert` and `to_back` put the key's entry at the back.
abbrev pub move_back : Bytes → Bytes → HashMap Bytes → HashMap Bytes
move_back key value entries = HashMap.remove key entries ++ (key, value) ∷ []

-- What `to_back` leaves: the order changes if the key is there.
abbrev pub touched : Bytes → Option Bytes → HashMap Bytes → HashMap Bytes
touched key none entries = entries
touched key (some value) entries = move_back key value entries

-- What `pop_front` gives: the front entry.
abbrev pub Pops :
    {M : Type 0} → (M → HashMap Bytes) → HashMap Bytes → Option ((Bytes × Bytes) × M) → Type 0
Pops entries [] result = result ≡ none
Pops {M} entries (e ∷ rest) result = (m : M) × (result ≡ some (e, m)) × (entries m ≡ rest)

pub record LinkedMap : Type 1 where
  pub M : Type 0
  pub entries : M → HashMap Bytes
  pub new : M
  pub insert : M → Bytes → Bytes → M × Option Bytes
  pub pop_front : M → Option ((Bytes × Bytes) × M)
  pub to_back : M → Bytes → Option Bytes × M
  pub len : M → ℕ
  pub entries-new : entries new ≡ []
  pub entries-insert : (m : M) (k v : Bytes) → entries (insert m k v).0 ≡ move_back k v (entries m)
  pub insert-old : (m : M) (k v : Bytes) → (insert m k v).1 ≡ HashMap.get k (entries m)
  pub pop_front-Pops : (m : M) → Pops entries (entries m) (pop_front m)
  pub to_back-get : (m : M) (k : Bytes) → (to_back m k).0 ≡ HashMap.get k (entries m)
  pub entries-to_back :
      (m : M) (k : Bytes)
      → entries (to_back m k).1 ≡ touched k (HashMap.get k (entries m)) (entries m)
  pub len-entries : (m : M) → len m ≡ length (entries m)

abbrev pub list_pop : HashMap Bytes → Option ((Bytes × Bytes) × HashMap Bytes)
list_pop [] = none
list_pop (e ∷ rest) = some (e, rest)

pub list_pop-Pops : (m : HashMap Bytes) → Pops (λ (l : HashMap Bytes). l) m (list_pop m)
list_pop-Pops [] = refl
list_pop-Pops (e ∷ rest) = (rest, refl, refl)

-- The laws can be met: the map is the list of its entries.
abbrev pub list_map : LinkedMap
list_map = record {
  M = HashMap Bytes;
  entries = λ m. m;
  new = [];
  insert = λ m k v. (move_back k v m, HashMap.get k m);
  pop_front = list_pop;
  to_back = λ m k. (HashMap.get k m, touched k (HashMap.get k m) m);
  len = length;
  entries-new = refl;
  entries-insert = λ m k v. refl;
  insert-old = λ m k v. refl;
  pop_front-Pops = list_pop-Pops;
  to_back-get = λ m k. refl;
  entries-to_back = λ m k. refl;
  len-entries = λ m. refl;
}
