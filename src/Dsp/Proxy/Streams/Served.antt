-- ===== src/Dsp/Proxy/Streams/Served.antt =====
-- dsp-nebula-cacher/src/proxy/server_proxy.rs: no stream of a packet is refused.
use factory_cacher.Base.{
  ℕ, ◌+◌, ◌<◌, ◌≤◌, ◌≡◌, refl, sym, subst, ◌∙◌, true, List, [], ◌∷◌, ok, ok-injective, arith, ◌==◌,
  if◌then◌else◌,
}
use factory_cacher.Base.SortedSet
use factory_cacher.Base.SortedSet.Laws.{count, count-cons, count-insert, count-remove_found}
use factory_cacher.Dsp.Proxy.Server.{Shared, first_shared, register_stream, accept_dedup_stream}
use factory_cacher.Dsp.Proxy.Streams.{
  System, first_system, Step, registers, announces, opens, accepts, elsewhere, fails, goes_unopened,
  is_lost, Steps, done, then_step,
}

-- An id of a task that has not failed is in one place, and is waited for. An id that is waited for is
-- below the next one, and is there once.
pub record Inv (s : System) : Type 0 where
  pub places :
      (id : ℕ)
      → count id s.registered + (count id s.announced + count id s.opened)
        ≤ count id s.shared.pending_dedup_streams
  pub below :
      (id : ℕ) → s.shared.next_dedup_stream_id ≤ id → count id s.shared.pending_dedup_streams ≡ 0

pub first_system-Inv : Inv first_system
unfolding first_shared count
first_system-Inv = record { places = λ id. omega arith; below = λ id h. refl }

found : (id : ℕ) (xs : List ℕ) → 0 < count id xs → (SortedSet.remove id xs).0 ≡ true
unfolding count SortedSet.remove
found id [] h = absurd (omega arith)
found id (x ∷ xs) h = ground (arith, found id xs)

accepted :
    (id : ℕ) (shared : Shared)
    → 0 < count id shared.pending_dedup_streams
    → accept_dedup_stream id shared
      ≡ ok (record shared {
        pending_dedup_streams = (SortedSet.remove id shared.pending_dedup_streams).1;
      })
unfolding accept_dedup_stream
accepted id shared h = rw (found id shared.pending_dedup_streams h) refl

abbrev indicator : ℕ → ℕ → ℕ
indicator z x = if z == x then 1 else 0

indicator_self : (id : ℕ) → indicator id id ≡ 1
indicator_self id = ground arith

present : (id : ℕ) (xs : List ℕ) → (SortedSet.remove id xs).0 ≡ true → 0 < count id xs
present id xs h = omega (arith, count-remove_found id id xs h, indicator_self id)

-- Every step keeps the invariant.
Step-Inv : {s t : System} → Step s t → Inv s → Inv t
unfolding register_stream
Step-Inv {s} (registers fits) inv =
    let id : ℕ = s.shared.next_dedup_stream_id in
    let pending : List ℕ = s.shared.pending_dedup_streams in
    let fresh : count id pending ≡ 0 = inv.below id (omega arith) in
    record {
      places = λ z.
          omega
            (arith, inv.places z, count-cons z id s.registered, count-insert id z pending fresh);
      below = λ z h. ground (arith, inv.below z, count-insert id z pending fresh);
    }
Step-Inv {s} (announces id there) inv = record {
  places = λ z. omega (
    arith,
    inv.places z,
    count-cons z id s.announced,
    count-remove_found id z s.registered there,
  );
  below = inv.below;
}
Step-Inv {s} (opens id there) inv = record {
  places = λ z.
      omega
        (arith, inv.places z, count-cons z id s.opened, count-remove_found id z s.announced there);
  below = inv.below;
}
Step-Inv {s} (elsewhere fits) inv = record {
  places = inv.places;
  below = λ z h. inv.below z (omega arith);
}
Step-Inv {s} (fails id there) inv = record {
  places = λ z. omega (arith, inv.places z, count-remove_found id z s.registered there);
  below = inv.below;
}
Step-Inv {s} (goes_unopened id there) inv = record {
  places = λ z. omega (arith, inv.places z, count-remove_found id z s.announced there);
  below = inv.below;
}
Step-Inv {s} (is_lost id there) inv = record {
  places = λ z. omega (arith, inv.places z, count-remove_found id z s.opened there);
  below = inv.below;
}
Step-Inv {s} (accepts id {shared} there run) inv =
    let pending : List ℕ = s.shared.pending_dedup_streams in
    let waited : 0 < count id pending = omega (arith, inv.places id, present id s.opened there) in
    let after = ok-injective (sym (accepted id s.shared waited) ∙ run) in
    subst
      (λ (sh : Shared). Inv (record s { shared = sh; opened = (SortedSet.remove id s.opened).1 }))
      after
      (record {
        places = λ z. omega (
          arith,
          inv.places z,
          count-remove_found id z s.opened there,
          count-remove_found id z pending (found id pending waited),
        );
        below = λ z h.
            omega (arith, inv.below z h, count-remove_found id z pending (found id pending waited));
      })

pub Steps-Inv : {s : System} → Steps first_system s → Inv s
Steps-Inv done = first_system-Inv
Steps-Inv (then_step run st) = Step-Inv st (Steps-Inv run)

-- In any order of the tasks' steps, those that fail included, with clients that open one stream for
-- each indicator: the loop
-- of `run_server_proxy` never refuses a stream that a client has opened.
pub accept_dedup_stream-opened :
    (s : System) (id : ℕ)
    → Steps first_system s
    → (SortedSet.remove id s.opened).0 ≡ true
    → (shared : Shared) × (accept_dedup_stream id s.shared ≡ ok shared)
accept_dedup_stream-opened s id run there =
    (_, accepted id s.shared (omega (arith, (Steps-Inv run).places id, present id s.opened there)))
