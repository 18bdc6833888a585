-- ===== src/Chunker/Stability.antt =====
-- common/src/chunker.rs: the chunks of data that is continued.
use native.Mathlib.Decide.{dec_lt}
use factory_cacher.Base.{
  length-append, ℕ, zero, suc, ◌+◌, ◌≤◌, ◌<◌, ◌≡◌, refl, sym, ap, ap₂, ◌∙◌, List, [], ◌∷◌, ◌++◌,
  arith, length, drop, concat, length-drop, append-nil, take-append_front, drop-append_front,
}
use factory_cacher.Base.Words.{Bytes}
use factory_cacher.Chunker.RollingHash.{RabinKarpHash, IsHash, update, new_hash, new_hash-IsHash}
use factory_cacher.Chunker.Partition.{
  chunk_of, after, start_of, end_of, next-Takes, end_of_bounds, collect_empty, collect_step,
  chunks-partition,
}
use factory_cacher.Chunker.{Chunker, min_chunk_size, scan, new, collect, chunks}

collect_fuel :
    (f g : ℕ) (c : Chunker)
    → IsHash c.rolling_hash
    → length c.bytes ≤ f
    → length c.bytes ≤ g
    → collect f c ≡ collect g c
collect_fuel zero g c v p q =
    collect_empty 0 c (omega arith) ∙ sym (collect_empty g c (omega arith))
collect_fuel (suc f) zero c v p q =
    collect_empty (suc f) c (omega arith) ∙ sym (collect_empty 0 c (omega arith))
collect_fuel (suc f) (suc g) c v p q = elim (dec_lt 0 (length c.bytes)) [
  | no done ↦ collect_empty (suc f) c (omega arith) ∙ sym (collect_empty (suc g) c (omega arith))
  | yes more ↦
      let t = next-Takes c v more in
      collect_step f t
      ∙ ap (◌∷◌ (chunk_of c)) (
          collect_fuel f g (after c) (rw t.fresh new_hash-IsHash)
            (omega
              (arith, ap length t.splits, length-append (chunk_of c) (after c).bytes, t.some_bytes))
            (omega (
              arith,
              ap length t.splits,
              length-append (chunk_of c) (after c).bytes,
              t.some_bytes,
            )))
      ∙ sym (collect_step g t)
]

abbrev fresh_at : Bytes → Chunker
fresh_at bytes = record { rolling_hash = new_hash; bytes = bytes }

-- The first chunk of some data, and what is left.
abbrev first : Bytes → Bytes
first bytes = chunk_of (fresh_at bytes)

abbrev left : Bytes → Bytes
left bytes = (after (fresh_at bytes)).bytes

first-left : (bytes : Bytes) → 0 < length bytes → first bytes ++ left bytes ≡ bytes
first-left bytes h = (next-Takes (fresh_at bytes) new_hash-IsHash h).splits

chunks-cons : (bytes : Bytes) → 0 < length bytes → chunks bytes ≡ first bytes ∷ chunks (left bytes)
unfolding chunks new
chunks-cons bytes h =
    let c = fresh_at bytes in
    let t = next-Takes c new_hash-IsHash h in
    let shorter : length (left bytes) < length bytes =
      omega (arith, ap length t.splits, length-append (first bytes) (left bytes), t.some_bytes) in
    collect_fuel (length bytes) (suc (length bytes)) c new_hash-IsHash (omega arith) (omega arith)
    ∙ collect_step (length bytes) t
    ∙ ap (◌∷◌ (first bytes)) (
        collect_fuel (length bytes) (length (left bytes)) (after c) (rw t.fresh new_hash-IsHash)
          (omega (arith, shorter)) (omega arith))
    ∙ ap
        (λ (d : RabinKarpHash).
          first bytes
          ∷ collect (length (left bytes)) (record { rolling_hash = d; bytes = left bytes }))
        t.fresh

chunks-nil : chunks [] ≡ []
unfolding chunks collect
chunks-nil = refl

scan_stable :
    (h : RabinKarpHash) (size : ℕ) (bytes more : Bytes)
    → (scan h size bytes).1 < size + length bytes
    → scan h size (bytes ++ more) ≡ scan h size bytes
unfolding scan
scan_stable h size [] more p = absurd (omega arith)
scan_stable h size (b ∷ bs) more p = ground (arith, scan_stable (update h b).0 (size + 1) bs more)

-- A first chunk that is not all of the data stays when more follows.
first-append :
    (bytes more : Bytes)
    → 0 < length (left bytes)
    → (first (bytes ++ more) ≡ first bytes) × (left (bytes ++ more) ≡ left bytes ++ more)
first-append bytes more h = (take_end, drop_end)
  where
    c : Chunker
    c = fresh_at bytes

    pos : 0 < length bytes
    pos = omega (arith, length-drop (end_of c).1 bytes)

    short : (end_of c).1 < length bytes
    short = omega (arith, length-drop (end_of c).1 bytes)

    full : min_chunk_size ≤ (end_of c).1
    full = ground (arith, end_of_bounds c pos, short)

    start : start_of c ≡ min_chunk_size
    start = omega (arith, full, short)

    start_more : start_of (fresh_at (bytes ++ more)) ≡ min_chunk_size
    start_more = omega (arith, full, short, length-append bytes more)

    end_at_start : end_of c ≡ scan new_hash min_chunk_size (drop min_chunk_size bytes)
    end_at_start = rw start

    same : end_of (fresh_at (bytes ++ more)) ≡ end_of c
    same =
        rw
          (
            start_more,
            drop-append_front min_chunk_size bytes more (omega (arith, full, short)),
            end_at_start,
          )
          (scan_stable new_hash min_chunk_size (drop min_chunk_size bytes) more (
            omega (
              arith,
              short,
              full,
              ap (λ (p : RabinKarpHash × ℕ). p.1) end_at_start,
              length-drop min_chunk_size bytes,
            )))

    take_end : first (bytes ++ more) ≡ first bytes
    take_end = rw same (take-append_front (end_of c).1 bytes more (omega (arith, short)))

    drop_end : left (bytes ++ more) ≡ left bytes ++ more
    drop_end = rw same (drop-append_front (end_of c).1 bytes more (omega (arith, short)))

chunks-nonempty : (bytes c : Bytes) (cs : List Bytes) → chunks bytes ≡ c ∷ cs → 0 < length bytes
chunks-nonempty [] c cs e = absurd (cc (chunks-nil, e))
chunks-nonempty (b ∷ bs) c cs e = omega arith

chunks-nonempty_last :
    (bytes : Bytes) (fs : List Bytes) (last : Bytes)
    → chunks bytes ≡ fs ++ last ∷ []
    → 0 < length bytes
chunks-nonempty_last bytes [] last e = chunks-nonempty bytes last [] e
chunks-nonempty_last bytes (f ∷ fs) last e = chunks-nonempty bytes f (fs ++ last ∷ []) e

-- Data that follows a chunk boundary, or the last chunk, does not change the chunks before: with
-- `last` the last chunk of `bytes`, the chunks of `bytes ++ more` are those of `bytes` before
-- `last`, and then those of `last ++ more`.
pub chunks-append :
    (front : List Bytes) (last bytes more : Bytes)
    → chunks bytes ≡ front ++ last ∷ []
    → chunks (bytes ++ more) ≡ front ++ chunks (last ++ more)
chunks-append [] last bytes more e =
    ap (λ (t : Bytes). chunks (t ++ more))
      (sym (chunks-partition bytes).0 ∙ ap concat e ∙ append-nil last)
chunks-append (f ∷ fs) last bytes more e =
    chunks-cons (bytes ++ more) (omega (arith, pos, length-append bytes more))
    ∙ ap₂ ◌∷◌ (stays.0 ∙ cc cons) (ap chunks stays.1 ∙ chunks-append fs last (left bytes) more rest)
  where
    pos : 0 < length bytes
    pos = chunks-nonempty bytes f (fs ++ last ∷ []) e

    cons : first bytes ∷ chunks (left bytes) ≡ f ∷ (fs ++ last ∷ [])
    cons = sym (chunks-cons bytes pos) ∙ e

    rest : chunks (left bytes) ≡ fs ++ last ∷ []
    rest = cc cons

    stays : (first (bytes ++ more) ≡ first bytes) × (left (bytes ++ more) ≡ left bytes ++ more)
    stays = first-append bytes more (chunks-nonempty_last (left bytes) fs last rest)
