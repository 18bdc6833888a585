-- ===== src/Extern/Finder.antt =====
-- `memchr::memmem::Finder`, which the repository only calls: `find_iter` gives the places of a needle
-- in a packet. The law is what its documentation says of each: the needle lies within the packet.
use factory_cacher.Base.{
  ℕ, ◌+◌, ◌≤◌, List, [], ◌∷◌, All, if◌then◌else◌, length, take, arith, Bool-cases, inl, inr, leb,
  ◌&&◌,
}
use factory_cacher.Base.Words.{Bytes, same_bytes}

pub record Finder : Type 0 where
  pub find_all : Bytes → Bytes → List ℕ
  pub find_all-within :
      (needle packet : Bytes)
      → All (λ pos. pos + length needle ≤ length packet) (find_all needle packet)

-- The law can be met: a search that looks only at the start.
abbrev at_start : Bytes → Bytes → List ℕ
at_start needle packet =
    if leb (length needle) (length packet) && same_bytes (take (length needle) packet) needle
    then 0 ∷ []
    else []

at_start-within :
    (needle packet : Bytes)
    → All (λ pos. pos + length needle ≤ length packet) (at_start needle packet)
at_start-within needle packet =
    elim (Bool-cases
      (leb (length needle) (length packet) && same_bytes (take (length needle) packet) needle)) [
        | inl found ↦ rw found (ground (arith, found), tt)
        | inr nowhere ↦ rw nowhere tt
      ]

pub start_finder : Finder
start_finder = record { find_all = at_start; find_all-within = at_start-within }
