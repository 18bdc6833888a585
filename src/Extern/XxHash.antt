-- ===== src/Extern/XxHash.antt =====
-- `twox_hash::XxHash32`, which the repository only calls: a streaming hash. Writing two slices one
-- after the other is writing their concatenation, and `oneshot` is one write.
use factory_cacher.Base.{
  ℕ, ◌+◌, ◌%◌, ◌^◌, ◌<◌, ◌≡◌, refl, ◌++◌, append_assoc, append-nil, foldl, arith,
}
use factory_cacher.Base.{[]}
use factory_cacher.Base.Words.{Bytes}

pub record XxHash : Type 1 where
  pub State : Type 0
  pub with_seed : ℕ → State
  pub write : State → Bytes → State
  pub finish_32 : State → ℕ
  pub oneshot : ℕ → Bytes → ℕ
  pub write-append : (s : State) (a b : Bytes) → write (write s a) b ≡ write s (a ++ b)
  pub write-nil : (s : State) → write s [] ≡ s
  pub oneshot_lem : (seed : ℕ) (b : Bytes) → oneshot seed b ≡ finish_32 (write (with_seed seed) b)
  pub finish_32-lt : (s : State) → finish_32 s < 2 ^ 32

unfoldable pub sum_mod : ℕ → Bytes → ℕ
sum_mod seed b = foldl ◌+◌ seed b % 2 ^ 32

pub sum_mod-lt : (seed : ℕ) (b : Bytes) → sum_mod seed b < 2 ^ 32
unfolding sum_mod
sum_mod-lt seed b = omega arith

-- The laws can be met: a hash that keeps what it was given and adds it up at the end.
abbrev pub sum_hash : XxHash
unfolding sum_mod
sum_hash = record {
  State = ℕ × Bytes;
  with_seed = λ seed. (seed, []);
  write = λ s a. (s.0, s.1 ++ a);
  finish_32 = λ s. sum_mod s.0 s.1;
  oneshot = sum_mod;
  write-append = λ s a b. λ i. (s.0, append_assoc s.1 a b i);
  write-nil = λ s. λ i. (s.0, append-nil s.1 i);
  oneshot_lem = λ seed b. refl;
  finish_32-lt = λ s. sum_mod-lt s.0 s.1;
}
