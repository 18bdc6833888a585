-- ===== src/Base/Results.antt =====
-- What a Rust call comes to: a value, an error that `?` passes on, or a panic (`expect`, `unwrap`,
-- `assert!`, an index out of range). An error that carries no data the model needs is named by
-- the place that makes it.
use Prim.Native.Nat.{ℕ}
use mathlib.Core.Path.{◌≡◌}
use mathlib.Core.Bool.{Bool, true, false}
use mathlib.Core.Option.{Option, none, some}

pub data Error : Type 0 where
  -- `bytes::TryGetError { requested, available }`
  try_get : ℕ → ℕ → Error
  -- an end of the input in the middle of an item (`std::io::ErrorKind::UnexpectedEof`)
  unexpected_eof : Error
  chunk_too_large : ℕ → Error
  hash_mismatch : Error
  unknown_chunk : Error
  packet_too_short : Error
  number_too_large : Error
  world_too_large : Error
  bad_encoding : Error
  connection_closed : Error
  websocket_failed : Error
  unknown_stream : Error
  bad_archive : Error
  inflate_failed : Error
  world_does_not_fit : Error
  download_too_short : Error

pub data Outcome {ℓ} (A : Type ℓ) : Type ℓ where
  ok : A → Outcome A
  err : Error → Outcome A
  panic : Outcome A
  -- no outcome of the program: a loop of the model ran out of fuel
  stuck : Outcome A

infixl 5 ◌>>=◌
abbrev pub ◌>>=◌ {ℓ κ} : {A : Type ℓ} {B : Type κ} → Outcome A → (A → Outcome B) → Outcome B
ok a >>= f = f a
err e >>= f = err e
panic >>= f = panic
stuck >>= f = stuck

-- `assert!`
infixl 5 ◌>>◌
abbrev pub ◌>>◌ {ℓ} : {B : Type ℓ} → Outcome (Unit {0}) → Outcome B → Outcome B
m >> k = m >>= λ _. k

abbrev pub assert : Bool → Outcome (Unit {0})
assert true = ok tt
assert false = panic

abbrev pub guard : Bool → Error → Outcome (Unit {0})
guard true e = ok tt
guard false e = err e

-- `Option::expect`, `Option::unwrap`
abbrev pub expect {ℓ} : {A : Type ℓ} → Option A → Outcome A
expect none = panic
expect (some a) = ok a

-- `Option::ok_or_else`
abbrev pub ok_or {ℓ} : {A : Type ℓ} → Option A → Error → Outcome A
ok_or none e = err e
ok_or (some a) e = ok a

pub ok-injective {ℓ} : {A : Type ℓ} {a b : A} → ok a ≡ ok b → a ≡ b
ok-injective h = cc
