-- ===== src/Extern/VarInt.antt =====
-- `quinn_proto::VarInt`, which the repository only calls: a number below 2 ^ 62 that is written in
-- as many bytes as it needs. The laws say that an encoding goes behind what is in the buffer, and
-- is decoded whatever follows it.
use factory_cacher.Base.{ℕ, ◌^◌, ◌<◌, ◌≡◌, refl, [], ◌++◌, arith, Outcome, ok}
use factory_cacher.Base.Words.{Bytes, be_bytes}
use factory_cacher.Extern.ByteBuf.{ByteBuf, get_be-append}

pub record VarInt : Type 0 where
  pub encode : ℕ → Bytes → Bytes
  pub decode : Bytes → Outcome (ℕ × Bytes)
  pub encode_lem : (x : ℕ) (buffer : Bytes) → encode x buffer ≡ buffer ++ encode x []
  pub decode-encode :
      (x : ℕ) (rest : Bytes) → x < 2 ^ 62 → decode (encode x [] ++ rest) ≡ ok (x, rest)

-- The laws can be met: eight bytes for each number.
pub wide : ByteBuf → VarInt
wide io = record {
  encode = λ x buffer. buffer ++ be_bytes 8 x;
  decode = io.get_be 8;
  encode_lem = λ x buffer. refl;
  decode-encode = λ x rest small. get_be-append io 8 x rest (omega arith);
}
