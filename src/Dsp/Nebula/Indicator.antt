-- ===== src/Dsp/Nebula/Indicator.antt =====
-- dsp-nebula-cacher/src/protocol.rs: the indicator that starts a deduplicated packet.
use factory_cacher.Base.{
  ℕ, ◌^◌, ◌<◌, ◌≡◌, refl, some, [], ◌++◌, append_assoc, length, take-append_left, drop-append_left,
  arith,
}
use factory_cacher.Base.Words.{Bytes, same_bytes_refl, be_bytes}
use factory_cacher.Extern.ByteBuf.{ByteBuf, get_be-append}
use factory_cacher.Dsp.Nebula.{magic_number, decode_indicator, encode_indicator}

-- An indicator, with an id of 64 bits, is read back from its encoding, whatever follows.
pub decode_indicator-encode_indicator :
    (io : ByteBuf) (dedup_id : ℕ) (rest : Bytes)
    → dedup_id < 2 ^ 64
    → decode_indicator io (encode_indicator io dedup_id [] ++ rest) ≡ some dedup_id
unfolding decode_indicator encode_indicator
decode_indicator-encode_indicator io dedup_id rest small =
    rw
      (
        io.put_be_lem,
        append_assoc magic_number (be_bytes 8 dedup_id) rest,
        take-append_left (length magic_number) magic_number (be_bytes 8 dedup_id ++ rest) refl,
        drop-append_left (length magic_number) magic_number (be_bytes 8 dedup_id ++ rest) refl,
        same_bytes_refl magic_number,
        get_be-append io 8 dedup_id rest (omega arith),
      )
      refl
