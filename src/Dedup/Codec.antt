-- ===== src/Dedup/Codec.antt =====
-- common/src/dedup.rs: `ChunkList::encode` and `ChunkList::decode`, and the wire format.
use factory_cacher.Base.{
  ◌^◌, ◌<◌, ◌≡◌, refl, sym, ap, ◌∙◌, Bool, true, false, not, ◌==◌, List, [], ◌∷◌, ◌++◌, arith,
  lt→ltb, length, All, ok, ◌>>=◌, append_assoc, append-nil, concat,
}
use factory_cacher.Base.Words.{Bytes, le_bytes, be_bytes}
use factory_cacher.Extern.ByteBuf.{ByteBuf, get_le-append, get_be-append, get_slice-append}
use factory_cacher.Dedup.{ChunkList, ChunkKey, put_keys, encode, decode_keys, decode, as_u8}

-- The key of a hash.
abbrev pub IsKey : Bytes → Type 0
IsKey key = length key ≡ 32

as_u8-lt : (b : Bool) → as_u8 b < 256 ^ 1
as_u8-lt true = omega arith
as_u8-lt false = omega arith

as_u8-ne-zero : (b : Bool) → not (as_u8 b == 0) ≡ b
as_u8-ne-zero true = refl
as_u8-ne-zero false = refl

-- The wire format of a list of chunk keys.
pub wire : ChunkList → Bytes
wire list =
    le_bytes 1 (as_u8 list.is_leaf) ++ (be_bytes 4 (length list.chunks) ++ concat list.chunks)

module _ (io : ByteBuf) where
  put_keys-append : (keys : List ChunkKey) (buf : Bytes) → put_keys io keys buf ≡ buf ++ concat keys
  unfolding put_keys
  put_keys-append [] buf = sym (append-nil buf)
  put_keys-append (key ∷ keys) buf =
      put_keys-append keys (buf ++ key) ∙ append_assoc buf key (concat keys)

  decode_keys-concat :
      (keys : List ChunkKey) → All IsKey keys → decode_keys io (length keys) (concat keys) ≡ ok keys
  unfolding decode_keys
  decode_keys-concat [] h = refl
  decode_keys-concat (key ∷ keys) h =
      rw (get_slice-append io 32 key (concat keys) h.0, decode_keys-concat keys h.1)

  pub encode-wire :
      (list : ChunkList) → length list.chunks < 2 ^ 32 → encode io list ≡ ok (wire list)
  unfolding encode wire
  encode-wire list h =
      rw (lt→ltb _ _ h, put_keys-append, io.put_be_lem, io.put_le_lem)
        (ap ok (
          append_assoc (le_bytes 1 (as_u8 list.is_leaf)) (be_bytes 4 (length list.chunks))
            (concat list.chunks)))

  pub decode-wire :
      (list : ChunkList)
      → length list.chunks < 2 ^ 32
      → All IsKey list.chunks
      → decode io (wire list) ≡ ok list
  unfolding decode wire
  decode-wire list h keys = rw (
    get_le-append io 1 (as_u8 list.is_leaf) (be_bytes 4 (length list.chunks) ++ concat list.chunks)
        (as_u8-lt list.is_leaf),
    get_be-append io 4 (length list.chunks) (concat list.chunks) (omega arith),
    decode_keys-concat list.chunks keys,
    as_u8-ne-zero list.is_leaf,
  )

  -- A list of fewer than 2 ^ 32 keys of 32 bytes is encoded with no panic and decoded to itself.
  pub decode-encode :
      (list : ChunkList)
      → length list.chunks < 2 ^ 32
      → All IsKey list.chunks
      → (encode io list >>= decode io) ≡ ok list
  decode-encode list h keys = rw (encode-wire list h) (decode-wire list h keys)
