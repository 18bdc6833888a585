-- ===== src/Factorio/Datagram.antt =====
-- factorio-cacher/src/protocol.rs: `Datagram`, a packet of the game with the number of its player.
use factory_cacher.Base.{
  ℕ, ◌^◌, ◌<◌, ◌≡◌, refl, ap, ◌∙◌, [], ◌++◌, append_assoc, Outcome, ok, ◌>>=◌,
}
use factory_cacher.Base.Words.{Bytes}
use factory_cacher.Extern.VarInt.{VarInt}

-- `Datagram`
pub record Datagram : Type 0 where
  pub peer_id : ℕ
  pub packet_data : Bytes

-- `Datagram::new`
pub new : ℕ → Bytes → Datagram
new peer_id packet_data = record { peer_id = peer_id; packet_data = packet_data }

module _ (var_int : VarInt) where
  -- `Datagram::decode`
  pub decode : Bytes → Outcome Datagram
  decode bytes = do
    (peer_id, packet_data) ← var_int.decode bytes
    ok (record { peer_id = peer_id; packet_data = packet_data })

  -- `Datagram::encode`
  pub encode : Datagram → Bytes → Bytes
  encode datagram buffer = var_int.encode datagram.peer_id buffer ++ datagram.packet_data

  -- A datagram of a player below 2 ^ 62 is written behind what is in the buffer, and what is
  -- written is decoded to the same datagram.
  pub decode-encode :
      (datagram : Datagram) (buffer : Bytes)
      → datagram.peer_id < 2 ^ 62
      → (written : Bytes) × (encode datagram buffer ≡ buffer ++ written)
        × (decode written ≡ ok datagram)
  unfolding decode encode
  decode-encode datagram buffer small = (
    var_int.encode datagram.peer_id [] ++ datagram.packet_data,
    ap (λ (b : Bytes). b ++ datagram.packet_data) (var_int.encode_lem datagram.peer_id buffer)
        ∙ append_assoc buffer (var_int.encode datagram.peer_id []) datagram.packet_data,
    rw (var_int.decode-encode datagram.peer_id datagram.packet_data small) refl,
  )
