-- ===== src/Dsp/Proxy/Client.antt =====
-- dsp-nebula-cacher/src/proxy/client_proxy.rs: the client's side of a connection, which puts the
-- packets together that the other side has taken apart.
pub mod Fragments
use factory_cacher.Base.{
  ℕ, Bool, true, false, ◌&&◌, Option, none, some, List, [], ◌∷◌, ◌++◌, if◌then◌else◌, Outcome, ok,
  err, Error, ◌>>=◌,
}
use factory_cacher.Base.Words.{Bytes, be_bytes}
use factory_cacher.Extern.ByteBuf.{ByteBuf}
use factory_cacher.Extern.XxHash.{XxHash}
use factory_cacher.Dedup.{ChunkProvider}
use factory_cacher.Dsp.Nebula.{Packet, decode_indicator, reconstruct}
use factory_cacher.Dsp.Proxy.{Frame, OpCode, binary, continuation, starts_message, end_of_stream}
use factory_cacher.Message.{read_message}

-- The choice of the opcode in `forward_deduped_fragments`.
unfoldable pub op_code : Bool → OpCode
op_code first_frame = if first_frame then binary else continuation

-- The loop of `forward_deduped_fragments` over what the channel gives, and what follows it: a
-- fragment is written when the next one is there, and the last one at the end.
unfoldable pub forward_fragments : Bool → Option Bytes → List Bytes → List Frame
forward_fragments first_frame none [] = []
forward_fragments first_frame (some last_bytes) [] =
    record { fin = true; opcode = op_code first_frame; payload = last_bytes } ∷ []
forward_fragments first_frame none (fragment ∷ rest) =
    forward_fragments first_frame (some fragment) rest
forward_fragments first_frame (some last_bytes) (fragment ∷ rest) =
    record { fin = false; opcode = op_code first_frame; payload = last_bytes }
    ∷ forward_fragments false (some fragment) rest

-- `forward_deduped_fragments`: the frames for what the task `reconstruct_packet` sends.
unfoldable pub forward_deduped_fragments : List Bytes → List Frame
unfolding forward_fragments
forward_deduped_fragments fragments = forward_fragments true none fragments

-- What `reconstruct_packet` has done at its end: the first bytes of the stream that it opened, the
-- fragments it sent, its provider, and whether the chunk cache was marked as changed.
pub record Reconstructed (P : Type 0) : Type 0 where
  pub opening : Bytes
  pub fragments : List Bytes
  pub fetcher : P
  pub marked_dirty : Bool

module _ (io : ByteBuf) where
  -- What the loop of `copy_with_dedup` writes for a frame. `fragments_of` is what the task
  -- `reconstruct_packet` sends for an id until it ends.
  unfoldable pub forward_frame : (ℕ → List Bytes) → Frame → List Frame
  forward_frame fragments_of frame =
      if starts_message frame.opcode && frame.fin
      then elim (decode_indicator io frame.payload) [
        | some dedup_id ↦ forward_deduped_fragments (fragments_of dedup_id)
        | none ↦ frame ∷ []
      ]
      else frame ∷ []

  -- `copy_with_dedup`
  unfoldable pub copy_with_dedup :
      (ℕ → List Bytes) → List Frame → Error → List Frame → List Frame × Outcome (Unit {0})
  copy_with_dedup fragments_of [] ending out = (out, end_of_stream ending)
  copy_with_dedup fragments_of (frame ∷ frames) ending out =
      copy_with_dedup fragments_of frames ending (out ++ forward_frame fragments_of frame)

  -- `reconstruct_packet`. `input` is what the other side sends on the stream, and `new_fetcher` the
  -- provider that fetches over it; of the fragments that were sent before an error nothing is kept.
  unfoldable pub reconstruct_packet :
      XxHash
      → {P : Type 0} → ChunkProvider P
      → (Bytes → Outcome Packet)
      → ℕ
      → ℕ
      → Bytes
      → (Bytes → P)
      → Outcome (Reconstructed P)
  reconstruct_packet xx provider decode_message fuel dedup_stream_id input new_fetcher = do
    (message, rest) ← read_message input
    packet ← decode_message message
    (fragments, fetcher) ← reconstruct io xx provider fuel packet (new_fetcher rest)
    ok (record {
      opening = be_bytes 8 dedup_stream_id;
      fragments = fragments;
      fetcher = fetcher;
      marked_dirty = true;
    })
