-- ===== src/Dsp/Proxy/Server.antt =====
-- dsp-nebula-cacher/src/proxy/server_proxy.rs: the server's side of a connection, which takes the
-- large packets apart and serves their chunks on a stream that the client opens. A packet is served
-- before the next frame is read. `NEXT_DEDUP_STREAM_ID` and the map of the streams that are waited
-- for are shared by all connections of the process; of the map its keys are kept.
pub mod Gather
use factory_cacher.Base.{
  ℕ, zero, suc, ◌+◌, ◌*◌, ◌%◌, ◌^◌, Bool, true, false, Option, none, some, List, [], ◌∷◌, ◌++◌, ltb,
  ◌==◌, if◌then◌else◌, length, Outcome, ok, err, panic, stuck, Error, ◌>>=◌, unknown_stream,
}
use factory_cacher.Base.SortedSet
use factory_cacher.Base.Words.{Bytes, of_be}
use factory_cacher.Cache.File.{read_exact}
use factory_cacher.Extern.Blake3.{Blake3}
use factory_cacher.Extern.ByteBuf.{ByteBuf}
use factory_cacher.Dedup.{ChunkKey, ChunkMap}
use factory_cacher.Dsp.Nebula.{
  Header, Packet, approx_size, decode_header, deconstruct, encode_indicator,
}
use factory_cacher.Dsp.Proxy.{
  Frame, OpCode, continuation, text, binary, close, ping, pong, starts_message, end_of_stream,
}
use factory_cacher.Message.{write_message}
use factory_cacher.Message.Provide.{provide_chunks_as_requested}

-- `MINIMUM_DEDUP_SIZE`
unfoldable pub minimum_dedup_size : ℕ
minimum_dedup_size = 131072

-- What the tasks of one connection share: the ids in its map of pending streams, and the counter
-- `NEXT_DEDUP_STREAM_ID`, which the tasks of other connections count up as well.
pub record Shared : Type 0 where
  pub next_dedup_stream_id : ℕ
  pub pending_dedup_streams : List ℕ

unfoldable pub first_shared : Shared
first_shared = record { next_dedup_stream_id = 1; pending_dedup_streams = [] }

-- `fetch_add` of the id, and `insert` into the map.
unfoldable pub register_stream : Shared → ℕ × Shared
register_stream s = (
  s.next_dedup_stream_id,
  record {
    next_dedup_stream_id = (s.next_dedup_stream_id + 1) % 2 ^ 64;
    pending_dedup_streams = SortedSet.insert s.next_dedup_stream_id s.pending_dedup_streams;
  },
)

-- The end of the loop of `run_server_proxy`, for an id that is not 0: the stream goes to the task
-- that waits for it.
unfoldable pub accept_dedup_stream : ℕ → Shared → Outcome Shared
accept_dedup_stream dedup_id s =
    let (found, pending) = SortedSet.remove dedup_id s.pending_dedup_streams in
    if found then ok (record s { pending_dedup_streams = pending }) else err unknown_stream

-- The loop of `run_server_proxy` over the streams that the client opens, by the number that each
-- starts with: a 0 starts a connection, any other number is that of a packet.
unfoldable pub run_server_proxy : List ℕ → ℕ → Shared → Outcome (ℕ × Shared)
run_server_proxy [] peers s = ok (peers, s)
run_server_proxy (dedup_id ∷ streams) peers s =
    let new_peer = run_server_proxy streams (suc peers) s in
    if dedup_id == 0
    then new_peer
    else (accept_dedup_stream dedup_id s >>= λ s'. run_server_proxy streams peers s')

-- What the loop of `dedup_packet` over the frames of a packet comes to, with the frames that are
-- left and those that were passed on.
pub data Gathered : Type 0 where
  complete : Bytes → List Frame → List Frame → Gathered
  -- a new message started
  interrupted : List Frame → List Frame → Gathered
  -- the source ended
  cut_off : List Frame → Gathered

-- The loop of `dedup_packet`.
unfoldable pub gather : Bytes → List Frame → List Frame → Gathered
gather packet_data [] out = cut_off out
gather packet_data (frame ∷ frames) out =
    let more = gather (packet_data ++ frame.payload) frames out in
    let after_control = gather packet_data frames (out ++ frame ∷ []) in
    elim frame.opcode [
      | continuation ↦
          if frame.fin then complete (packet_data ++ frame.payload) frames out else more
      | text ↦ interrupted frames (out ++ frame ∷ [])
      | binary ↦ interrupted frames (out ++ frame ∷ [])
      | close ↦ after_control
      | ping ↦ after_control
      | pong ↦ after_control
    ]

-- The frames of a packet, of which the first is there.
unfoldable pub gather_packet : Bool → Bytes → List Frame → List Frame → Gathered
unfolding gather
gather_packet was_first_frame_final initial_data frames out =
    if was_first_frame_final
    then complete initial_data frames out
    else gather initial_data frames out

-- A packet that was taken apart: the id of its stream, and what is served on it.
pub record Session : Type 0 where
  pub stream_id : ℕ
  pub packet : Packet
  pub original_packet_size : ℕ
  pub chunks : ChunkMap

-- What a connection has done: the frames it wrote, what is shared, and what it wrote to streams.
pub record Copied : Type 0 where
  pub written : List Frame
  pub shared : Shared
  pub served : List (ℕ × Bytes)

-- The encoding of the messages, and what the client sends on the stream with an id, or the error
-- with which waiting for the stream ends.
pub record Peer : Type 0 where
  pub encode_packet : Session → Outcome Bytes
  pub decode_request : Bytes → Outcome (List ChunkKey)
  pub encode_response : List Bytes → Outcome Bytes
  pub stream : ℕ → Outcome Bytes

-- The end of `dedup_packet`: the description and the chunks.
unfoldable pub serve_session : Peer → Session → Outcome Bytes
serve_session peer session = do
  input ← peer.stream session.stream_id
  message ← peer.encode_packet session
  out ← write_message [] message
  (out', _) ←
      provide_chunks_as_requested peer.decode_request peer.encode_response session.chunks input out
  ok out'

-- What was served on a stream; of what was written before an error nothing is kept.
unfoldable pub on_served : Copied → ℕ → Outcome Bytes → Copied × Outcome (Unit {0})
on_served c stream_id (ok out) = (record c { served = c.served ++ (stream_id, out) ∷ [] }, ok tt)
on_served c stream_id (err e) = (c, err e)
on_served c stream_id panic = (c, panic)
on_served c stream_id stuck = (c, stuck)

unfoldable pub and_then : {A : Type 0} → A → Copied × Outcome (Unit {0}) → Copied × Outcome A
and_then a (c, ok _) = (c, ok a)
and_then a (c, err e) = (c, err e)
and_then a (c, panic) = (c, panic)
and_then a (c, stuck) = (c, stuck)

-- `?` on a packet that was served, and the rest of the loop.
unfoldable pub go_on :
    (List Frame → Copied → Copied × Outcome (Unit {0}))
    → Copied × Outcome (List Frame)
    → Copied × Outcome (Unit {0})
go_on next (c, ok frames) = next frames c
go_on next (c, err e) = (c, err e)
go_on next (c, panic) = (c, panic)
go_on next (c, stuck) = (c, stuck)

module _ (io : ByteBuf) (blake : Blake3) (decompress_lz4 : Bytes → Outcome Bytes) where
  -- The test in `copy_with_dedup`: the header of a large packet, and the data behind it.
  unfoldable pub large_packet : Frame → Option (Header × Bytes)
  large_packet frame =
      if starts_message frame.opcode
      then elim (decode_header io frame.payload) [
        | ok (some header, frame_data) ↦
            if ltb minimum_dedup_size (approx_size header) then some (header, frame_data) else none
        | ok (none, _) ↦ none
        | err _ ↦ none
        | panic ↦ none
        | stuck ↦ none
      ]
      else none

  -- `dedup_packet` from the packet that was taken apart on: the stream is registered before the
  -- client is told of it.
  unfoldable pub on_deconstructed :
      Peer → ℕ → Copied → Outcome (Packet × ChunkMap) → Copied × Outcome (Unit {0})
  on_deconstructed peer size c (ok (packet, chunks)) =
      let (stream_id, shared) = register_stream c.shared in
      let indicator : Frame = record {
        fin = true;
        opcode = binary;
        payload = encode_indicator io stream_id [];
      } in
      let session : Session = record {
        stream_id = stream_id;
        packet = packet;
        original_packet_size = size;
        chunks = chunks;
      } in
      on_served
        (record { written = c.written ++ indicator ∷ []; shared = shared; served = c.served })
        stream_id (serve_session peer session)
  on_deconstructed peer size c (err e) = (c, err e)
  on_deconstructed peer size c panic = (c, panic)
  on_deconstructed peer size c stuck = (c, stuck)

  -- `dedup_packet`: the frames that are left.
  unfoldable pub dedup_packet :
      Peer → Header → Error → Copied → Gathered → Copied × Outcome (List Frame)
  dedup_packet peer header ending c (complete packet_data frames out) = and_then frames (
      on_deconstructed peer (length packet_data) (record c { written = out })
        (deconstruct io blake decompress_lz4 header packet_data []))
  dedup_packet peer header ending c (interrupted frames out) =
      (record c { written = out }, ok frames)
  dedup_packet peer header ending c (cut_off out) = (record c { written = out }, err ending)

  -- The loop of `copy_with_dedup`; a turn takes at least one frame.
  unfoldable pub copy_frames : Peer → ℕ → List Frame → Error → Copied → Copied × Outcome (Unit {0})
  copy_frames peer zero frames ending c = (c, stuck)
  copy_frames peer (suc fuel) [] ending c = (c, end_of_stream ending)
  copy_frames peer (suc fuel) (frame ∷ frames) ending c = elim (large_packet frame) [
    | some (header, frame_data) ↦
        go_on (λ rest c'. copy_frames peer fuel rest ending c')
          (dedup_packet peer header ending c (gather_packet frame.fin frame_data frames c.written))
    | none ↦ copy_frames peer fuel frames ending (record c { written = c.written ++ frame ∷ [] })
  ]

  -- `copy_with_dedup`
  unfoldable pub copy_with_dedup : Peer → List Frame → Error → Copied → Copied × Outcome (Unit {0})
  copy_with_dedup peer frames ending c = copy_frames peer (suc (length frames)) frames ending c
