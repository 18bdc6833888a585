-- ===== src/Factorio/Client.antt =====
-- factorio-cacher/src/proxy/client_proxy.rs: `ClientProxyState`, which answers the requests of the
-- game's client for blocks of the world from what has arrived of it. A moment (`Instant`) is a
-- number of milliseconds, an argument of each call; `elapsed` is the difference to it.
use factory_cacher.Base.{
  ℕ, ◌+◌, ◌-◌, ◌*◌, Bool, true, false, not, ◌&&◌, Option, none, some, List, [], ◌∷◌, ◌++◌, ltb, leb,
  if◌then◌else◌, length, take, drop, is_empty, Outcome, ok, err, panic, stuck, ◌>>=◌,
}
use factory_cacher.Base.SortedSet
use factory_cacher.Base.Slice.{slice}
use factory_cacher.Base.Words.{Bytes}
use factory_cacher.Extern.ByteBuf.{ByteBuf}
use factory_cacher.Factorio.Protocol.{
  Header, TransferBlock, transfer_block_size, decode_header, decode_request, full_block,
  is_transfer_block_request,
}
pub mod Blocks
pub mod Requests
pub mod Stable
pub mod Answered
pub mod Valid
pub mod Transfer

-- `PacketDirection`
pub data Direction : Type 0 where
  to_client : Direction
  to_server : Direction

abbrev pub Packets : Type 0
Packets = List (Bytes × Direction)

-- `WORLD_DATA_TIMEOUT`, 60 seconds.
abbrev pub world_data_timeout : ℕ
world_data_timeout = 60000

-- `ClientProxyState`
pub record State : Type 0 where
  pub world_data : Bytes
  pub last_block_request : ℕ
  pub pending_requests : List ℕ
  pub pending_requests_swap : List ℕ
  pub world_data_done : Bool

-- `ClientProxyState::new`
pub new : ℕ → State
new now = record {
  world_data = [];
  last_block_request = now;
  pending_requests = [];
  pending_requests_swap = [];
  world_data_done = false;
}

-- `try_fulfill_block_request`
unfoldable pub try_fulfill_block_request : Bytes → ℕ → Outcome (Option TransferBlock)
try_fulfill_block_request world_data block_id =
    let offset = block_id * transfer_block_size in
    if leb (offset + transfer_block_size) (length world_data)
    then (do
      bytes ← slice offset (offset + transfer_block_size) world_data
      ok (some (record { block_id = block_id; bytes = bytes })))
    else ok none

-- The clean-up of the world, when it is complete and no block was asked for in a while.
pub clean_up : ℕ → State → State
clean_up now s =
    if not (is_empty s.world_data)
      && s.world_data_done
      && ltb world_data_timeout (now - s.last_block_request)
    then record s { world_data = [] }
    else s

module _ (io : ByteBuf) where
  -- The answer to a request for a block, or its place among those that wait.
  pub on_block_request : ℕ → State → ℕ → Packets → Outcome (State × Packets)
  on_block_request now s block_id out = do
    found ← try_fulfill_block_request s.world_data block_id
    elim found [
      | some response ↦ do
        packet ← full_block io response
        ok (record s { last_block_request = now }, out ++ (packet, to_client) ∷ [])
      | none ↦ ok (
        record s {
          pending_requests = SortedSet.insert block_id s.pending_requests;
          last_block_request = now;
        },
        out,
      )
    ]

  -- Any other packet goes on to the server.
  pub pass_on : ℕ → State → Bytes → Packets → Outcome (State × Packets)
  pass_on now s packet_data out = ok (clean_up now s, out ++ (packet_data, to_server) ∷ [])

  -- A request for a block, if it can be read.
  pub on_request : ℕ → State → Bytes → Packets → Outcome ℕ → Outcome (State × Packets)
  on_request now s packet_data out (ok block_id) = on_block_request now s block_id out
  on_request now s packet_data out (err _) = pass_on now s packet_data out
  on_request now s packet_data out panic = panic
  on_request now s packet_data out stuck = stuck

  pub on_header : ℕ → State → Bytes → Packets → Outcome (Header × Bytes) → Outcome (State × Packets)
  on_header now s packet_data out (ok (header, msg_data)) =
      if is_transfer_block_request header.packet_type
      then on_request now s packet_data out (decode_request io msg_data)
      else pass_on now s packet_data out
  on_header now s packet_data out (err _) = pass_on now s packet_data out
  on_header now s packet_data out panic = panic
  on_header now s packet_data out stuck = stuck

  -- `on_packet_from_client`
  pub on_packet_from_client : ℕ → State → Bytes → Packets → Outcome (State × Packets)
  on_packet_from_client now s packet_data out =
      on_header now s packet_data out (decode_header io packet_data)

  -- The loop over the pending requests: the packets, and `pending_requests_swap`.
  pub answer_pending : Bytes → List ℕ → List ℕ → Packets → Outcome (List ℕ × Packets)
  answer_pending world_data [] swap out = ok (swap, out)
  answer_pending world_data (block_id ∷ ids) swap out = do
    found ← try_fulfill_block_request world_data block_id
    elim found [
      | some response ↦ do
        packet ← full_block io response
        answer_pending world_data ids swap (out ++ (packet, to_client) ∷ [])
      | none ↦ answer_pending world_data ids (SortedSet.insert block_id swap) out
    ]

  -- `on_new_world_data`: the two sets are swapped after the one is cleared.
  pub on_new_world_data : ℕ → State → Option Bytes → Packets → Outcome (State × Packets)
  on_new_world_data now s none out =
      ok (record s { world_data_done = true; last_block_request = now }, out)
  on_new_world_data now s (some new_data) out = do
    let world_data = s.world_data ++ new_data
    (swap, out') ← answer_pending world_data s.pending_requests s.pending_requests_swap out
    ok (
      record s {
        world_data = world_data;
        last_block_request = now;
        pending_requests = swap;
        pending_requests_swap = [];
      },
      out',
    )
