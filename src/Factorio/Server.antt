-- ===== src/Factorio/Server.antt =====
-- factorio-cacher/src/proxy/server_proxy.rs: `ServerProxyState`, which downloads the world from the
-- game's server, 16 requested blocks at a time, and hides the old description of the world from
-- the client. A moment (`Instant`) is a number of milliseconds, an argument of each call.
use factory_cacher.Base.{
  ℕ, zero, suc, ◌+◌, ◌-◌, ◌*◌, ◌/◌, ◌%◌, ◌^◌, Bool, true, false, not, ◌&&◌, ◌||◌, Option, none,
  some, List, [], ◌∷◌, ◌++◌, ltb, leb, ◌==◌, if◌then◌else◌, length, take, drop, is_empty, Outcome,
  ok, err, panic, stuck, ◌>>=◌, ◌>>◌, assert, expect,
}
pub mod Download
pub mod WellFormed
pub mod Progress
pub mod Transfer
use factory_cacher.Base.SortedSet
use factory_cacher.Base.Words.{Bytes}
use factory_cacher.Extern.ByteBuf.{ByteBuf}
use factory_cacher.Extern.Finder.{Finder}
use factory_cacher.Factorio.Protocol.{
  Header, Fragmentation, TransferBlock, WorldMetadata, transfer_block_size, decode_header,
  decode_block, decode_heartbeat, decode_map_ready, encode_metadata, full_request, is_heartbeat,
  is_transfer_block,
}
use factory_cacher.Factorio.Client.{Packets, Direction, to_client, to_server}

-- `DownloadingWorldState`
pub record Downloading : Type 0 where
  pub world_info : WorldMetadata
  pub new_world_info : WorldMetadata
  pub world_block_count : ℕ
  pub download_start_time : ℕ
  pub received_blocks : List TransferBlock
  pub block_request_queue : List ℕ
  pub inflight_block_requests : List ℕ
  pub last_block_time : ℕ

-- `ServerProxyPhase`
pub data Phase : Type 0 where
  waiting_for_world : Phase
  downloading_world : Downloading → Phase
  all_done : Phase

-- `FilteringPacketsState`; the `finder` is its needle.
pub record Filtering : Type 0 where
  pub needle : Bytes
  pub replace_with : Bytes
  pub last_replace : ℕ

-- `ServerProxyState`. `comp_stream` is whether the streams were not taken yet; `spawned` is what
-- the tasks that `finalize_world` has started were given.
pub record State : Type 0 where
  pub phase : Phase
  pub packet_filter : Option Filtering
  pub comp_stream : Bool
  pub spawned : List Downloading

-- `ServerProxyState::new`
pub new : State
new = record { phase = waiting_for_world; packet_filter = none; comp_stream = true; spawned = [] }

-- `INFLIGHT_BLOCK_REQUEST_LIMIT`
unfoldable pub inflight_block_request_limit : ℕ
inflight_block_request_limit = 16

-- The number of blocks of `size` bytes; the sum wraps around in 32 bits.
unfoldable pub block_count : ℕ → ℕ
block_count size =
    (((size + transfer_block_size) % 2 ^ 32 + 2 ^ 32 - 1) % 2 ^ 32) / transfer_block_size

-- `total_block_count` of `transition_to_downloading_world`
unfoldable pub total_block_count : WorldMetadata → ℕ
total_block_count world_info =
    (block_count world_info.world_size + block_count world_info.aux_size) % 2 ^ 32

-- `header.fragmentation.is_none_or(|frag| frag.fragment_id == Some(0))`
pub is_first : Option Fragmentation → Bool
is_first none = true
is_first (some frag) = elim frag.fragment_id [ none ↦ false | some id ↦ id == 0 ]

-- `finalize_world`
pub finalize_world : State → Outcome State
finalize_world s = elim s.phase [
  | downloading_world state ↦ do
    assert s.comp_stream
    ok (record s { phase = all_done; comp_stream = false; spawned = s.spawned ++ state ∷ [] })
  | waiting_for_world ↦ panic
  | all_done ↦ panic
]

-- `packet[pos..pos + size].copy_from_slice(with_bytes)`, which panics out of range, and for bytes of
-- another length.
pub overwrite : Bytes → ℕ → ℕ → Bytes → Outcome Bytes
overwrite packet pos size with_bytes = do
  assert (leb (pos + size) (length packet))
  assert (size == length with_bytes)
  ok (take pos packet ++ (with_bytes ++ drop (pos + size) packet))

-- The loop of `filter_packet` over the places where the needle was found.
pub replace_all : Bytes → ℕ → List ℕ → Bytes → Outcome Bytes
replace_all packet size [] with_bytes = ok packet
replace_all packet size (pos ∷ rest) with_bytes = do
  packet' ← overwrite packet pos size with_bytes
  replace_all packet' size rest with_bytes

-- What a received block changes: it counts once, and only if it was asked for or still will be.
pub receive_block : ℕ → Downloading → TransferBlock → Downloading
receive_block now state block =
    let (was_inflight, inflight) = SortedSet.remove block.block_id state.inflight_block_requests in
    let (was_queued, queue) = SortedSet.remove block.block_id state.block_request_queue in
    let counted : Downloading = record state {
      received_blocks = state.received_blocks ++ block ∷ [];
      last_block_time = now;
    } in
    if was_inflight
    then record counted { inflight_block_requests = inflight }
    else if was_queued
    then record counted { block_request_queue = queue }
    else state

-- `estimate` is the product with `world_estimate_multiplier`, a computation on `f64`.
module _ (io : ByteBuf) (finder : Finder) (estimate : ℕ → ℕ) where
  -- The loop of `request_next_blocks`; each turn takes a block from the
  -- queue, so that one more than its length is enough fuel.
  pub request_blocks : ℕ → Downloading → Packets → Outcome (Downloading × Packets)
  request_blocks zero state out =
      if ltb (length state.inflight_block_requests) inflight_block_request_limit
      then stuck
      else ok (state, out)
  request_blocks (suc fuel) state out =
      if ltb (length state.inflight_block_requests) inflight_block_request_limit
      then elim (SortedSet.pop_first state.block_request_queue) [
        | none ↦ ok (state, out)
        | some (block_id, queue) ↦ do
          request ← full_request io block_id
          request_blocks fuel
              (record state {
                block_request_queue = queue;
                inflight_block_requests = SortedSet.insert block_id state.inflight_block_requests;
              })
              (out ++ (request, to_server) ∷ [])
      ]
      else ok (state, out)

  -- `request_next_blocks`
  pub request_next_blocks : Downloading → Packets → Outcome (Downloading × Packets)
  request_next_blocks state out = request_blocks (suc (length state.block_request_queue)) state out

  -- The loop that asks again for every block that is under way.
  pub request_again : List ℕ → Packets → Outcome Packets
  request_again [] out = ok out
  request_again (block_id ∷ ids) out = do
    request ← full_request io block_id
    request_again ids (out ++ (request, to_server) ∷ [])

  -- `filter_packet`
  pub filter_packet : ℕ → Filtering → Bytes → Outcome (Filtering × Bytes)
  filter_packet now state packet =
      let found = finder.find_all state.needle packet in
      if is_empty found then ok (state, packet) else (do
        packet' ← replace_all packet (length state.needle) found state.replace_with
        ok (record state { last_replace = now }, packet'))

  -- The end of `on_packet_from_server`: the packet goes to the client, filtered.
  pub forward : ℕ → State → Bytes → Packets → Outcome (State × Packets)
  forward now s packet out = elim s.packet_filter [
    | none ↦ ok (s, out ++ (packet, to_client) ∷ [])
    | some filtering ↦ do
      (filtering', packet') ← filter_packet now filtering packet
      ok (
        record s {
          packet_filter =
              if ltb 30000 (now - filtering'.last_replace) then none else some filtering';
        },
        out ++ (packet', to_client) ∷ [],
      )
  ]

  -- `transition_to_downloading_world`
  pub transition_to_downloading_world :
      ℕ → State → Bytes → WorldMetadata → Packets → Outcome (State × Packets)
  transition_to_downloading_world now s packet world_info out =
      let new_world_info : WorldMetadata = record world_info {
        world_size = estimate world_info.world_size;
      } in
      let filtering : Filtering = record {
        needle = encode_metadata io world_info [];
        replace_with = encode_metadata io new_world_info [];
        last_replace = now;
      } in
      let world_block_count = block_count world_info.world_size in
      let state : Downloading = record {
        world_info = world_info;
        new_world_info = new_world_info;
        world_block_count = world_block_count;
        download_start_time = now;
        received_blocks = [];
        block_request_queue = SortedSet.range 0 (total_block_count world_info);
        inflight_block_requests = [];
        last_block_time = now;
      } in
      do
        (filtering', packet') ← filter_packet now filtering packet
        (state', out') ← request_next_blocks state (out ++ (packet', to_client) ∷ [])
        ok (record s { phase = downloading_world state'; packet_filter = some filtering' }, out')

  -- The arm of a block of the world, in the phase of the download.
  pub on_transfer_block :
      ℕ → State → Downloading → TransferBlock → Packets → Outcome (State × Packets)
  on_transfer_block now s state block out =
      let state1 = receive_block now state block in
      if is_empty state1.block_request_queue && is_empty state1.inflight_block_requests
      then (do s' ← finalize_world (record s { phase = downloading_world state1 }); ok (s', out))
      else (do
        (state2, out') ← request_next_blocks state1 out
        ok (record s { phase = downloading_world state2 }, out'))

  -- The rest of the phase of the download: requests are repeated 100 ms after the last block.
  pub on_other_packet : ℕ → State → Downloading → Bytes → Packets → Outcome (State × Packets)
  on_other_packet now s state packet out =
      if ltb 100 (now - state.last_block_time)
      then (do
        out1 ← request_again state.inflight_block_requests out
        (state1, out2) ← request_next_blocks state out1
        forward now
            (record s { phase = downloading_world (record state1 { last_block_time = now }) })
            packet out2)
      else forward now s packet out

  -- A heartbeat, as far as it is read: `and_then` of the two decoders.
  pub find_world_info : Header → Bytes → Option WorldMetadata
  find_world_info header msg_data =
      if is_heartbeat header.packet_type && is_first header.fragmentation
      then elim (decode_heartbeat io msg_data >>= decode_map_ready io) [
        | ok found ↦ found
        | _ ↦ none
      ]
      else none

  -- The phase of waiting: a description of a world starts its download.
  pub on_world_info : ℕ → State → Bytes → Packets → Option WorldMetadata → Outcome (State × Packets)
  on_world_info now s packet out (some world_info) =
      transition_to_downloading_world now s packet world_info out
  on_world_info now s packet out none = forward now s packet out

  pub on_waiting :
      ℕ → State → Bytes → Packets → Outcome (Header × Bytes) → Outcome (State × Packets)
  on_waiting now s packet out (ok (header, msg_data)) =
      on_world_info now s packet out (find_world_info header msg_data)
  on_waiting now s packet out (err _) = forward now s packet out
  on_waiting now s packet out panic = panic
  on_waiting now s packet out stuck = stuck

  -- The phase of the download; a block that cannot be read is dropped.
  pub on_block :
      ℕ → State → Downloading → Packets → Outcome TransferBlock → Outcome (State × Packets)
  on_block now s state out (ok block) = on_transfer_block now s state block out
  on_block now s state out (err _) = ok (s, out)
  on_block now s state out panic = panic
  on_block now s state out stuck = stuck

  pub on_downloading :
      ℕ
      → State
      → Downloading
      → Bytes
      → Packets
      → Outcome (Header × Bytes)
      → Outcome (State × Packets)
  on_downloading now s state packet out (ok (header, msg_data)) =
      if is_transfer_block header.packet_type
      then on_block now s state out (decode_block io msg_data)
      else on_other_packet now s state packet out
  on_downloading now s state packet out (err _) = on_other_packet now s state packet out
  on_downloading now s state packet out panic = panic
  on_downloading now s state packet out stuck = stuck

  -- `on_packet_from_server`
  pub on_packet_from_server : ℕ → State → Bytes → Packets → Outcome (State × Packets)
  on_packet_from_server now s packet out = elim s.phase [
    | waiting_for_world ↦ on_waiting now s packet out (decode_header io packet)
    | downloading_world state ↦ on_downloading now s state packet out (decode_header io packet)
    | all_done ↦ forward now s packet out
  ]
