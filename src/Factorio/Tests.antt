-- ===== src/Factorio/Tests.antt =====
-- factorio-cacher/src: the theorems at concrete inputs.
use factory_cacher.Base.{
  ◌⊎◌, none, ◌*◌, ℕ, ◌+◌, ◌^◌, ◌<◌, ◌≡◌, refl, false, some, [], ◌∷◌, ◌++◌, length, replicate, ok,
  ◌>>=◌, arith,
}
use factory_cacher.Base.SortedSet
use factory_cacher.Base.Words.{Bytes}
use factory_cacher.Extern.ByteBuf.{list_buf}
use factory_cacher.Factorio.Protocol.{
  TransferBlock, WorldMetadata, transfer_block, full_block, new_unfragmented, decode_metadata,
  encode_metadata,
}
use factory_cacher.Factorio.Protocol.RoundTrip.{
  parse_block, full_block-decode, encode_metadata-decode,
}
use factory_cacher.Factorio.Client
use factory_cacher.Factorio.Client.{Packets, on_new_world_data}
use factory_cacher.Factorio.Client.Requests.{answers, unanswered, on_new_world_data_lem}
use factory_cacher.Factorio.Client.{try_fulfill_block_request, on_packet_from_client}
use factory_cacher.Factorio.Client.Requests
use factory_cacher.Factorio.Client.Blocks.{block_at}
use factory_cacher.Factorio.Client.Answered.{Sends, request-answered}
use factory_cacher.Extern.Finder.{start_finder}
use factory_cacher.Base.Words.{le_bytes}
use factory_cacher.Factorio.Protocol.RoundTrip.{wire_request, wire_request-header, le_bytes-request}
use factory_cacher.Factorio.Client.Stable.{IsBlockOf, try_fulfill_block_request-append}
use factory_cacher.Factorio.Protocol.{transfer_block_size}
use factory_cacher.Factorio.Server
use factory_cacher.Factorio.Server.{Downloading, on_packet_from_server, request_next_blocks}
use factory_cacher.Factorio.Server.Download.{
  IsValid, Requests, start-IsValid, request_next_blocks-Requests,
}
use factory_cacher.Factorio.Server.Progress.{on_packet_from_server-Proceeds}
use factory_cacher.Factorio.Server.WellFormed.{new-IsWellFormed, Proceeds}
use factory_cacher.Factorio.Zip.{
  Writer, Entry, encode_central_directory, central_directory_size, entries_size,
}
use factory_cacher.Factorio.Zip.Size.{length-encode_central_directory}

abbrev block : TransferBlock
block = record { block_id = 7; bytes = 1 ∷ 2 ∷ [] }

full_block-decode_example :
    (full_block list_buf block >>= parse_block list_buf)
    ≡ ok (new_unfragmented transfer_block, block)
full_block-decode_example = full_block-decode list_buf block (omega arith)

abbrev world : WorldMetadata
world = record { world_size = 1000; no_idea1 = 1; aux_size = 10; no_idea2 = 2; world_crc = 3 }

encode_metadata-decode_example :
    decode_metadata list_buf (encode_metadata list_buf world [] ++ 9 ∷ []) ≡ ok (world, 9 ∷ [])
encode_metadata-decode_example =
    encode_metadata-decode list_buf world (9 ∷ []) (omega arith) (omega arith) (omega arith)
      (omega arith) (omega arith)

-- A client that waits for the first two blocks.
abbrev client : Client.State
client = record {
  world_data = 5 ∷ [];
  last_block_request = 0;
  pending_requests = 0 ∷ 1 ∷ [];
  pending_requests_swap = [];
  world_data_done = false;
}

on_new_world_data_lem_example :
    on_new_world_data list_buf 10 client (some (replicate 502 6)) []
    ≡ ok (
      record client {
        world_data = 5 ∷ replicate 502 6;
        last_block_request = 10;
        pending_requests = unanswered (5 ∷ replicate 502 6) (0 ∷ 1 ∷ []);
        pending_requests_swap = [];
      },
      answers (5 ∷ replicate 502 6) (0 ∷ 1 ∷ []),
    )
on_new_world_data_lem_example =
    on_new_world_data_lem list_buf 10 client (replicate 502 6) []
      (record { pending_IsSet = ((omega arith, tt), (tt, tt)); swap_empty = refl })

abbrev twice : ℕ → ℕ
twice n = n + n

-- The heartbeat that says that the world is ready.
abbrev heartbeat : Bytes
heartbeat = 7 ∷ 16 ∷ 0 ∷ 0 ∷ 0 ∷ 0 ∷ 1 ∷ 5 ∷ encode_metadata list_buf world []

on_packet_from_server-Proceeds_example :
    Proceeds (on_packet_from_server list_buf start_finder twice 5 Server.new heartbeat [])
on_packet_from_server-Proceeds_example =
    on_packet_from_server-Proceeds list_buf start_finder twice 5 Server.new heartbeat []
      new-IsWellFormed

abbrev download : Downloading
download = record {
  world_info = world;
  new_world_info = world;
  world_block_count = 2;
  download_start_time = 0;
  received_blocks = [];
  block_request_queue = 0 ∷ 1 ∷ 2 ∷ [];
  inflight_block_requests = [];
  last_block_time = 0;
}

download-IsValid : IsValid 3 download
unfolding SortedSet.range
download-IsValid = start-IsValid 3 download refl refl refl

request_next_blocks-Requests_example :
    Requests 3 download [] (request_next_blocks list_buf start_finder twice download [])
request_next_blocks-Requests_example =
    request_next_blocks-Requests list_buf start_finder twice 3 download [] download-IsValid

abbrev entry : Entry
entry = record {
  start_offset = 0;
  file_name = 97 ∷ 98 ∷ [];
  file_name_size = 2;
  compressed_size = 3;
  uncompressed_size = 3;
  compression_method = 0;
  data_crc = 9;
}

abbrev zip : Writer
zip = record { current_offset = 35; entries = entry ∷ [] }

zip_small : central_directory_size zip < 2 ^ 32
unfolding central_directory_size entries_size
zip_small = omega arith

length-encode_central_directory_example :
    (out : Bytes) × (encode_central_directory list_buf zip ≡ ok out)
    × (length out ≡ central_directory_size zip)
length-encode_central_directory_example =
    length-encode_central_directory list_buf zip (omega arith) (omega arith) (omega arith, tt)
      zip_small

abbrev one_block : Bytes
one_block = replicate 503 6

try_fulfill_block_request-append_example :
    ((found : TransferBlock) × IsBlockOf one_block 0 found
      × (try_fulfill_block_request one_block 0 ≡ ok (some found))
      × (try_fulfill_block_request (one_block ++ 7 ∷ []) 0 ≡ ok (some found)))
    ⊎ ((try_fulfill_block_request one_block 0 ≡ ok none)
        × (length one_block < 0 * transfer_block_size + transfer_block_size))
try_fulfill_block_request-append_example = try_fulfill_block_request-append one_block (7 ∷ []) 0

client-IsValid : Requests.IsValid client
client-IsValid = record { pending_IsSet = ((omega arith, tt), (tt, tt)); swap_empty = refl }

second_block :
    block_at (5 ∷ replicate 1005 6) 1 ≡ some (record { block_id = 1; bytes = replicate 503 6 })
unfolding block_at transfer_block_size
second_block = refl

request-answered_example :
    (s1 : Client.State) × (out1 : Packets) × (s2 : Client.State) × (out2 : Packets)
    × (on_packet_from_client list_buf 10 client (wire_request 1) [] ≡ ok (s1, out1))
    × (on_new_world_data list_buf 20 s1 (some (replicate 1005 6)) out1 ≡ ok (s2, out2))
    × Sends (record { block_id = 1; bytes = replicate 503 6 }) [] out2
request-answered_example =
    request-answered list_buf 10 20 client (wire_request 1) (le_bytes 4 1) (replicate 1005 6)
      (wire_request-header list_buf 1).0 1 (record { block_id = 1; bytes = replicate 503 6 }) []
      client-IsValid (wire_request-header list_buf 1).1 (wire_request-header list_buf 1).2
      (le_bytes-request list_buf 1 (omega arith)) second_block
