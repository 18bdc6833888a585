-- ===== src/Lib.antt =====
-- A verification library for FactoryCacher: proxies that shrink the transfer of game worlds. One
-- proxy takes the data apart into chunks, the other asks for the chunks it lacks and puts the same
-- data together. Paths are from the repository's root; chunks are blobs under their BLAKE3 hash.
--
-- Chunker is common/src/chunker.rs: `Chunker::next` is next, with the loop over the bytes as scan,
-- and `RabinKarpHash` is in Chunker/RollingHash. Dedup is common/src/dedup.rs: chunk_data builds
-- the tree of chunk lists level by level (the levels are a list, lowest first), minimize_chunk_list,
-- reconstruct_data, the codec of chunk lists; Dedup/Prefetch is prefetch_metadata_chunks. A
-- `ChunkProvider` is a record of operations on its state; map_provider is the one of a hash map.
--
-- Cache is common/src/chunk_cache.rs. Cache/Raw is `RawChunkCache`, Cache/Batch is
-- `get_chunks_batched` and `fulfill` (a call that waits is two functions, begin_batch and
-- finish_wait, with the other tasks' calls between them), Cache/File is the file of the cache.
-- Message is common/src/protocol_utils.rs: write_message, read_message, the answer to a request for
-- chunks and the check of a response; Message/Provide is the loop provide_chunks_as_requested, and
-- Message/Batch is fetch_chunk_batch with the loop of get_chunk: the other side is a function of
-- what it is sent, and what other tasks do to the shared cache meanwhile is a parameter.
--
-- Dsp/Lz4 is dsp-nebula-cacher/src/lz4_frame_encoder.rs, with what reconstruct_lz4_data sends.
-- Dsp/Nebula is dsp-nebula-cacher/src/nebula_protocol and the indicator of its protocol.rs. Dsp/Proxy
-- is dsp-nebula-cacher/src/proxy: a loop over a websocket takes the frames that arrive and the error
-- that ends them, and gives the frames it writes. Dsp/Proxy/Streams has the registration of a
-- packet's stream, its indicator, and the stream that the client opens as steps in any order, with
-- those of a task that fails.
--
-- Factorio/Datagram is factorio-cacher/src/protocol.rs, and Factorio/Protocol is
-- factorio-cacher/src/factorio_protocol.rs with the `BufExt` of common/src/utils.rs. Factorio/Client and Factorio/Server are `ClientProxyState` and
-- `ServerProxyState` of factorio-cacher/src/proxy: a handler takes the time and the packets so far,
-- and gives the new state and the packets to send. Factorio/Server/Transfer and
-- Factorio/Client/Transfer are the two tasks transfer_world_data beside them, which meet in
-- Factorio/World, that is factorio-cacher/src/factorio_world.rs, over Factorio/Zip and
-- Factorio/RevCrc, that are zip_writer.rs and rev_crc.rs. What a task has sent stays sent when it
-- fails, so a run of the client's task is its pieces and an Outcome.
--
-- A call that can fail is an Outcome (Base/Results): a value, an error, a panic (a slice out of bounds is one, Base/Slice), or `stuck`, which
-- is no outcome of the program and stands for a loop of the model without fuel. Numbers are native
-- with their wrap-around written out; a HashMap is the history of its insertions (Base/HashMap), a
-- BTreeSet the list of its members in order (Base/SortedSet). What is not in the repository is a
-- parameter with its documented behaviour as laws, each with an instance that meets them: byte
-- buffers, quinn's variable-length integers, xxHash, BLAKE3, the CRC, deflate, the search of memchr
-- and the linked map (Extern); the zip reader, the LZ4 decoder, the encoding of messages, and a
-- product of floating-point numbers are functions with no law.
--
-- Bounds and fuel: `evict` has as much fuel as entries, `request_next_blocks` as queued blocks,
-- `build_blocks` as pending bytes, the loop of `chunk_data` as levels, since each turn of these
-- loops takes one away. The loop that answers requests has as much fuel as bytes, copy_with_dedup as
-- frames. reconstruct_data and prefetch_metadata_chunks take the tree's depth.
-- get_chunk takes its turns as fuel: one more than keys are pending is enough.
--
-- Not modelled: what only moves bytes or sets things up (sockets, QUIC, handshakes, UPnP, command
-- lines, logging). serde and zstd, which wrap messages and files, are functions that the definitions
-- take.
pub mod Base
pub mod Extern
pub mod Dsp
pub mod Chunker
pub mod Dedup
pub mod Cache
pub mod Factorio
pub mod Message
