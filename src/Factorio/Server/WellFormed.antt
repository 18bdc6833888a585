-- ===== src/Factorio/Server/WellFormed.antt =====
-- factorio-cacher/src/proxy/server_proxy.rs: the state of `ServerProxyState` between two
-- packets, and a call that only forwards the packet or starts the download.
use factory_cacher.Base.{
  ap, ℕ, ◌-◌, ◌≡◌, refl, sym, subst, Bool, true, none, some, List, [], ◌∷◌, ◌++◌, ltb,
  if◌then◌else◌, Outcome, ok, Option-cases, inl, inr, Option, Bool-cases, is_empty, false, length,
  take, drop, ◌+◌, ◌≤◌, ◌∙◌, All, arith, length-append, length-take, length-drop, le→leb, ==_iff,
}
use factory_cacher.Base.SortedSet
use factory_cacher.Base.Words.{Bytes, le_bytes, length-le_bytes}
use factory_cacher.Extern.ByteBuf.{ByteBuf}
use factory_cacher.Extern.Finder.{Finder}
use factory_cacher.Factorio.Protocol.{encode_metadata, WorldMetadata}
use factory_cacher.Factorio.Client.{Packets, to_client}
use factory_cacher.Factorio.Server
use factory_cacher.Factorio.Server.{
  Downloading, State, Filtering, overwrite, replace_all, Phase, waiting_for_world,
  downloading_world, all_done, request_next_blocks, receive_block, request_again, filter_packet,
  forward, transition_to_downloading_world, on_transfer_block, on_other_packet,
  on_packet_from_server, on_waiting, on_world_info, on_block, on_downloading, finalize_world,
  total_block_count, block_count, find_world_info,
}
use factory_cacher.Factorio.Server.Download.{
  IsValid, request_next_blocks-Requests, start-IsValid, Complete,
}

-- A download of the world that its description promises.
abbrev pub DownloadIsValid : Downloading → Type 0
DownloadIsValid state = IsValid (total_block_count state.world_info) state

-- What holds of the phase, of whether the streams are there and of the downloads handed on.
unfoldable pub PhaseIsValid : Phase → Bool → List Downloading → Type 0
PhaseIsValid waiting_for_world there spawned = (there ≡ true) × (spawned ≡ [])
PhaseIsValid (downloading_world state) there spawned =
    (there ≡ true) × ((spawned ≡ []) × DownloadIsValid state)
PhaseIsValid all_done there spawned =
    (state : Downloading) × (spawned ≡ state ∷ [])
    × Complete (total_block_count state.world_info) state

-- A filter replaces a needle by as many bytes.
abbrev pub SameLength : Filtering → Type 0
SameLength f = length f.needle ≡ length f.replace_with

unfoldable pub FilterIsValid : Option Filtering → Type 0
FilterIsValid none = Unit
FilterIsValid (some f) = SameLength f

-- What holds of the state between two packets.
abbrev pub IsWellFormed : State → Type 0
IsWellFormed s = PhaseIsValid s.phase s.comp_stream s.spawned × FilterIsValid s.packet_filter

pub new-IsWellFormed : IsWellFormed Server.new
unfolding Server.new PhaseIsValid FilterIsValid
new-IsWellFormed = ((refl, refl), tt)

-- A call that returns, with a state that is well formed.
abbrev pub Proceeds : Outcome (State × Packets) → Type 0
Proceeds r = (s' : State) × (out' : Packets) × (r ≡ ok (s', out')) × IsWellFormed s'

pub same_world-IsValid :
    (state : Downloading) (world_info : WorldMetadata)
    → state.world_info ≡ world_info
    → IsValid (total_block_count world_info) state
    → DownloadIsValid state
same_world-IsValid state world_info e valid =
    subst (λ (w : WorldMetadata). IsValid (total_block_count w) state) (sym e) valid

-- Bytes that are overwritten within a packet leave its length.
overwrite-ok :
    (packet : Bytes) (pos size : ℕ) (with_bytes : Bytes)
    → pos + size ≤ length packet
    → size ≡ length with_bytes
    → (packet' : Bytes) × (overwrite packet pos size with_bytes ≡ ok packet')
      × (length packet' ≡ length packet)
unfolding overwrite
overwrite-ok packet pos size with_bytes within same =
    rw (le→leb (pos + size) (length packet) within, (==_iff size (length with_bytes)).1 same)
      (
        take pos packet ++ (with_bytes ++ drop (pos + size) packet),
        refl,
        omega (
          arith,
          length-append (take pos packet) (with_bytes ++ drop (pos + size) packet),
          length-append with_bytes (drop (pos + size) packet),
          length-take pos packet,
          length-drop (pos + size) packet,
        ),
      )

replace_all-ok :
    (packet : Bytes) (size : ℕ) (places : List ℕ) (with_bytes : Bytes)
    → All (λ pos. pos + size ≤ length packet) places
    → size ≡ length with_bytes
    → (packet' : Bytes) × (replace_all packet size places with_bytes ≡ ok packet')
unfolding replace_all
replace_all-ok packet size [] with_bytes within same = (packet, refl)
replace_all-ok packet size (pos ∷ places) with_bytes within same =
    let (packet1, run, long) = overwrite-ok packet pos size with_bytes within.0 same in
    let (packet2, rest) = replace_all-ok packet1 size places with_bytes (rw long within.1) same in
    (packet2, rw run rest)

kept :
    (late : Bool) (filtering : Filtering)
    → SameLength filtering
    → FilterIsValid (if late then none else some filtering)
unfolding FilterIsValid
kept true filtering same = tt
kept false filtering same = same

length-put_le : (io : ByteBuf) (w x : ℕ) (b : Bytes) → length (io.put_le w x b) ≡ length b + w
length-put_le io w x b =
    ap length (io.put_le_lem w x b)
    ∙ omega (arith, length-append b (le_bytes w x), length-le_bytes w x)

length-encode_metadata : (io : ByteBuf) (m : WorldMetadata) → length (encode_metadata io m []) ≡ 20
unfolding encode_metadata
length-encode_metadata io m = simp (length-put_le io) refl

module _ (io : ByteBuf) (finder : Finder) (estimate : ℕ → ℕ) where
  -- A filter works on every packet, and replaces the same bytes afterwards.
  pub filter_packet-ok :
      (now : ℕ) (filtering : Filtering) (packet : Bytes)
      → SameLength filtering
      → (filtering' : Filtering) × (packet' : Bytes) × (filter_packet io finder estimate now
            filtering packet
          ≡ ok (filtering', packet'))
        × SameLength filtering'
  unfolding filter_packet
  filter_packet-ok now filtering packet same =
      elim (Bool-cases (is_empty (finder.find_all filtering.needle packet))) [
        | inl nothing ↦ rw nothing (filtering, packet, refl, same)
        | inr something ↦
            let (packet', run) =
              replace_all-ok packet (length filtering.needle)
                (finder.find_all filtering.needle packet) filtering.replace_with
                (finder.find_all-within filtering.needle packet) same in
            rw (something, run) (record filtering { last_replace = now }, packet', refl, same)
      ]

  pub forward-Proceeds :
      (now : ℕ) (s : State) (packet : Bytes) (out : Packets)
      → IsWellFormed s
      → Proceeds (forward io finder estimate now s packet out)
  unfolding forward FilterIsValid
  forward-Proceeds now s packet out h = elim (Option-cases s.packet_filter) [
    | inl no_filter ↦ rw (no_filter, forward) (s, out ++ (packet, to_client) ∷ [], refl, h)
    | inr (filtering, there) ↦
        let (filtering', packet', run, same) =
          filter_packet-ok now filtering packet
            (subst (λ (f : Option Filtering). FilterIsValid f) there h.1) in
        let late = ltb 30000 (now - filtering'.last_replace) in
        let s' : State = record s { packet_filter = if late then none else some filtering' } in
        rw (there, forward, run)
          (s', out ++ (packet', to_client) ∷ [], refl, (h.0, kept late filtering' same))
  ]

  pub transition-Proceeds :
      (now : ℕ) (s : State) (packet : Bytes) (world_info : WorldMetadata) (out : Packets)
      → s.comp_stream ≡ true
      → s.spawned ≡ []
      → Proceeds (transition_to_downloading_world io finder estimate now s packet world_info out)
  unfolding transition_to_downloading_world PhaseIsValid FilterIsValid
  transition-Proceeds now s packet world_info out there none_yet =
      let new_info : WorldMetadata = record world_info {
        world_size = estimate world_info.world_size;
      } in
      let (filtering', packet', filtered, same) =
        filter_packet-ok now
          (record {
            needle = encode_metadata io world_info [];
            replace_with = encode_metadata io new_info [];
            last_replace = now;
          })
          packet
          (length-encode_metadata io world_info ∙ sym (length-encode_metadata io new_info)) in
      let state : Downloading = record {
        world_info = world_info;
        new_world_info = new_info;
        world_block_count = block_count world_info.world_size;
        download_start_time = now;
        received_blocks = [];
        block_request_queue = SortedSet.range 0 (total_block_count world_info);
        inflight_block_requests = [];
        last_block_time = now;
      } in
      let asked =
        request_next_blocks-Requests io finder estimate (total_block_count world_info) state
          (out ++ (packet', to_client) ∷ [])
          (start-IsValid (total_block_count world_info) state refl refl refl) in
      rw (filtered, asked.run)
        (
          record s { phase = downloading_world asked.state'; packet_filter = some filtering' },
          asked.out',
          refl,
          (
            (
              there,
              (none_yet, same_world-IsValid asked.state' world_info asked.same_world asked.valid),
            ),
            same,
          ),
        )
