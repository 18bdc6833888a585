-- ===== src/Factorio/Server/Progress.antt =====
-- factorio-cacher/src/proxy/server_proxy.rs: each packet that reaches `ServerProxyState`.
use factory_cacher.Base.{
  ℕ, ◌-◌, ◌≡◌, refl, subst, Bool, true, false, List, [], ◌∷◌, ◌++◌, ltb, is_empty, Outcome, ok, err,
  panic, stuck, Bool-cases, Option-cases, inl, inr, arith, ◌&&◌,
}
use factory_cacher.Base.Words.{Bytes}
use factory_cacher.Extern.ByteBuf.{ByteBuf}
use factory_cacher.Extern.Finder.{Finder}
use factory_cacher.Factorio.Protocol.{
  TransferBlock, Header, decode_header, decode_block, is_transfer_block,
}
use factory_cacher.Factorio.Protocol.RoundTrip.{full_request-wire_request, wire_request}
use factory_cacher.Factorio.Protocol.NoPanic.{NoPanic, decode_header-NoPanic, decode_block-NoPanic}
use factory_cacher.Factorio.Client.{Packets, to_server}
use factory_cacher.Factorio.Server.{
  Downloading, State, Phase, waiting_for_world, downloading_world, all_done, receive_block,
  request_again, on_transfer_block, on_other_packet, on_packet_from_server, on_waiting,
  on_world_info, on_block, on_downloading, finalize_world, total_block_count, find_world_info,
}
use factory_cacher.Factorio.Server.Download.{
  request_next_blocks-Requests, receive_block-IsValid, later-IsValid, receive_block-world, complete,
}
use factory_cacher.Factorio.Server.WellFormed.{
  DownloadIsValid, PhaseIsValid, FilterIsValid, IsWellFormed, Proceeds, same_world-IsValid,
  forward-Proceeds, transition-Proceeds,
}

and-true : (a b : Bool) → (a && b) ≡ true → (a ≡ true) × (b ≡ true)
and-true a b h = ground arith

module _ (io : ByteBuf) (finder : Finder) (estimate : ℕ → ℕ) where
  on_transfer_block-Proceeds :
      (now : ℕ) (s : State) (state : Downloading) (block : TransferBlock) (out : Packets)
      → s.comp_stream ≡ true
      → s.spawned ≡ []
      → FilterIsValid s.packet_filter
      → DownloadIsValid state
      → Proceeds (on_transfer_block io finder estimate now s state block out)
  unfolding on_transfer_block finalize_world PhaseIsValid
  on_transfer_block-Proceeds now s state block out there none_yet filter valid =
      let state1 = receive_block now state block in
      let world = receive_block-world now state block in
      let valid1 : DownloadIsValid state1 =
        same_world-IsValid state1 state.world_info world
          (receive_block-IsValid (total_block_count state.world_info) now state block valid) in
      elim (Bool-cases
        (is_empty state1.block_request_queue && is_empty state1.inflight_block_requests)) [
          | inl finished ↦
              let both = and-true _ _ finished in
              rw (finished, there)
                (
                  record s {
                    phase = all_done;
                    comp_stream = false;
                    spawned = s.spawned ++ state1 ∷ [];
                  },
                  out,
                  refl,
                  (
                    (
                      state1,
                      rw none_yet refl,
                      complete (total_block_count state1.world_info) state1 valid1 both.0 both.1,
                    ),
                    filter,
                  ),
                )
          | inr more ↦
              let asked =
                request_next_blocks-Requests io finder estimate
                  (total_block_count state1.world_info) state1 out valid1 in
              rw (more, asked.run)
                (
                  record s { phase = downloading_world asked.state' },
                  asked.out',
                  refl,
                  (
                    (
                      there,
                      (
                        none_yet,
                        same_world-IsValid asked.state' state1.world_info asked.same_world
                            asked.valid,
                      ),
                    ),
                    filter,
                  ),
                )
        ]

  request_again-ok :
      (ids : List ℕ) (out : Packets)
      → (out' : Packets) × (request_again io finder estimate ids out ≡ ok out')
  unfolding request_again
  request_again-ok [] out = (out, refl)
  request_again-ok (id ∷ ids) out =
      rw (full_request-wire_request io id)
        (request_again-ok ids (out ++ (wire_request id, to_server) ∷ []))

  on_other_packet-Proceeds :
      (now : ℕ) (s : State) (state : Downloading) (packet : Bytes) (out : Packets)
      → s.phase ≡ downloading_world state
      → s.comp_stream ≡ true
      → s.spawned ≡ []
      → FilterIsValid s.packet_filter
      → DownloadIsValid state
      → Proceeds (on_other_packet io finder estimate now s state packet out)
  unfolding on_other_packet PhaseIsValid
  on_other_packet-Proceeds now s state packet out phase there none_yet filter valid =
      elim (Bool-cases (ltb 100 (now - state.last_block_time))) [
        | inl late ↦
            let (out1, again) = request_again-ok state.inflight_block_requests out in
            let asked =
              request_next_blocks-Requests io finder estimate (total_block_count state.world_info)
                state out1 valid in
            let s1 : State = record s {
              phase = downloading_world (record asked.state' { last_block_time = now });
            } in
            rw (late, again, asked.run)
              (forward-Proceeds io finder estimate now s1 packet asked.out' (
                (
                  there,
                  (
                    none_yet,
                    same_world-IsValid (record asked.state' { last_block_time = now })
                        state.world_info asked.same_world
                        (later-IsValid (total_block_count state.world_info) now asked.state'
                          asked.valid),
                  ),
                ),
                filter,
              ))
        | inr early ↦ rw early (
            forward-Proceeds io finder estimate now s packet out
              (rw phase (there, (none_yet, valid)), filter))
      ]

  on_waiting-Proceeds :
      (now : ℕ) (s : State) (packet : Bytes) (out : Packets) (r : Outcome (Header × Bytes))
      → s.comp_stream ≡ true
      → s.spawned ≡ []
      → FilterIsValid s.packet_filter
      → IsWellFormed s
      → NoPanic r
      → Proceeds (on_waiting io finder estimate now s packet out r)
  unfolding on_waiting on_world_info
  on_waiting-Proceeds now s packet out (ok (header, msg_data)) there none_yet filter h fine =
      elim (Option-cases (find_world_info io finder estimate header msg_data)) [
        | inl nothing ↦ rw nothing (forward-Proceeds io finder estimate now s packet out h)
        | inr (world_info, found) ↦
            rw found
              (transition-Proceeds io finder estimate now s packet world_info out there none_yet)
      ]
  on_waiting-Proceeds now s packet out (err e) there none_yet filter h fine =
      forward-Proceeds io finder estimate now s packet out h
  on_waiting-Proceeds now s packet out panic there none_yet filter h fine = absurd fine
  on_waiting-Proceeds now s packet out stuck there none_yet filter h fine = absurd fine

  on_block-Proceeds :
      (now : ℕ) (s : State) (state : Downloading) (out : Packets) (r : Outcome TransferBlock)
      → s.comp_stream ≡ true
      → s.spawned ≡ []
      → FilterIsValid s.packet_filter
      → IsWellFormed s
      → DownloadIsValid state
      → NoPanic r
      → Proceeds (on_block io finder estimate now s state out r)
  unfolding on_block
  on_block-Proceeds now s state out (ok block) there none_yet filter h valid fine =
      on_transfer_block-Proceeds now s state block out there none_yet filter valid
  on_block-Proceeds now s state out (err e) there none_yet filter h valid fine = (s, out, refl, h)
  on_block-Proceeds now s state out panic there none_yet filter h valid fine = absurd fine
  on_block-Proceeds now s state out stuck there none_yet filter h valid fine = absurd fine

  on_downloading-Proceeds :
      (now : ℕ) (s : State) (state : Downloading) (packet : Bytes) (out : Packets)
      (r : Outcome (Header × Bytes))
      → s.phase ≡ downloading_world state
      → s.comp_stream ≡ true
      → s.spawned ≡ []
      → FilterIsValid s.packet_filter
      → DownloadIsValid state
      → NoPanic r
      → Proceeds (on_downloading io finder estimate now s state packet out r)
  unfolding on_downloading PhaseIsValid
  on_downloading-Proceeds now s state packet out (ok (header, msg_data)) e there none_yet filter
        valid fine =
      elim (Bool-cases (is_transfer_block header.packet_type)) [
        | inl block ↦ rw block (
            on_block-Proceeds now s state out (decode_block io msg_data) there none_yet filter
              (rw e (there, (none_yet, valid)), filter) valid (decode_block-NoPanic io msg_data))
        | inr other ↦
            rw other (on_other_packet-Proceeds now s state packet out e there none_yet filter valid)
      ]
  on_downloading-Proceeds now s state packet out (err x) e there none_yet filter valid fine =
      on_other_packet-Proceeds now s state packet out e there none_yet filter valid
  on_downloading-Proceeds now s state packet out panic e there none_yet filter valid fine =
      absurd fine
  on_downloading-Proceeds now s state packet out stuck e there none_yet filter valid fine =
      absurd fine

  -- From a well-formed state, whatever packet arrives and whenever, with a search that finds a needle
  -- only within the packet, the call returns, with no panic, a state that is well formed: the
  -- download counts each block of the world once and has at most 16 of them under way, what is
  -- handed on when it ends has every block, and the filter puts as many bytes as it takes.
  pub on_packet_from_server-Proceeds :
      (now : ℕ) (s : State) (packet : Bytes) (out : Packets)
      → IsWellFormed s
      → Proceeds (on_packet_from_server io finder estimate now s packet out)
  unfolding on_packet_from_server PhaseIsValid
  on_packet_from_server-Proceeds now s packet out h = by_phase s.phase refl
    where
      by_phase :
          (p : Phase)
          → s.phase ≡ p
          → Proceeds (on_packet_from_server io finder estimate now s packet out)
      by_phase waiting_for_world e =
          let (there, none_yet) =
            subst (λ (q : Phase). PhaseIsValid q s.comp_stream s.spawned) e h.0 in
          rw (e, on_packet_from_server)
            (on_waiting-Proceeds now s packet out (decode_header io packet) there none_yet h.1 h
              (decode_header-NoPanic io packet))
      by_phase (downloading_world state) e =
          let (there, (none_yet, valid)) =
            subst (λ (q : Phase). PhaseIsValid q s.comp_stream s.spawned) e h.0 in
          rw (e, on_packet_from_server)
            (on_downloading-Proceeds now s state packet out (decode_header io packet) e there
              none_yet h.1 valid (decode_header-NoPanic io packet))
      by_phase all_done e =
          rw (e, on_packet_from_server) (forward-Proceeds io finder estimate now s packet out h)
