-- ===== src/Factorio/Client/Valid.antt =====
-- factorio-cacher/src/proxy/client_proxy.rs: the state of `ClientProxyState` between two calls.
use factory_cacher.Base.{
  ℕ, ◌-◌, not, ◌&&◌, ltb, is_empty, ◌≡◌, refl, true, Option, none, some, [], ◌∷◌, ◌++◌, Outcome, ok,
  err, panic, stuck, Bool-cases, Option-cases, inl, inr,
}
use factory_cacher.Base.SortedSet
use factory_cacher.Base.SortedSet.Laws.{insert-Increasing}
use factory_cacher.Base.Words.{Bytes}
use factory_cacher.Extern.ByteBuf.{ByteBuf}
use factory_cacher.Factorio.Protocol.{
  Header, decode_header, decode_request, is_transfer_block_request,
}
use factory_cacher.Factorio.Protocol.NoPanic.{
  NoPanic, decode_header-NoPanic, decode_request-NoPanic,
}
use factory_cacher.Factorio.Protocol.RoundTrip.{wire_block, full_block-wire_block}
use factory_cacher.Factorio.Client.Blocks.{block_at, try_fulfill-block_at}
use factory_cacher.Factorio.Client.{
  State, Packets, world_data_timeout, to_client, to_server, clean_up, pass_on, on_block_request,
  on_request, on_header, on_packet_from_client, on_new_world_data,
}
use factory_cacher.Factorio.Client.Requests.{IsValid, on_new_world_data_lem, unanswered-Increasing}

-- A call that returns, with a valid state.
abbrev pub Proceeds : Outcome (State × Packets) → Type 0
Proceeds r = (s' : State) × (out' : Packets) × (r ≡ ok (s', out')) × IsValid s'

clean_up-IsValid : (now : ℕ) (s : State) → IsValid s → IsValid (clean_up now s)
unfolding clean_up
clean_up-IsValid now s valid =
    elim (Bool-cases (
      not (is_empty s.world_data)
      && s.world_data_done
      && ltb world_data_timeout (now - s.last_block_request))) [
        | inl old ↦
            rw old (record { pending_IsSet = valid.pending_IsSet; swap_empty = valid.swap_empty })
        | inr young ↦ rw young valid
      ]

module _ (io : ByteBuf) where
  pass_on-Proceeds :
      (now : ℕ) (s : State) (packet : Bytes) (out : Packets)
      → IsValid s
      → Proceeds (pass_on io now s packet out)
  unfolding pass_on
  pass_on-Proceeds now s packet out valid =
      (clean_up now s, out ++ (packet, to_server) ∷ [], refl, clean_up-IsValid now s valid)

  on_block_request-Proceeds :
      (now : ℕ) (s : State) (id : ℕ) (out : Packets)
      → IsValid s
      → Proceeds (on_block_request io now s id out)
  unfolding on_block_request
  on_block_request-Proceeds now s id out valid = elim (Option-cases (block_at s.world_data id)) [
    | inl none_yet ↦
        rw (try_fulfill-block_at s.world_data id, none_yet, on_block_request)
          (
            record s {
              pending_requests = SortedSet.insert id s.pending_requests;
              last_block_request = now;
            },
            out,
            refl,
            record {
              pending_IsSet = insert-Increasing id s.pending_requests valid.pending_IsSet;
              swap_empty = valid.swap_empty;
            },
          )
    | inr (block, found) ↦
        rw
          (
            try_fulfill-block_at s.world_data id,
            found,
            on_block_request,
            full_block-wire_block io block,
          )
          (
            record s { last_block_request = now },
            out ++ (wire_block block, to_client) ∷ [],
            refl,
            record { pending_IsSet = valid.pending_IsSet; swap_empty = valid.swap_empty },
          )
  ]

  on_request-Proceeds :
      (now : ℕ) (s : State) (packet : Bytes) (out : Packets) (r : Outcome ℕ)
      → IsValid s
      → NoPanic r
      → Proceeds (on_request io now s packet out r)
  unfolding on_request
  on_request-Proceeds now s packet out (ok id) valid fine =
      on_block_request-Proceeds now s id out valid
  on_request-Proceeds now s packet out (err e) valid fine = pass_on-Proceeds now s packet out valid
  on_request-Proceeds now s packet out panic valid fine = absurd fine
  on_request-Proceeds now s packet out stuck valid fine = absurd fine

  on_header-Proceeds :
      (now : ℕ) (s : State) (packet : Bytes) (out : Packets) (r : Outcome (Header × Bytes))
      → IsValid s
      → NoPanic r
      → Proceeds (on_header io now s packet out r)
  unfolding on_header
  on_header-Proceeds now s packet out (ok (header, msg_data)) valid fine =
      elim (Bool-cases (is_transfer_block_request header.packet_type)) [
        | inl request ↦ rw request (
            on_request-Proceeds now s packet out (decode_request io msg_data) valid
              (decode_request-NoPanic io msg_data))
        | inr other ↦ rw other (pass_on-Proceeds now s packet out valid)
      ]
  on_header-Proceeds now s packet out (err e) valid fine = pass_on-Proceeds now s packet out valid
  on_header-Proceeds now s packet out panic valid fine = absurd fine
  on_header-Proceeds now s packet out stuck valid fine = absurd fine

  -- When the requests that wait are a set in order, and the spare set is empty, a packet of the
  -- client, whatever its bytes, is handled with no panic, and the two sets stay so.
  pub on_packet_from_client-Proceeds :
      (now : ℕ) (s : State) (packet : Bytes) (out : Packets)
      → IsValid s
      → Proceeds (on_packet_from_client io now s packet out)
  unfolding on_packet_from_client
  on_packet_from_client-Proceeds now s packet out valid =
      on_header-Proceeds now s packet out (decode_header io packet) valid
        (decode_header-NoPanic io packet)

  -- When the requests that wait are a set in order, and the spare set is empty, new data of the
  -- world, or its end, is handled with no panic, and the two sets stay so.
  pub on_new_world_data-Proceeds :
      (now : ℕ) (s : State) (new_data : Option Bytes) (out : Packets)
      → IsValid s
      → Proceeds (on_new_world_data io now s new_data out)
  unfolding on_new_world_data
  on_new_world_data-Proceeds now s none out valid = (
    record s { world_data_done = true; last_block_request = now },
    out,
    refl,
    record { pending_IsSet = valid.pending_IsSet; swap_empty = valid.swap_empty },
  )
  on_new_world_data-Proceeds now s (some new_data) out valid = (
    _,
    _,
    on_new_world_data_lem io now s new_data out valid,
    record {
      pending_IsSet =
          unanswered-Increasing (s.world_data ++ new_data) s.pending_requests valid.pending_IsSet;
      swap_empty = refl;
    },
  )
