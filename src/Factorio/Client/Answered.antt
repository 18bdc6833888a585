-- ===== src/Factorio/Client/Answered.antt =====
-- factorio-cacher/src/proxy/client_proxy.rs: a request of the game's client, and the data that it
-- waits for.
use factory_cacher.Base.{
  ℕ, ◌≡◌, refl, sym, ap, ◌∙◌, ◌⊎◌, inl, inr, true, some, List, [], ◌∷◌, ◌++◌, append_assoc, ok,
  Option-cases, Bool-cases, ltb, ◌==◌, ==_iff,
}
use factory_cacher.Base.SortedSet
use factory_cacher.Base.SortedSet.Laws.{insert-Increasing}
use factory_cacher.Base.Words.{Bytes}
use factory_cacher.Extern.ByteBuf.{ByteBuf}
use factory_cacher.Factorio.Protocol.{
  Header, TransferBlock, decode_header, decode_request, is_transfer_block_request,
}
use factory_cacher.Factorio.Protocol.RoundTrip.{wire_block, full_block-wire_block}
use factory_cacher.Factorio.Client.{
  State, Packets, to_client, on_packet_from_client, on_header, on_request, on_block_request,
  on_new_world_data,
}
use factory_cacher.Factorio.Client.Blocks.{block_at, try_fulfill-block_at}
use factory_cacher.Factorio.Client.Requests.{IsValid, answers, on_new_world_data_lem}
use factory_cacher.Factorio.Client.Stable.{block_at-append}

-- The packets with more of them behind, among which there is one with the block.
abbrev pub Sends : TransferBlock → Packets → Packets → Type 0
Sends block out out' =
    (before : Packets) × (after : Packets) × (out'
      ≡ out ++ (before ++ (wire_block block, to_client) ∷ after))

same_block : (a b : TransferBlock) → some a ≡ some b → a ≡ b
same_block a b h = cc

abbrev Has : ℕ → List ℕ → Type 0
Has id [] = ⊥
Has id (x ∷ xs) = (id ≡ x) ⊎ Has id xs

Has-insert : (id : ℕ) (xs : List ℕ) → Has id (SortedSet.insert id xs)
unfolding SortedSet.insert
Has-insert id [] = inl refl
Has-insert id (x ∷ xs) = elim (Bool-cases (id == x)) [
  | inl same ↦ rw same (inl ((==_iff id x).0 same))
  | inr other ↦ elim (Bool-cases (ltb id x)) [
    | inl below ↦ rw (other, below) (inl refl)
    | inr above ↦ rw (other, above) (inr (Has-insert id xs))
  ]
]

answers-Has :
    (world_data : Bytes) (id : ℕ) (block : TransferBlock) (ids : List ℕ)
    → Has id ids
    → block_at world_data id ≡ some block
    → Sends block [] (answers world_data ids)
unfolding answers
answers-Has world_data id block [] has there = absurd has
answers-Has world_data id block (x ∷ xs) (inl same) there =
    rw (← same, there, answers) ([], answers world_data xs, refl)
answers-Has world_data id block (x ∷ xs) (inr later) there =
    let (before, after, is) = answers-Has world_data id block xs later there in
    elim (Option-cases (block_at world_data x)) [
      | inl nothing ↦ rw (nothing, answers) (before, after, is)
      | inr (other, found) ↦
          rw (found, answers)
            (
              (wire_block other, to_client) ∷ before,
              after,
              ap (◌∷◌ (wire_block other, to_client)) is,
            )
    ]

module _ (io : ByteBuf) where
  on_block_request-answered :
      (now now' : ℕ) (s : State) (id : ℕ) (new_data : Bytes) (block : TransferBlock) (out : Packets)
      → IsValid s
      → block_at (s.world_data ++ new_data) id ≡ some block
      → (s1 : State) × (out1 : Packets) × (s2 : State) × (out2 : Packets) × (on_block_request io now
            s id out
          ≡ ok (s1, out1))
        × (on_new_world_data io now' s1 (some new_data) out1 ≡ ok (s2, out2))
        × Sends block out out2
  unfolding on_block_request
  on_block_request-answered now now' s id new_data block out valid reached =
      elim (Option-cases (block_at s.world_data id)) [
        | inl none_yet ↦
            let s1 : State = record s {
              pending_requests = SortedSet.insert id s.pending_requests;
              last_block_request = now;
            } in
            let (before, after, is) =
              answers-Has (s.world_data ++ new_data) id block s1.pending_requests
                (Has-insert id s.pending_requests) reached in
            rw (try_fulfill-block_at s.world_data id, none_yet, on_block_request)
              (
                s1,
                out,
                _,
                _,
                refl,
                on_new_world_data_lem io now' s1 new_data out (record {
                  pending_IsSet = insert-Increasing id s.pending_requests valid.pending_IsSet;
                  swap_empty = valid.swap_empty;
                }),
                (before, after, ap (◌++◌ out) is),
              )
        | inr (now_there, found) ↦
            let s1 : State = record s { last_block_request = now } in
            let same : now_there ≡ block =
              same_block now_there block
                (sym (block_at-append s.world_data new_data id now_there found) ∙ reached) in
            rw
              (
                try_fulfill-block_at s.world_data id,
                found,
                on_block_request,
                full_block-wire_block io now_there,
              )
              (
                s1,
                out ++ (wire_block now_there, to_client) ∷ [],
                _,
                _,
                refl,
                on_new_world_data_lem io now' s1 new_data
                    (out ++ (wire_block now_there, to_client) ∷ [])
                    (record { pending_IsSet = valid.pending_IsSet; swap_empty = valid.swap_empty }),
                (
                  [],
                  answers (s.world_data ++ new_data) s.pending_requests,
                  rw same (
                      append_assoc out ((wire_block block, to_client) ∷ [])
                        (answers (s.world_data ++ new_data) s.pending_requests)),
                ),
              )
      ]

  -- When the requests that wait are a set in order, and the spare set is empty: a packet that reads
  -- as a request for a block is handled with no panic, and when the next data of the world reaches
  -- to the end of the block, then after it the block has been sent, if not at once then with the
  -- new data.
  pub request-answered :
      (now now' : ℕ) (s : State) (packet msg_data new_data : Bytes) (header : Header) (id : ℕ)
      (block : TransferBlock) (out : Packets)
      → IsValid s
      → decode_header io packet ≡ ok (header, msg_data)
      → is_transfer_block_request header.packet_type ≡ true
      → decode_request io msg_data ≡ ok id
      → block_at (s.world_data ++ new_data) id ≡ some block
      → (s1 : State) × (out1 : Packets) × (s2 : State) × (out2 : Packets) × (on_packet_from_client
            io now s packet out
          ≡ ok (s1, out1))
        × (on_new_world_data io now' s1 (some new_data) out1 ≡ ok (s2, out2))
        × Sends block out out2
  unfolding on_packet_from_client on_header on_request
  request-answered now now' s packet msg_data new_data header id block out valid read asks asked
        reached =
      rw (read, asks, asked)
        (on_block_request-answered now now' s id new_data block out valid reached)
