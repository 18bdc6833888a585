-- ===== src/Factorio/Server/Download.antt =====
-- factorio-cacher/src/proxy/server_proxy.rs: the blocks of a download, and where each of them is:
-- queued, under way or received.
use factory_cacher.Base.{
  ℕ, zero, suc, ◌+◌, ◌≤◌, ◌<◌, ◌≡◌, refl, ap, Bool, true, false, List, [], ◌∷◌, ◌++◌, map, ltb,
  ◌==◌, if◌then◌else◌, length, Outcome, ok, Bool-cases, inl, inr, ◌⊎◌, List-cases, is_empty,
  is_empty→nil, arith, ltb→lt, ltb-false→le, sym, ◌∙◌, append-nil, append_assoc,
}
use factory_cacher.Base.SortedSet
use factory_cacher.Base.SortedSet.Laws.{
  count, count-cons, count-cons_self, count-insert, count-remove_found, count-range_zero,
  length-insert, length-remove,
}
use factory_cacher.Base.Words.{Bytes}
use factory_cacher.Extern.ByteBuf.{ByteBuf}
use factory_cacher.Extern.Finder.{Finder}
use factory_cacher.Factorio.Protocol.{TransferBlock}
use factory_cacher.Factorio.Protocol.RoundTrip.{full_request-wire_request, wire_request}
use factory_cacher.Factorio.Client.{Packets, Direction, to_server}
use factory_cacher.Factorio.Server.{
  Downloading, request_blocks, request_next_blocks, receive_block, inflight_block_request_limit,
}

abbrev pub block_id_of : TransferBlock → ℕ
block_id_of block = block.block_id

-- How often a block's number is in one of the three places of a download.
pub holds : Downloading → ℕ → ℕ
holds state id =
    count id state.block_request_queue
    + (count id state.inflight_block_requests + count id (map block_id_of state.received_blocks))

-- A download of `total` blocks: each block is in one place, and at most 16 are under way.
pub record IsValid (total : ℕ) (state : Downloading) : Type 0 where
  pub once : (id : ℕ) → holds state id ≡ (if ltb id total then 1 else 0)
  pub limit : length state.inflight_block_requests ≤ 16

-- A set with more members, one after the other.
abbrev pub insert_all : List ℕ → List ℕ → List ℕ
insert_all [] set = set
insert_all (id ∷ ids) set = insert_all ids (SortedSet.insert id set)

-- The packet that asks for a block.
abbrev pub request : ℕ → Bytes × Direction
request id = (wire_request id, to_server)

-- A result of `request_next_blocks` on a valid download: `asked` are the blocks that it takes from
-- the front of the queue and asks for, with one packet each.
pub record Requests (total : ℕ) (state : Downloading) (out : Packets)
    (r : Outcome (Downloading × Packets)) : Type 0 where
  pub state' : Downloading
  pub out' : Packets
  pub run : r ≡ ok (state', out')
  pub valid : IsValid total state'
  pub received : state'.received_blocks ≡ state.received_blocks
  pub same_world : state'.world_info ≡ state.world_info
  pub asked : List ℕ
  pub taken : state.block_request_queue ≡ asked ++ state'.block_request_queue
  pub under_way : state'.inflight_block_requests ≡ insert_all asked state.inflight_block_requests
  pub sent : out' ≡ out ++ map request asked
  pub full : (length state'.inflight_block_requests ≡ 16) ⊎ (state'.block_request_queue ≡ [])

one-at-most : (b : Bool) → (if b then 1 else 0) ≤ 1
one-at-most true = omega arith
one-at-most false = omega arith

-- Asking for the first block of the queue, with room for it.
ask-IsValid :
    (total : ℕ) (state : Downloading) (id : ℕ) (queue : List ℕ)
    → state.block_request_queue ≡ id ∷ queue
    → length state.inflight_block_requests < 16
    → IsValid total state
    → IsValid total (record state {
      block_request_queue = queue;
      inflight_block_requests = SortedSet.insert id state.inflight_block_requests;
    })
unfolding holds
ask-IsValid total state id queue is room valid =
    let fresh : count id state.inflight_block_requests ≡ 0 = omega (
      arith,
      valid.once id,
      ap (count id) is,
      count-cons_self id queue,
      one-at-most (ltb id total),
    ) in
    record {
      once = λ z. omega (
        arith,
        valid.once z,
        ap (count z) is,
        count-cons z id queue,
        count-insert id z state.inflight_block_requests fresh,
      );
      limit = omega (arith, length-insert id state.inflight_block_requests);
    }

-- The blocks of a download that has received all of its `total` blocks.
abbrev pub Complete : ℕ → Downloading → Type 0
Complete total state =
    (id : ℕ) → count id (map block_id_of state.received_blocks) ≡ (if ltb id total then 1 else 0)

pub complete :
    (total : ℕ) (state : Downloading)
    → IsValid total state
    → is_empty state.block_request_queue ≡ true
    → is_empty state.inflight_block_requests ≡ true
    → Complete total state
unfolding holds count
complete total state valid queue inflight id =
    let q = is_empty→nil state.block_request_queue queue in
    let i = is_empty→nil state.inflight_block_requests inflight in
    omega (arith, valid.once id, ap (count id) q, ap (count id) i)

-- A download that starts.
pub start-IsValid :
    (total : ℕ) (state : Downloading)
    → state.block_request_queue ≡ SortedSet.range 0 total
    → state.inflight_block_requests ≡ []
    → state.received_blocks ≡ []
    → IsValid total state
unfolding holds count
start-IsValid total state queue inflight received = record {
  once = λ id. omega (
    arith,
    ap (count id) queue,
    count-range_zero id total,
    ap (count id) inflight,
    ap (λ bs. count id (map block_id_of bs)) received,
  );
  limit = omega (arith, ap length inflight);
}

count-received :
    (z : ℕ) (block : TransferBlock) (blocks : List TransferBlock)
    → count z (map block_id_of (blocks ++ block ∷ []))
      ≡ count z (map block_id_of blocks) + (if z == block.block_id then 1 else 0)
unfolding count
count-received z block [] = omega arith
count-received z block (b ∷ blocks) = ground (arith, count-received z block blocks)

pub receive_block-IsValid :
    (total now : ℕ) (state : Downloading) (block : TransferBlock)
    → IsValid total state
    → IsValid total (receive_block now state block)
unfolding receive_block holds block_id_of
receive_block-IsValid total now state block valid =
    let id : ℕ = block.block_id in
    elim (Bool-cases (SortedSet.remove block.block_id state.inflight_block_requests).0) [
      | inl inflight ↦
          rw (inflight, receive_block)
            (record {
              once = λ z. omega (
                arith,
                valid.once z,
                count-received z block state.received_blocks,
                count-remove_found id z state.inflight_block_requests inflight,
              );
              limit = omega (arith, valid.limit, length-remove id state.inflight_block_requests);
            })
      | inr other ↦
          elim (Bool-cases (SortedSet.remove block.block_id state.block_request_queue).0) [
            | inl queued ↦
                rw (other, queued, receive_block)
                  (record {
                    once = λ z. omega (
                      arith,
                      valid.once z,
                      count-received z block state.received_blocks,
                      count-remove_found id z state.block_request_queue queued,
                    );
                    limit = valid.limit;
                  })
            | inr unknown ↦ rw (other, unknown, receive_block) valid
          ]
    ]

pub receive_block-world :
    (now : ℕ) (state : Downloading) (block : TransferBlock)
    → (receive_block now state block).world_info ≡ state.world_info
unfolding receive_block
receive_block-world now state block = ground arith

pub later-IsValid :
    (total now : ℕ) (state : Downloading)
    → IsValid total state
    → IsValid total (record state { last_block_time = now })
unfolding holds
later-IsValid total now state valid = record { once = valid.once; limit = valid.limit }

module _ (io : ByteBuf) (finder : Finder) (estimate : ℕ → ℕ) where
  request_blocks-Requests :
      (total fuel : ℕ) (state : Downloading) (out : Packets)
      → IsValid total state
      → length state.block_request_queue < fuel
      → Requests total state out (request_blocks io finder estimate fuel state out)
  unfolding request_blocks inflight_block_request_limit SortedSet.pop_first holds count
  request_blocks-Requests total zero state out valid h = absurd (omega arith)
  request_blocks-Requests total (suc fuel) state out valid h =
      elim (Bool-cases (ltb (length state.inflight_block_requests) inflight_block_request_limit)) [
        | inr full ↦
            rw (full, request_blocks)
              (record {
                state' = state;
                out' = out;
                run = refl;
                valid = valid;
                received = refl;
                same_world = refl;
                asked = [];
                taken = refl;
                under_way = refl;
                sent = sym (append-nil out);
                full = inl (omega (arith, ltb-false→le _ _ full, valid.limit));
              })
        | inl room ↦ elim (List-cases state.block_request_queue) [
          | inl empty ↦
              rw (room, empty, request_blocks)
                (record {
                  state' = state;
                  out' = out;
                  run = refl;
                  valid = valid;
                  received = refl;
                  same_world = refl;
                  asked = [];
                  taken = rw empty refl;
                  under_way = refl;
                  sent = sym (append-nil out);
                  full = inr empty;
                })
          | inr (id, queue, is) ↦
              let asked : Downloading = record state {
                block_request_queue = queue;
                inflight_block_requests = SortedSet.insert id state.inflight_block_requests;
              } in
              let valid1 : IsValid total asked =
                ask-IsValid total state id queue is (ltb→lt _ _ room) valid in
              let rest =
                request_blocks-Requests total fuel asked (out ++ (wire_request id, to_server) ∷ [])
                  valid1 (omega (arith, ap length is)) in
              rw (room, is, request_blocks, full_request-wire_request io id)
                (record {
                  state' = rest.state';
                  out' = rest.out';
                  run = rest.run;
                  valid = rest.valid;
                  received = rest.received;
                  same_world = rest.same_world;
                  asked = id ∷ rest.asked;
                  taken = ap (◌∷◌ id) rest.taken;
                  under_way = rest.under_way;
                  sent = rest.sent ∙ append_assoc out (request id ∷ []) (map request rest.asked);
                  full = rest.full;
                })
        ]
      ]

  -- On a download that counts each block once and has at most 16 under way, `request_next_blocks`
  -- ends with no panic. It takes blocks from the front of the queue, puts them under way and asks
  -- for each with one packet to the server, in order and behind what is to be sent already, until
  -- 16 are under way or none is left; the download stays so, with the same blocks of the same world
  -- received.
  pub request_next_blocks-Requests :
      (total : ℕ) (state : Downloading) (out : Packets)
      → IsValid total state
      → Requests total state out (request_next_blocks io finder estimate state out)
  unfolding request_next_blocks
  request_next_blocks-Requests total state out valid =
      request_blocks-Requests total (suc (length state.block_request_queue)) state out valid
        (omega arith)
