-- ===== src/Factorio/Client/Requests.antt =====
-- factorio-cacher/src/proxy/client_proxy.rs: the requests that wait for blocks of the world.
use factory_cacher.Base.{
  ℕ, ◌≡◌, refl, ◌∙◌, none, some, List, [], ◌∷◌, ◌++◌, append_assoc, append-nil, ok, inl, inr,
  Option-cases, ◌<◌, All, All-All,
}
use factory_cacher.Base.SortedSet.Laws.{Increasing, insert-last, All-below}
use factory_cacher.Base.Words.{Bytes}
use factory_cacher.Extern.ByteBuf.{ByteBuf}
use factory_cacher.Factorio.Protocol.RoundTrip.{wire_block, full_block-wire_block}
use factory_cacher.Factorio.Client.Blocks.{block_at, try_fulfill-block_at}
use factory_cacher.Factorio.Client.{State, Packets, to_client, answer_pending, on_new_world_data}

-- Those of the blocks that the world's data holds, in the order of the requests, as packets.
unfoldable pub answers : Bytes → List ℕ → Packets
answers world_data [] = []
answers world_data (id ∷ ids) = elim (block_at world_data id) [
  | some block ↦ (wire_block block, to_client) ∷ answers world_data ids
  | none ↦ answers world_data ids
]

-- Those of the requests that the world's data does not reach yet.
pub unanswered : Bytes → List ℕ → List ℕ
unanswered world_data [] = []
unanswered world_data (id ∷ ids) = elim (block_at world_data id) [
  | some block ↦ unanswered world_data ids
  | none ↦ id ∷ unanswered world_data ids
]

-- What `ClientProxyState` keeps between the calls: the requests that wait are a set, in order, and
-- the spare set is empty.
pub record IsValid (s : State) : Type 0 where
  pub pending_IsSet : Increasing s.pending_requests
  pub swap_empty : s.pending_requests_swap ≡ []

unanswered-All :
    (P : ℕ → Type 0) (world_data : Bytes) (ids : List ℕ)
    → All P ids
    → All P (unanswered world_data ids)
unfolding unanswered
unanswered-All P world_data [] all = tt
unanswered-All P world_data (id ∷ ids) all = elim (Option-cases (block_at world_data id)) [
  | inl none_yet ↦ rw (none_yet, unanswered) (all.0, unanswered-All P world_data ids all.1)
  | inr (block, found) ↦ rw (found, unanswered) (unanswered-All P world_data ids all.1)
]

pub unanswered-Increasing :
    (world_data : Bytes) (ids : List ℕ) → Increasing ids → Increasing (unanswered world_data ids)
unfolding unanswered
unanswered-Increasing world_data [] inc = tt
unanswered-Increasing world_data (id ∷ ids) inc = elim (Option-cases (block_at world_data id)) [
  | inl none_yet ↦
      rw (none_yet, unanswered)
        (
          unanswered-All (λ y. id < y) world_data ids inc.0,
          unanswered-Increasing world_data ids inc.1,
        )
  | inr (block, found) ↦ rw (found, unanswered) (unanswered-Increasing world_data ids inc.1)
]

module _ (io : ByteBuf) where
  answer_pending_lem :
      (world_data : Bytes) (ids swap : List ℕ) (out : Packets)
      → Increasing ids
      → All (λ id. All (λ z. z < id) swap) ids
      → answer_pending io world_data ids swap out
        ≡ ok (swap ++ unanswered world_data ids, out ++ answers world_data ids)
  unfolding answer_pending answers unanswered
  answer_pending_lem world_data [] swap out inc below = rw (append-nil swap, append-nil out) refl
  answer_pending_lem world_data (id ∷ ids) swap out inc below =
      elim (Option-cases (block_at world_data id)) [
        | inl none_yet ↦
            rw
              (
                try_fulfill-block_at world_data id,
                none_yet,
                answer_pending,
                answers,
                unanswered,
                insert-last id swap below.0,
              )
              (answer_pending_lem world_data ids (swap ++ id ∷ []) out inc.1
                  (All-below id ids swap inc.0 below.1)
                ∙ rw (append_assoc swap (id ∷ []) (unanswered world_data ids)) refl)
        | inr (block, found) ↦
            rw
              (
                try_fulfill-block_at world_data id,
                found,
                answer_pending,
                answers,
                unanswered,
                full_block-wire_block io block,
              )
              (answer_pending_lem world_data ids swap (out ++ (wire_block block, to_client) ∷ [])
                  inc.1 below.1
                ∙ rw
                    (append_assoc out ((wire_block block, to_client) ∷ []) (answers world_data ids))
                    refl)
      ]

  -- When the requests that wait are a set in order, and the spare set is empty, new data of the world
  -- answers exactly the requests that the data now reaches, each with its block and in the order of
  -- the blocks; exactly the others wait on, and the spare set is empty again.
  pub on_new_world_data_lem :
      (now : ℕ) (s : State) (new_data : Bytes) (out : Packets)
      → IsValid s
      → on_new_world_data io now s (some new_data) out
        ≡ ok (
          record s {
            world_data = s.world_data ++ new_data;
            last_block_request = now;
            pending_requests = unanswered (s.world_data ++ new_data) s.pending_requests;
            pending_requests_swap = [];
          },
          out ++ answers (s.world_data ++ new_data) s.pending_requests,
        )
  unfolding on_new_world_data
  on_new_world_data_lem now s new_data out valid =
      rw
        (
          valid.swap_empty,
          answer_pending_lem (s.world_data ++ new_data) s.pending_requests [] out
              valid.pending_IsSet
              (All-All (λ id. All (λ z. z < id) []) (λ id. tt) s.pending_requests),
        )
        refl
