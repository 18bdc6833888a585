-- ===== src/Dsp/Proxy/Streams.antt =====
-- dsp-nebula-cacher/src/proxy/server_proxy.rs: the streams that packets are served on, from the
-- registration of an id by `dedup_packet` to the stream that `run_server_proxy` accepts, as steps
-- of the tasks in any order, for one connection: its map of pending ids is its own, and the counter
-- that ids are taken from is the process's. A client opens one stream for each indicator, and no
-- other. A task can fail at any point, and then its id stays in the map.
pub mod Served
use factory_cacher.Base.{ℕ, ◌+◌, ◌^◌, ◌<◌, ◌≡◌, true, List, [], ◌∷◌, Outcome, ok}
use factory_cacher.Base.SortedSet
use factory_cacher.Dsp.Proxy.Server.{Shared, first_shared, register_stream, accept_dedup_stream}

-- The ids that were registered, by what has happened since: nothing yet, the indicator was written,
-- the client has opened the stream.
pub record System : Type 0 where
  pub shared : Shared
  pub registered : List ℕ
  pub announced : List ℕ
  pub opened : List ℕ

abbrev pub first_system : System
first_system = record { shared = first_shared; registered = []; announced = []; opened = [] }

pub data Step (s : System) : System → Type 0 where
  -- `fetch_add` and `insert` of `dedup_packet`; the process has not used up its ids.
  registers :
      s.shared.next_dedup_stream_id + 1 < 2 ^ 64
      → Step s (record s {
        shared = (register_stream s.shared).1;
        registered = (register_stream s.shared).0 ∷ s.registered;
      })
  -- `write_frame` of the indicator
  announces :
      (id : ℕ)
      → (SortedSet.remove id s.registered).0 ≡ true
      → Step s (record s {
        registered = (SortedSet.remove id s.registered).1;
        announced = id ∷ s.announced;
      })
  -- `reconstruct_packet` of the client
  opens :
      (id : ℕ)
      → (SortedSet.remove id s.announced).0 ≡ true
      → Step s
          (record s { announced = (SortedSet.remove id s.announced).1; opened = id ∷ s.opened })
  -- the loop of `run_server_proxy`
  accepts :
      (id : ℕ) {shared : Shared}
      → (SortedSet.remove id s.opened).0 ≡ true
      → accept_dedup_stream id s.shared ≡ ok shared
      → Step s (record s { shared = shared; opened = (SortedSet.remove id s.opened).1 })
  -- A task of another connection takes an id from the counter.
  elsewhere :
      s.shared.next_dedup_stream_id + 1 < 2 ^ 64
      → Step s (record s {
        shared = record s.shared { next_dedup_stream_id = s.shared.next_dedup_stream_id + 1 };
      })
  -- The write of an indicator fails, or its task is cancelled before it.
  fails :
      (id : ℕ)
      → (SortedSet.remove id s.registered).0 ≡ true
      → Step s (record s { registered = (SortedSet.remove id s.registered).1 })
  -- A client never opens the stream that it was told of.
  goes_unopened :
      (id : ℕ)
      → (SortedSet.remove id s.announced).0 ≡ true
      → Step s (record s { announced = (SortedSet.remove id s.announced).1 })
  -- The connection is lost before an opened stream is accepted.
  is_lost :
      (id : ℕ)
      → (SortedSet.remove id s.opened).0 ≡ true
      → Step s (record s { opened = (SortedSet.remove id s.opened).1 })

-- What a run of steps comes to.
pub data Steps (s : System) : System → Type 0 where
  done : Steps s s
  then_step : {t u : System} → Steps s t → Step t u → Steps s u
