-- ===== src/Dsp/Proxy/Tests.antt =====
-- dsp-nebula-cacher/src/proxy: the theorems on a packet of a few frames, and on one stream.
use factory_cacher.Base.{◌≡◌, refl, Bool, true, false, [], ◌∷◌, ◌++◌, concat, ok, arith}
use factory_cacher.Base.SortedSet
use factory_cacher.Base.Words.{Bytes}
use factory_cacher.Dsp.Proxy.{Frame, continuation, ping}
use factory_cacher.Dsp.Proxy.Client.{forward_deduped_fragments}
use factory_cacher.Dsp.Proxy.Client.Fragments.{
  IsMessage, payloads, forward_deduped_fragments-IsMessage,
}
use factory_cacher.Dsp.Proxy.Server.{
  Shared, first_shared, register_stream, accept_dedup_stream, gather, complete,
}
use factory_cacher.Dsp.Proxy.Server.Gather.{message_data, control_frames, gather-complete}
use factory_cacher.Dsp.Proxy.Streams.{
  System, first_system, Steps, registers, announces, opens, done, then_step,
}
use factory_cacher.Dsp.Proxy.Streams.Served.{accept_dedup_stream-opened}

forward_deduped_fragments-IsMessage_example :
    IsMessage (forward_deduped_fragments ((1 ∷ []) ∷ (2 ∷ []) ∷ (3 ∷ []) ∷ []))
    × (payloads (forward_deduped_fragments ((1 ∷ []) ∷ (2 ∷ []) ∷ (3 ∷ []) ∷ []))
        ≡ concat ((1 ∷ []) ∷ (2 ∷ []) ∷ (3 ∷ []) ∷ []))
forward_deduped_fragments-IsMessage_example =
    forward_deduped_fragments-IsMessage (1 ∷ []) ((2 ∷ []) ∷ (3 ∷ []) ∷ [])

abbrev part : Bool → Bytes → Frame
part fin payload = record { fin = fin; opcode = continuation; payload = payload }

abbrev a_ping : Frame
a_ping = record { fin = true; opcode = ping; payload = 9 ∷ [] }

gather-complete_example :
    gather (1 ∷ []) (part false (2 ∷ []) ∷ a_ping ∷ part true (3 ∷ []) ∷ a_ping ∷ []) []
    ≡ complete
        ((1 ∷ []) ++ message_data (part false (2 ∷ []) ∷ a_ping ∷ []) ++ (3 ∷ []))
        (a_ping ∷ [])
        ([] ++ control_frames (part false (2 ∷ []) ∷ a_ping ∷ []))
gather-complete_example =
    gather-complete (1 ∷ []) (part false (2 ∷ []) ∷ a_ping ∷ []) (part true (3 ∷ [])) (a_ping ∷ [])
      [] (refl, (tt, tt)) refl refl

-- The first packet of a process: registered, announced, and opened.
abbrev registered_system : System
registered_system = record {
  shared = record { next_dedup_stream_id = 2; pending_dedup_streams = 1 ∷ [] };
  registered = 1 ∷ [];
  announced = [];
  opened = [];
}

abbrev opened_system : System
opened_system = record {
  shared = record { next_dedup_stream_id = 2; pending_dedup_streams = 1 ∷ [] };
  registered = [];
  announced = [];
  opened = 1 ∷ [];
}

to_registered : Steps first_system registered_system
unfolding first_shared register_stream SortedSet.insert
to_registered = then_step done (registers (omega arith))

to_opened : Steps first_system opened_system
unfolding SortedSet.remove
to_opened = then_step (then_step to_registered (announces 1 refl)) (opens 1 refl)

one_opened : (SortedSet.remove 1 opened_system.opened).0 ≡ true
unfolding SortedSet.remove
one_opened = refl

accept_dedup_stream-opened_example :
    (shared : Shared) × (accept_dedup_stream 1 opened_system.shared ≡ ok shared)
accept_dedup_stream-opened_example = accept_dedup_stream-opened opened_system 1 to_opened one_opened
