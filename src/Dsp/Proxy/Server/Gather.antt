-- ===== src/Dsp/Proxy/Server/Gather.antt =====
-- dsp-nebula-cacher/src/proxy/server_proxy.rs: the frames of a large packet, between which control
-- frames may come; and a source without large packets.
use factory_cacher.Base.{
  ◌≡◌, refl, ap, ◌∙◌, Bool, true, false, List, [], ◌∷◌, ◌++◌, All, append_assoc, append-nil,
  if◌then◌else◌,
}
use factory_cacher.Base.Words.{Bytes}
use factory_cacher.Dsp.Proxy.{Frame, OpCode, continuation, text, binary, close, ping, pong}
use factory_cacher.Dsp.Proxy.Server.{complete, gather}

-- What may come before the last frame of a message: frames that continue it and are not final, and
-- control frames.
abbrev pub GoesOn : Frame → Type 0
GoesOn frame = elim frame.opcode [
  | continuation ↦ frame.fin ≡ false
  | text ↦ ⊥
  | binary ↦ ⊥
  | close ↦ Unit {0}
  | ping ↦ Unit {0}
  | pong ↦ Unit {0}
]

unfoldable pub is_continuation : OpCode → Bool
is_continuation continuation = true
is_continuation text = false
is_continuation binary = false
is_continuation close = false
is_continuation ping = false
is_continuation pong = false

-- The data of the message, and the frames that are not part of it.
pub message_data : List Frame → Bytes
message_data [] = []
message_data (frame ∷ frames) =
    if is_continuation frame.opcode
    then frame.payload ++ message_data frames
    else message_data frames

pub control_frames : List Frame → List Frame
control_frames [] = []
control_frames (frame ∷ frames) =
    if is_continuation frame.opcode then control_frames frames else frame ∷ control_frames frames

-- Up to the final frame of a message, of which a first part is there, the loop of `dedup_packet`
-- joins the payloads of the frames that continue it, passes the control frames between them on in
-- their order, and leaves the frames behind it.
pub gather-complete :
    (initial : Bytes) (middle : List Frame) (last : Frame) (rest out : List Frame)
    → All GoesOn middle
    → last.opcode ≡ continuation
    → last.fin ≡ true
    → gather initial (middle ++ last ∷ rest) out
      ≡ complete
          (initial ++ message_data middle ++ last.payload)
          rest
          (out ++ control_frames middle)
unfolding gather message_data control_frames is_continuation
gather-complete initial [] last rest out goes_on is_last final =
    rw (is_last, final, append-nil initial, append-nil out) refl
gather-complete initial (frame ∷ middle) last rest out (here, later) is_last final =
    step frame.fin frame.opcode frame.payload here
      (gather-complete (initial ++ frame.payload) middle last rest out later is_last final)
      (gather-complete initial middle last rest (out ++ frame ∷ []) later is_last final)
  where
    Goes : Bytes → List Frame → Type 0
    Goes data_so_far out_so_far =
        gather data_so_far (middle ++ last ∷ rest) out_so_far
        ≡ complete (data_so_far ++ message_data middle ++ last.payload) rest
            (out_so_far ++ control_frames middle)

    Goal : Frame → Type 0
    Goal first =
        gather initial (first ∷ (middle ++ last ∷ rest)) out
        ≡ complete (initial ++ message_data (first ∷ middle) ++ last.payload) rest
            (out ++ control_frames (first ∷ middle))

    with_control :
        (first : Frame)
        → Goes initial (out ++ first ∷ [])
        → gather initial (middle ++ last ∷ rest) (out ++ first ∷ [])
          ≡ complete
              (initial ++ message_data middle ++ last.payload)
              rest
              (out ++ first ∷ control_frames middle)
    with_control first passed_on =
        passed_on
        ∙ ap (complete (initial ++ message_data middle ++ last.payload) rest)
            (append_assoc out (first ∷ []) (control_frames middle))

    step :
        (f : Bool) (o : OpCode) (p : Bytes)
        → GoesOn (record { fin = f; opcode = o; payload = p })
        → Goes (initial ++ p) out
        → Goes initial (out ++ record { fin = f; opcode = o; payload = p } ∷ [])
        → Goal (record { fin = f; opcode = o; payload = p })
    step f continuation p not_final more passed_on =
        rw (not_final, more)
          (ap (λ (b : Bytes). complete (b ++ last.payload) rest (out ++ control_frames middle))
            (append_assoc initial p (message_data middle)))
    step f text p here more passed_on = absurd here
    step f binary p here more passed_on = absurd here
    step f close p here more passed_on = with_control _ passed_on
    step f ping p here more passed_on = with_control _ passed_on
    step f pong p here more passed_on = with_control _ passed_on
