-- ===== src/Dsp/Proxy/Client/Fragments.antt =====
-- dsp-nebula-cacher/src/proxy/client_proxy.rs: the frames of a packet that was put together.
use factory_cacher.Base.{◌≡◌, refl, ap, Bool, true, false, some, List, [], ◌∷◌, ◌++◌, concat}
use factory_cacher.Base.Words.{Bytes}
use factory_cacher.Dsp.Proxy.{Frame, binary, continuation}
use factory_cacher.Dsp.Proxy.Client.{forward_fragments, forward_deduped_fragments, op_code}

-- The rest of a message: frames that continue it, of which the last, and no other, is final.
abbrev pub Continues : List Frame → Type 0
Continues [] = ⊥
Continues (last ∷ []) = (last.fin ≡ true) × (last.opcode ≡ continuation)
Continues (frame ∷ next ∷ rest) =
    (frame.fin ≡ false) × (frame.opcode ≡ continuation) × Continues (next ∷ rest)

-- A message of the websocket protocol: it starts as binary data, and goes on until its final frame.
abbrev pub IsMessage : List Frame → Type 0
IsMessage [] = ⊥
IsMessage (only ∷ []) = (only.fin ≡ true) × (only.opcode ≡ binary)
IsMessage (frame ∷ next ∷ rest) =
    (frame.fin ≡ false) × (frame.opcode ≡ binary) × Continues (next ∷ rest)

abbrev pub payloads : List Frame → Bytes
payloads [] = []
payloads (frame ∷ frames) = frame.payload ++ payloads frames

later_frames :
    (last : Bytes) (fragments : List Bytes)
    → Continues (forward_fragments false (some last) fragments)
unfolding forward_fragments op_code
later_frames last [] = (refl, refl)
later_frames last (f ∷ []) = (refl, refl, (refl, refl))
later_frames last (f ∷ g ∷ rest) = (refl, refl, later_frames f (g ∷ rest))

payloads-forward_fragments :
    (first : Bool) (last : Bytes) (fragments : List Bytes)
    → payloads (forward_fragments first (some last) fragments) ≡ last ++ concat fragments
unfolding forward_fragments
payloads-forward_fragments first last [] = refl
payloads-forward_fragments first last (f ∷ rest) =
    ap (◌++◌ last) (payloads-forward_fragments false f rest)

-- What is forwarded of a packet with at least one fragment is one message of binary data, and its
-- payloads are the fragments, one after the other.
pub forward_deduped_fragments-IsMessage :
    (fragment : Bytes) (fragments : List Bytes)
    → IsMessage (forward_deduped_fragments (fragment ∷ fragments))
      × (payloads (forward_deduped_fragments (fragment ∷ fragments))
          ≡ concat (fragment ∷ fragments))
unfolding forward_deduped_fragments forward_fragments op_code
forward_deduped_fragments-IsMessage fragment [] =
    ((refl, refl), payloads-forward_fragments true fragment [])
forward_deduped_fragments-IsMessage fragment (f ∷ []) =
    ((refl, refl, (refl, refl)), payloads-forward_fragments true fragment (f ∷ []))
forward_deduped_fragments-IsMessage fragment (f ∷ g ∷ rest) = (
  (refl, refl, later_frames f (g ∷ rest)),
  payloads-forward_fragments true fragment (f ∷ g ∷ rest),
)
