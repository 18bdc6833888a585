-- ===== src/Dsp/Proxy.antt =====
-- dsp-nebula-cacher/src/proxy/mod.rs: frames of a websocket (the crate `fastwebsockets`), and the
-- loop that copies them. A source is the frames that arrive, and the error that ends them; a write
-- does not fail, and what was written is a list.
pub mod Client
pub mod Server
pub mod Streams
mod Tests
use factory_cacher.Base.{
  Bool, true, false, Option, none, some, List, [], ◌∷◌, ◌++◌, Outcome, ok, err, Error,
  connection_closed, unexpected_eof,
}
use factory_cacher.Base.Words.{Bytes}

-- `fastwebsockets::OpCode`
pub data OpCode : Type 0 where
  continuation : OpCode
  text : OpCode
  binary : OpCode
  close : OpCode
  ping : OpCode
  pong : OpCode

-- `fastwebsockets::Frame`
pub record Frame : Type 0 where
  pub fin : Bool
  pub opcode : OpCode
  pub payload : Bytes

-- `matches!(frame.opcode, OpCode::Binary | OpCode::Text)`
unfoldable pub starts_message : OpCode → Bool
starts_message continuation = false
starts_message text = true
starts_message binary = true
starts_message close = false
starts_message ping = false
starts_message pong = false

-- The errors that `read_ws_frame` turns into the end of the stream.
unfoldable pub end_of_stream : Error → Outcome (Unit {0})
end_of_stream connection_closed = ok tt
end_of_stream unexpected_eof = ok tt
end_of_stream e = err e

-- `copy_ws_to_ws`: what is written, and how it ends.
unfoldable pub copy_ws_to_ws : List Frame → Error → List Frame → List Frame × Outcome (Unit {0})
copy_ws_to_ws [] ending out = (out, end_of_stream ending)
copy_ws_to_ws (frame ∷ frames) ending out = copy_ws_to_ws frames ending (out ++ frame ∷ [])
