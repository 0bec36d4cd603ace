-- ===== src/Callbacks/Trace.antt =====
-- A run of nghttp2 as the sequence of handlers that it calls, in any order and on any stream.
pub mod Streamwise
pub mod Edit
pub mod Streams
pub mod States
pub mod Events
pub mod Reports
pub mod Tests
use xmlhttp_request.Prelude.{Bytes, List, [], ℕ, ◌∷◌, ◌≡◌}
use xmlhttp_request.Session.{Session}
use xmlhttp_request.Callbacks.Frame.{Frame}
use xmlhttp_request.Callbacks.Receive.{
  on_begin_headers, on_frame_recv, on_data_chunk_recv, on_stream_close,
}
use xmlhttp_request.Callbacks.Headers.{on_header}
use xmlhttp_request.Callbacks.Send.{before_frame_send}

pub data Call : Type 0 where
  begin_headers frame_recv frame_send : Frame → Call
  header : Frame → Bytes → Bytes → ℕ → Call
  data_chunk : ℕ → Bytes → Call
  stream_close : ℕ → Call

unfoldable pub step : Session → Call → Session
step s (begin_headers frame) = on_begin_headers s frame
step s (frame_recv frame) = on_frame_recv s frame
step s (frame_send frame) = before_frame_send s frame
step s (header frame name value flags) = on_header s frame name value flags
step s (data_chunk id chunk) = on_data_chunk_recv s id chunk
step s (stream_close id) = on_stream_close s id

unfoldable pub run : Session → List Call → Session
unfolding step
run s [] = s
run s (c ∷ cs) = run (step s c) cs

-- A session before its first call.
abbrev pub IsFresh : Session → Type 0
IsFresh s = s.streams ≡ []
