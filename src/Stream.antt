-- ===== src/Stream.antt =====
-- source/sessionstream.cpp and include/sessionstream.h: a stream with its request and response. The
-- pointer to the stream of nghttp2, which nothing reads, is left out.
use xmlhttp_request.Prelude.{Bool, false, true, ℕ, ◌/◌, ◌==◌}
use xmlhttp_request.Message.Request.{Request, empty_request}
use xmlhttp_request.Message.Response.{Response, empty_response}

pub data State : Type 0 where
  idle reserved_local reserved_remote open' half_closed_local half_closed_remote closed : State

pub record Stream : Type 0 where
  pub stream_id_ : ℕ
  pub status_code : ℕ
  pub state : State
  pub rq : Request
  pub rp : Response

-- `Stream(id, strm)`.
unfoldable pub new_stream : ℕ → Stream
new_stream id = record {
  stream_id_ = id;
  status_code = 0;
  state = State.idle;
  rq = empty_request;
  rp = empty_response;
}

-- `state(s)`.
unfoldable pub set_state : State → Stream → Stream
set_state s strm = record strm { state = s }

-- `status(code)`.
pub set_status : ℕ → Stream → Stream
set_status code strm = record strm { status_code = code }

unfoldable pub expect_final_response : Stream → Bool
expect_final_response strm = strm.status_code / 100 == 1

abbrev pub is_closed : State → Bool
is_closed State.closed = true
is_closed _ = false

abbrev pub is_idle : State → Bool
is_idle State.idle = true
is_idle _ = false
