-- ===== src/Callbacks/Receive.antt =====
-- source/sessioncallbacks.cpp: `onBeginHeadersCallback`, `onFrameRecvCallback`,
-- `onDataChunkRecvCallback`, `onStreamCloseCallback` and `onSendCallback`.
use xmlhttp_request.Prelude.{Bytes, Option, if◌then◌else◌, none, not, some, ℕ, ◌&&◌}
use xmlhttp_request.Message.Response.{add_data}
use xmlhttp_request.Stream.{State, Stream, new_stream, set_state, is_idle, expect_final_response}
use xmlhttp_request.Session.{
  ReadyState, Session, find_stream, create_push_stream, add_stream, remove_stream, update_stream,
  notify_state, notify_ready,
}
use xmlhttp_request.Callbacks.Frame.{FrameType, Frame, is_trailer, ends_stream}

-- `createAndAddStream`: the stream, if its id was free.
unfoldable pub create_and_add_stream : Session → Frame → Session × Option Stream
unfolding add_stream new_stream
create_and_add_stream s frame =
    let strm = new_stream frame.stream_id in
    let (s', ok) = add_stream s strm in (s', if ok then some strm else none)

unfoldable pub begin_headers_of : FrameType → Session → Frame → Session
unfolding create_and_add_stream create_push_stream
begin_headers_of FrameType.push_promise s frame =
    (add_stream s (create_push_stream frame.promised_stream_id)).0
begin_headers_of _ s frame = (create_and_add_stream s frame).0

unfoldable pub on_begin_headers : Session → Frame → Session
unfolding begin_headers_of
on_begin_headers s frame = begin_headers_of frame.type s frame

-- The new state of the stream that a received frame belongs to.
received_data : Frame → Stream → Stream
unfolding set_state
received_data frame strm =
    if is_idle strm.state
    then strm
    else if ends_stream frame
    then set_state State.half_closed_remote strm
    else strm

received_headers : Frame → Stream → Stream
unfolding set_state expect_final_response
received_headers frame strm =
    let strm' = if is_idle strm.state then set_state State.open' strm else strm in
    if is_trailer frame.cat && not (expect_final_response strm')
    then strm'
    else if expect_final_response strm'
    then strm'
    else if ends_stream frame
    then set_state State.half_closed_remote strm'
    else strm'

received_push_promise : Stream → Stream
unfolding set_state
received_push_promise strm =
    if is_idle strm.state then strm else set_state State.reserved_remote strm

unfoldable pub receive : FrameType → Frame → Stream → Stream
unfolding received_data received_headers received_push_promise
receive FrameType.data_frame frame strm = received_data frame strm
receive FrameType.headers frame strm = received_headers frame strm
receive FrameType.push_promise frame strm = received_push_promise strm
receive FrameType.goaway frame strm = set_state State.closed strm
receive _ frame strm = strm

unfoldable pub on_frame_recv : Session → Frame → Session
unfolding receive
on_frame_recv s frame = elim (find_stream s frame.stream_id) [
  | none ↦ s
  | some _ ↦ update_stream s frame.stream_id (receive frame.type frame)
]

-- `res->data(data, len)`.
unfoldable pub receive_chunk : Bytes → Stream → Stream
unfolding add_data
receive_chunk chunk strm = record strm { rp = add_data strm.rp chunk }

unfoldable pub on_data_chunk_recv : Session → ℕ → Bytes → Session
unfolding receive_chunk
on_data_chunk_recv s stream_id chunk =
    let s' = notify_state s ReadyState.loading in
    elim (find_stream s' stream_id) [
      | none ↦ s'
      | some _ ↦ update_stream s' stream_id (receive_chunk chunk)
    ]

unfoldable pub on_stream_close : Session → ℕ → Session
on_stream_close s stream_id = elim (find_stream s stream_id) [
  | none ↦ remove_stream s stream_id
  | some strm ↦
      let closed = set_state State.closed strm in
      let s1 = update_stream s stream_id (set_state State.closed) in
      remove_stream (notify_ready (notify_state s1 ReadyState.done) closed) stream_id
]

-- `onSendCallback` reports that nothing was sent.
pub on_send : Session → Bytes → Session × ℕ
on_send s chunk = (s, 0)
