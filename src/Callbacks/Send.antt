-- ===== src/Callbacks/Send.antt =====
-- source/sessioncallbacks.cpp: `beforeFrameSendCallback`.
use xmlhttp_request.Prelude.{Bytes, List, [], false, none, some, ◌∷◌}
use xmlhttp_request.Message.Request.{Request, add_header}
use xmlhttp_request.Stream.{State, Stream, set_state}
use xmlhttp_request.Session.{Session, find_stream, create_push_stream, add_stream, update_stream}
use xmlhttp_request.Callbacks.Frame.{FrameType, Frame}

-- The loop over `nva`.
save_fields : List (Bytes × Bytes) → Request → Request
save_fields [] req = req
save_fields ((name, value) ∷ nva) req =
    save_fields nva (add_header req name (record { value = value; sensitive = false }))

-- `processOutgoingFrame`.
unfoldable pub process_outgoing : FrameType → Frame → Stream → Stream
unfolding save_fields set_state
process_outgoing FrameType.headers frame strm = record strm { rq = save_fields frame.nva strm.rq }
process_outgoing FrameType.goaway frame strm = set_state State.closed strm
process_outgoing _ frame strm = strm

unfoldable pub before_frame_send : Session → Frame → Session
unfolding process_outgoing
before_frame_send s frame = elim (find_stream s frame.stream_id) [
  | some _ ↦ update_stream s frame.stream_id (process_outgoing frame.type frame)
  | none ↦
      let strm = set_state State.open' (create_push_stream frame.stream_id) in
      (add_stream s (process_outgoing frame.type frame strm)).0
]
