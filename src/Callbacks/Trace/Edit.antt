-- ===== src/Callbacks/Trace/Edit.antt =====
-- What one handler does to the map of streams, as one edit.
use xmlhttp_request.Callbacks.Trace.Streamwise.{
  id-receive, id-process_outgoing, id-promised, Used, new_stream-Used, receive-Used,
  process_outgoing-Used, promised-Used, Appends, receive-Appends, process_outgoing-Appends,
  promised-Appends, responded-Appends,
}
use xmlhttp_request.Prelude.{
  Bytes, arith, refl, ℕ, ◌≡◌, Option-cases, [], ap, inl, inr, ◌∷◌, Bool-cases, List, ◌∙◌, none, sym,
  ◌⊎◌, Bool, false, true,
}
use xmlhttp_request.Stream.{State, Stream, new_stream, set_state}
use xmlhttp_request.Session.{
  Streams, ReadyState, Session, find_in, try_emplace, erase_in, update_in, find_stream,
  create_push_stream, add_stream, remove_stream, update_stream, notify_state, notify_ready,
}
use xmlhttp_request.Callbacks.Frame.{is_trailer, FrameType, Frame}
use xmlhttp_request.Callbacks.Receive.{
  begin_headers_of, on_begin_headers, receive, on_frame_recv, receive_chunk, on_data_chunk_recv,
  on_stream_close,
}
use xmlhttp_request.Callbacks.Headers.{
  on_response_header, on_promised_header, header_of, responded, promised, on_header,
}
use xmlhttp_request.Callbacks.Send.{process_outgoing, before_frame_send}
use xmlhttp_request.Callbacks.Trace.{
  Call, begin_headers, frame_recv, frame_send, header, data_chunk, stream_close, step,
}

pub streams-notify_state : (s : Session) (r : ReadyState) → (notify_state s r).streams ≡ s.streams
unfolding notify_state
streams-notify_state s r = ground arith

pub streams-notify_ready : (s : Session) (strm : Stream) → (notify_ready s strm).streams ≡ s.streams
unfolding notify_ready
streams-notify_ready s strm = ground arith

-- One edit of the map at a key: nothing, a new stream where the key was free, a change of the
-- stream that is there, which appends the chunks to its data, or its removal where `removes` allows it.
pub data Edit (id : ℕ) (chunks : List Bytes) (removes : Bool) (m m' : Streams) : Type 0 where
  keep : (chunks ≡ []) ⊎ (find_in id m ≡ none) → m' ≡ m → Edit id chunks removes m m'
  add :
      (u : Stream)
      → u.stream_id_ ≡ id
      → Used u
      → chunks ≡ []
      → m' ≡ (try_emplace id u m).0
      → Edit id chunks removes m m'
  change :
      (f : Stream → Stream)
      → ((u : Stream) → (f u).stream_id_ ≡ u.stream_id_)
      → ((u : Stream) → Used u → Used (f u))
      → Appends chunks f
      → m' ≡ update_in id f m
      → Edit id chunks removes m m'
  drop : removes ≡ true → m' ≡ erase_in id m → Edit id chunks removes m m'

-- The chunks that a call hands to its stream.
abbrev pub chunks_of : Call → List Bytes
chunks_of (data_chunk id chunk) = chunk ∷ []
chunks_of _ = []

-- The call that removes its stream.
abbrev pub closes : Call → Bool
closes (stream_close id) = true
closes _ = false

-- The stream that a handler is about.
abbrev pub target_of : FrameType → Frame → ℕ
target_of FrameType.push_promise frame = frame.promised_stream_id
target_of _ frame = frame.stream_id

abbrev pub target : Call → ℕ
target (begin_headers frame) = target_of frame.type frame
target (frame_recv frame) = frame.stream_id
target (frame_send frame) = frame.stream_id
target (header frame name value flags) = target_of frame.type frame
target (data_chunk id chunk) = id
target (stream_close id) = id

begin_headers-Edit :
    (t : FrameType) (s : Session) (frame : Frame)
    → Edit (target_of t frame) [] false s.streams (begin_headers_of t s frame).streams
unfolding begin_headers_of add_stream new_stream
begin_headers-Edit FrameType.push_promise s frame =
    add (new_stream frame.promised_stream_id) refl (new_stream-Used frame.promised_stream_id) refl
      refl
begin_headers-Edit _ s frame =
    add (new_stream frame.stream_id) refl (new_stream-Used frame.stream_id) refl refl

frame_recv-Edit :
    (s : Session) (frame : Frame)
    → Edit frame.stream_id [] false s.streams (on_frame_recv s frame).streams
unfolding on_frame_recv update_stream
frame_recv-Edit s frame = elim (Option-cases (find_stream s frame.stream_id)) [
  | inl e ↦ keep (inl refl) (rw (e, on_frame_recv))
  | inr (u, e) ↦
      change (receive frame.type frame) (id-receive frame.type frame)
        (receive-Used frame.type frame) (receive-Appends frame.type frame) (rw (e, on_frame_recv))
]

frame_send-Edit :
    (s : Session) (frame : Frame)
    → Edit frame.stream_id [] false s.streams (before_frame_send s frame).streams
unfolding before_frame_send update_stream add_stream
frame_send-Edit s frame = elim (Option-cases (find_stream s frame.stream_id)) [
  | inl e ↦
      let u = set_state State.open' (create_push_stream frame.stream_id) in
      add (process_outgoing frame.type frame u)
        (unfold create_push_stream set_state in (id-process_outgoing frame.type frame u))
        (unfold set_state in process_outgoing-Used frame.type frame u tt) refl
        (rw (e, before_frame_send)
          (ap (λ k. (try_emplace k (process_outgoing frame.type frame u) s.streams).0)
            (unfold create_push_stream set_state in id-process_outgoing frame.type frame u)))
  | inr (u, e) ↦
      change (process_outgoing frame.type frame) (id-process_outgoing frame.type frame)
        (process_outgoing-Used frame.type frame) (process_outgoing-Appends frame.type frame)
        (rw (e, before_frame_send))
]

header-Edit :
    (t : FrameType) (s : Session) (frame : Frame) (name value : Bytes) (flags : ℕ)
    → Edit (target_of t frame) [] false s.streams (header_of t s frame name value flags).streams
unfolding header_of update_stream responded
header-Edit FrameType.headers s frame name value flags =
    let s' = notify_state s ReadyState.headers_received in
    let e' = streams-notify_state s ReadyState.headers_received in
    let f = responded s'.override_mime_type_ name value flags in
    elim (Option-cases (find_stream s' frame.stream_id)) [
      | inl e ↦ keep (inl refl) (rw (e, on_response_header) e')
      | inr (u, e) ↦ elim (Bool-cases (is_trailer frame.cat)) [
        | inl t ↦ keep (inl refl) (rw (e, on_response_header, t) e')
        | inr t ↦
            change f (λ u. refl) (λ u h. h)
              (responded-Appends s'.override_mime_type_ name value flags)
              (rw (e, on_response_header, t) (ap (update_in frame.stream_id f) e'))
      ]
    ]
header-Edit FrameType.push_promise s frame name value flags =
    elim (Option-cases (find_stream s frame.promised_stream_id)) [
      | inl e ↦ keep (inl refl) (rw (e, on_promised_header))
      | inr (u, e) ↦
          change (promised name value flags) (id-promised name value flags)
            (promised-Used name value flags) (promised-Appends name value flags)
            (rw (e, on_promised_header))
    ]
header-Edit _ s frame name value flags = keep (inl refl) refl

data_chunk-Edit :
    (s : Session) (id : ℕ) (chunk : Bytes)
    → Edit id (chunk ∷ []) false s.streams (on_data_chunk_recv s id chunk).streams
unfolding on_data_chunk_recv update_stream
data_chunk-Edit s id chunk =
    let s' = notify_state s ReadyState.loading in
    let e' = streams-notify_state s ReadyState.loading in
    elim (Option-cases (find_stream s' id)) [
      | inl e ↦
          keep (inr (ap (find_in id) (sym e') ∙ (unfold find_stream in e)))
            (rw (e, on_data_chunk_recv) e')
      | inr (u, e) ↦
          change (receive_chunk chunk) (λ u. unfold receive_chunk in refl)
            (λ u h. unfold receive_chunk in h) (λ u. unfold receive_chunk in refl)
            (rw (e, on_data_chunk_recv) (ap (update_in id (receive_chunk chunk)) e'))
    ]

erase_in-update_in :
    (id : ℕ) (f : Stream → Stream) (m : Streams) → erase_in id (update_in id f m) ≡ erase_in id m
unfolding erase_in update_in
erase_in-update_in id f [] = refl
erase_in-update_in id f ((k, u) ∷ m) = ground (arith, erase_in-update_in id f m)

pub stream_close-erase :
    (s : Session) (id : ℕ) → (on_stream_close s id).streams ≡ erase_in id s.streams
unfolding on_stream_close remove_stream
stream_close-erase s id = elim (Option-cases (find_stream s id)) [
  | inl e ↦ rw (e, on_stream_close)
  | inr (u, e) ↦
      rw (e, on_stream_close)
        (ap (erase_in id) (
            streams-notify_ready
              (notify_state (update_stream s id (set_state State.closed)) ReadyState.done)
              (set_state State.closed u)
            ∙ streams-notify_state (update_stream s id (set_state State.closed)) ReadyState.done)
          ∙ (unfold update_stream in erase_in-update_in id (set_state State.closed) s.streams))
]

-- Every handler makes one edit, at the stream that it names.
pub step-Edit :
    (s : Session) (c : Call) → Edit (target c) (chunks_of c) (closes c) s.streams (step s c).streams
unfolding step
step-Edit s (begin_headers frame) = unfold on_begin_headers in begin_headers-Edit frame.type s frame
step-Edit s (frame_recv frame) = frame_recv-Edit s frame
step-Edit s (frame_send frame) = frame_send-Edit s frame
step-Edit s (header frame name value flags) =
    unfold on_header in header-Edit frame.type s frame name value flags
step-Edit s (data_chunk id chunk) = data_chunk-Edit s id chunk
step-Edit s (stream_close id) = drop refl (stream_close-erase s id)
