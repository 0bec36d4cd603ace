-- ===== src/Callbacks/Trace/Reports.antt =====
-- What the handlers report: which callbacks are set stays as it is, and what was reported stays
-- reported.
use xmlhttp_request.Prelude.{
  Bytes, List, Option, Option-cases, [], ap, append-nil, append_assoc, if_both, inl, inr, none,
  refl, some, sym, ℕ, ◌++◌, ◌∙◌, ◌∷◌, ◌≡◌, All, Bool, false, false≢true, true,
}
use xmlhttp_request.Stream.{State, Stream, new_stream, set_state}
use xmlhttp_request.Session.{
  Event, ready, state_change, Streams, ReadyState, Session, find_stream, create_push_stream,
  add_stream, remove_stream, update_stream, notify_state, notify_ready, try_emplace, update_in,
  erase_in,
}
use xmlhttp_request.Callbacks.Frame.{FrameType, Frame, is_trailer}
use xmlhttp_request.Callbacks.Receive.{
  begin_headers_of, create_and_add_stream, on_begin_headers, on_frame_recv, receive, receive_chunk,
  on_data_chunk_recv, on_stream_close,
}
use xmlhttp_request.Callbacks.Headers.{
  header_of, on_header, on_response_header, on_promised_header, responded, promised,
}
use xmlhttp_request.Callbacks.Send.{before_frame_send, process_outgoing}
use xmlhttp_request.Callbacks.Trace.{
  Call, step, begin_headers, frame_recv, frame_send, header, data_chunk, stream_close,
}

-- From one session to another, the callbacks are the same ones, and the events have grown by `more`.
pub record Grows (s s' : Session) : Type 0 where
  pub more : List Event
  pub grown : s'.events ≡ s.events ++ more
  pub state_kept : s'.has_state_callback ≡ s.has_state_callback
  pub ready_kept : s'.has_ready_callback ≡ s.has_ready_callback

pub Grows-quiet :
    (s s' : Session)
    → s'.events ≡ s.events
    → s'.has_state_callback ≡ s.has_state_callback
    → s'.has_ready_callback ≡ s.has_ready_callback
    → Grows s s'
Grows-quiet s s' e a b = record {
  more = [];
  grown = e ∙ sym (append-nil s.events);
  state_kept = a;
  ready_kept = b;
}

pub Grows-refl : (s : Session) → Grows s s
Grows-refl s = Grows-quiet s s refl refl refl

pub Grows-trans : {s t u : Session} → Grows s t → Grows t u → Grows s u
Grows-trans {s} g h = record {
  more = g.more ++ h.more;
  grown = h.grown ∙ ap (λ e. e ++ h.more) g.grown ∙ append_assoc s.events g.more h.more;
  state_kept = h.state_kept ∙ g.state_kept;
  ready_kept = h.ready_kept ∙ g.ready_kept;
}

-- Edits of the streams report nothing.
streams-Grows : (s : Session) (m : Streams) → Grows s (record s { streams = m })
streams-Grows s m = Grows-quiet s (record s { streams = m }) refl refl refl

update_stream-Grows : (s : Session) (id : ℕ) (f : Stream → Stream) → Grows s (update_stream s id f)
unfolding update_stream
update_stream-Grows s id f = streams-Grows s (update_in id f s.streams)

pub add_stream-Grows : (s : Session) (u : Stream) → Grows s (add_stream s u).0
unfolding add_stream
add_stream-Grows s u = streams-Grows s (try_emplace u.stream_id_ u s.streams).0

remove_stream-Grows : (s : Session) (id : ℕ) → Grows s (remove_stream s id)
unfolding remove_stream
remove_stream-Grows s id = streams-Grows s (erase_in id s.streams)

notify_state-Grows : (s : Session) (r : ReadyState) → Grows s (notify_state s r)
unfolding notify_state
notify_state-Grows s r =
    if_both (Grows s) s.has_state_callback _ _
      (record { more = state_change r ∷ []; grown = refl; state_kept = refl; ready_kept = refl })
      (Grows-refl s)

notify_ready-Grows : (s : Session) (u : Stream) → Grows s (notify_ready s u)
unfolding notify_ready
notify_ready-Grows s u =
    if_both (Grows s) s.has_ready_callback _ _
      (record { more = ready u.rq u.rp ∷ []; grown = refl; state_kept = refl; ready_kept = refl })
      (Grows-refl s)

-- What holds of what a handler does to the stream that it finds, and of what it does where it finds
-- none.
found_both :
    (P : Session → Type 0) (r : Option Stream) (s' other : Session)
    → P s'
    → P other
    → P (elim r [ none ↦ other | some _ ↦ s' ])
found_both P none s' other g h = h
found_both P (some u) s' other g h = g

begin_headers-Grows :
    (t : FrameType) (s : Session) (frame : Frame) → Grows s (begin_headers_of t s frame)
unfolding begin_headers_of create_and_add_stream
begin_headers-Grows FrameType.push_promise s frame =
    add_stream-Grows s (create_push_stream frame.promised_stream_id)
begin_headers-Grows _ s frame = add_stream-Grows s (new_stream frame.stream_id)

header-Grows :
    (t : FrameType) (s : Session) (frame : Frame) (name value : Bytes) (flags : ℕ)
    → Grows s (header_of t s frame name value flags)
unfolding header_of on_response_header on_promised_header
header-Grows FrameType.headers s frame name value flags =
    let s' = notify_state s ReadyState.headers_received in
    let g = notify_state-Grows s ReadyState.headers_received in
    found_both (Grows s) (find_stream s' frame.stream_id) _ s'
      (if_both (Grows s) (is_trailer frame.cat) _ _ g (
        Grows-trans g (
          update_stream-Grows s' frame.stream_id
            (responded s'.override_mime_type_ name value flags))))
      g
header-Grows FrameType.push_promise s frame name value flags =
    found_both (Grows s) (find_stream s frame.promised_stream_id) _ s
      (update_stream-Grows s frame.promised_stream_id (promised name value flags)) (Grows-refl s)
header-Grows _ s frame name value flags = Grows-refl s

frame_recv-Grows : (s : Session) (frame : Frame) → Grows s (on_frame_recv s frame)
unfolding on_frame_recv
frame_recv-Grows s frame =
    found_both (Grows s) (find_stream s frame.stream_id) _ s
      (update_stream-Grows s frame.stream_id (receive frame.type frame)) (Grows-refl s)

data_chunk-Grows : (s : Session) (id : ℕ) (chunk : Bytes) → Grows s (on_data_chunk_recv s id chunk)
unfolding on_data_chunk_recv
data_chunk-Grows s id chunk =
    let s' = notify_state s ReadyState.loading in
    let g = notify_state-Grows s ReadyState.loading in
    found_both (Grows s) (find_stream s' id) _ s'
      (Grows-trans g (update_stream-Grows s' id (receive_chunk chunk))) g

frame_send-Grows : (s : Session) (frame : Frame) → Grows s (before_frame_send s frame)
unfolding before_frame_send
frame_send-Grows s frame = elim (Option-cases (find_stream s frame.stream_id)) [
  | inl e ↦ rw (e, before_frame_send) (add_stream-Grows s _)
  | inr (u, e) ↦
      rw (e, before_frame_send)
        (update_stream-Grows s frame.stream_id (process_outgoing frame.type frame))
]

stream_close-Grows : (s : Session) (id : ℕ) → Grows s (on_stream_close s id)
unfolding on_stream_close
stream_close-Grows s id = elim (Option-cases (find_stream s id)) [
  | inl e ↦ rw (e, on_stream_close) (remove_stream-Grows s id)
  | inr (u, e) ↦
      let closed = set_state State.closed u in
      let s1 = update_stream s id (set_state State.closed) in
      let s2 = notify_state s1 ReadyState.done in
      rw (e, on_stream_close)
        (Grows-trans
          (Grows-trans (update_stream-Grows s id (set_state State.closed))
            (notify_state-Grows s1 ReadyState.done))
          (Grows-trans (notify_ready-Grows s2 closed)
            (remove_stream-Grows (notify_ready s2 closed) id)))
]

-- Every handler.
pub step-Grows : (s : Session) (c : Call) → Grows s (step s c)
unfolding step
step-Grows s (begin_headers frame) =
    unfold on_begin_headers in begin_headers-Grows frame.type s frame
step-Grows s (frame_recv frame) = frame_recv-Grows s frame
step-Grows s (frame_send frame) = frame_send-Grows s frame
step-Grows s (header frame name value flags) =
    unfold on_header in header-Grows frame.type s frame name value flags
step-Grows s (data_chunk id chunk) = data_chunk-Grows s id chunk
step-Grows s (stream_close id) = stream_close-Grows s id

-- The handlers that call neither callback.
abbrev pub is_quiet : Call → Bool
is_quiet (begin_headers frame) = true
is_quiet (frame_recv frame) = true
is_quiet (frame_send frame) = true
is_quiet _ = false

abbrev pub AreQuiet : List Call → Type 0
AreQuiet = All (λ c. is_quiet c ≡ true)

begin_headers-quiet :
    (t : FrameType) (s : Session) (frame : Frame) → (begin_headers_of t s frame).events ≡ s.events
unfolding begin_headers_of create_and_add_stream add_stream
begin_headers-quiet FrameType.push_promise s frame = refl
begin_headers-quiet _ s frame = refl

frame_send-quiet : (s : Session) (frame : Frame) → (before_frame_send s frame).events ≡ s.events
unfolding before_frame_send update_stream add_stream
frame_send-quiet s frame = elim (Option-cases (find_stream s frame.stream_id)) [
  | inl e ↦ rw (e, before_frame_send) refl
  | inr (u, e) ↦ rw (e, before_frame_send) refl
]

pub step-quiet : (s : Session) (c : Call) → is_quiet c ≡ true → (step s c).events ≡ s.events
unfolding step
step-quiet s (begin_headers frame) h =
    unfold on_begin_headers in begin_headers-quiet frame.type s frame
step-quiet s (frame_recv frame) h =
    unfold on_frame_recv update_stream in
    found_both (λ t. t.events ≡ s.events) (find_stream s frame.stream_id) _ s refl refl
step-quiet s (frame_send frame) h = frame_send-quiet s frame
step-quiet s (header frame name value flags) h = absurd (false≢true h)
step-quiet s (data_chunk id chunk) h = absurd (false≢true h)
step-quiet s (stream_close id) h = absurd (false≢true h)
