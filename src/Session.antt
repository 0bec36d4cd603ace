-- ===== src/Session.antt =====
-- source/abstractsession.cpp: the part of `AbstractSession` that the nghttp2 callbacks work on: the
-- map of streams, the callbacks that are set and the overridden MIME type. What is called is
-- recorded, in order, in `events`.
pub mod Streams
use xmlhttp_request.Prelude.{
  Bool, Bytes, List, Option, [], false, if◌then◌else◌, none, some, true, ℕ, ◌++◌, ◌==◌, ◌∷◌,
}
use xmlhttp_request.Message.Request.{Request}
use xmlhttp_request.Message.Response.{Response}
use xmlhttp_request.Stream.{Stream, new_stream, is_closed}

-- include/xmlhttprequeststate.h.
pub data ReadyState : Type 0 where
  unsent opened headers_received loading done : ReadyState

pub data Event : Type 0 where
  state_change : ReadyState → Event
  ready : Request → Response → Event

-- `Streams`: a map from ids to streams, in no order that the code relies on.
abbrev pub Streams : Type 0
Streams = List (ℕ × Stream)

pub record Session : Type 0 where
  pub streams : Streams
  pub override_mime_type_ : Bytes
  pub has_state_callback : Bool
  pub has_ready_callback : Bool
  pub events : List Event

-- `streams.find(id)`.
pub find_in : ℕ → Streams → Option Stream
find_in id [] = none
find_in id ((k, strm) ∷ m) = if k == id then some strm else find_in id m

-- `streams.try_emplace(id, strm)`: nothing where the id is taken.
unfoldable pub try_emplace : ℕ → Stream → Streams → Streams × Bool
try_emplace id strm [] = ((id, strm) ∷ [], true)
try_emplace id strm ((k, other) ∷ m) =
    let (m', ok) = try_emplace id strm m in
    if k == id then ((k, other) ∷ m, false) else ((k, other) ∷ m', ok)

-- `streams.erase(id)`.
unfoldable pub erase_in : ℕ → Streams → Streams
erase_in id [] = []
erase_in id ((k, strm) ∷ m) = if k == id then m else (k, strm) ∷ erase_in id m

-- What is done to a stream through the pointer that the map holds.
unfoldable pub update_in : ℕ → (Stream → Stream) → Streams → Streams
update_in id f [] = []
update_in id f ((k, strm) ∷ m) = if k == id then (k, f strm) ∷ m else (k, strm) ∷ update_in id f m

unfoldable pub find_stream : Session → ℕ → Option Stream
unfolding find_in
find_stream s id = find_in id s.streams

unfoldable pub create_push_stream : ℕ → Stream
unfolding new_stream
create_push_stream id = new_stream id

unfoldable pub add_stream : Session → Stream → Session × Bool
unfolding try_emplace
add_stream s strm =
    let (m, ok) = try_emplace strm.stream_id_ strm s.streams in (record s { streams = m }, ok)

unfoldable pub remove_stream : Session → ℕ → Session
unfolding erase_in
remove_stream s id = record s { streams = erase_in id s.streams }

unfoldable pub update_stream : Session → ℕ → (Stream → Stream) → Session
unfolding update_in
update_stream s id f = record s { streams = update_in id f s.streams }

closed_in : Streams → List Stream
closed_in [] = []
closed_in ((k, strm) ∷ m) = if is_closed strm.state then strm ∷ closed_in m else closed_in m

pub find_closed_streams : Session → List Stream
unfolding closed_in
find_closed_streams s = closed_in s.streams

pub streams_empty : Session → Bool
streams_empty s = elim s.streams [ [] ↦ true | _ ∷ _ ↦ false ]

pub set_mime_overriden_type : Session → Bytes → Session
set_mime_overriden_type s mime = record s { override_mime_type_ = mime }

-- `setOnReadyCallback(cb)`: an empty callback leaves the one that is set.
unfoldable pub set_on_ready_callback : Bool → Session → Session
set_on_ready_callback cb s = if cb then record s { has_ready_callback = true } else s

pub set_on_state_change_callback : Bool → Session → Session
set_on_state_change_callback cb s = record s { has_state_callback = cb }

-- `if (auto cb = s->getOnStateChangeCallback(); cb) cb(state);`.
unfoldable pub notify_state : Session → ReadyState → Session
notify_state s state =
    if s.has_state_callback then record s { events = s.events ++ state_change state ∷ [] } else s

-- `if (auto cb = s->getOnReadyCallback(); cb) cb(make_pair(request, response));`.
unfoldable pub notify_ready : Session → Stream → Session
notify_ready s strm =
    if s.has_ready_callback then record s { events = s.events ++ ready strm.rq strm.rp ∷ [] } else s
