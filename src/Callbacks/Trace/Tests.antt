-- ===== src/Callbacks/Trace/Tests.antt =====
-- A response that comes in two chunks, with another stream in between.
use xmlhttp_request.Prelude.{List, [], arith, codes, minus_one, none, refl, true, ◌++◌, ◌∷◌, ◌≡◌}
use xmlhttp_request.Stream.{State, Stream}
use xmlhttp_request.Session.{Session, find_stream}
use xmlhttp_request.Session.Streams.{IsValid}
use xmlhttp_request.Callbacks.Frame.{FrameType, Category, Frame}
use xmlhttp_request.Callbacks.Receive.{on_stream_close}
use xmlhttp_request.Callbacks.Trace.{Call, begin_headers, header, data_chunk, stream_close}
use xmlhttp_request.Callbacks.Trace.Events.{chunks_for, reported, on_stream_close_lem}

abbrev fresh : Session
fresh = record {
  streams = [];
  override_mime_type_ = [];
  has_state_callback = true;
  has_ready_callback = true;
  events = [];
}

abbrev stream1 : Stream
stream1 = record {
  stream_id_ = 1;
  status_code = 0;
  state = State.open';
  rq = record { scheme_ = []; host_ = []; method_ = []; header_ = [] };
  rp = record {
    content_length_ = 0;
    header_buffer_size_ = 0;
    status_code_ = minus_one;
    header_ = [];
    data_ = codes "a" ∷ [];
  };
}

abbrev session1 : Session
session1 = record fresh { streams = (1, stream1) ∷ [] }

session1-IsValid : IsValid session1.streams
session1-IsValid = record { distinct = (tt, tt); filed = (refl, tt) }

abbrev headers1 : Frame
headers1 = record {
  type = FrameType.headers;
  stream_id = 1;
  flags = 4;
  cat = Category.response;
  promised_stream_id = 0;
  nva = [];
}

abbrev calls : List Call
calls =
    begin_headers headers1
    ∷ header headers1 (codes ":status") (codes "200") 0
    ∷ data_chunk 1 (codes "x")
    ∷ stream_close 1
    ∷ []

abbrev chunks : List Call
chunks = data_chunk 1 (codes "b") ∷ data_chunk 3 (codes "z") ∷ data_chunk 1 (codes "c") ∷ []

chunks_for1 : chunks_for 1 chunks ≡ codes "b" ∷ codes "c" ∷ []
chunks_for1 = refl

on_stream_close_lem_example :
    (find_stream (on_stream_close session1 1) 1 ≡ none)
    × (find_stream (on_stream_close session1 1) 3 ≡ find_stream session1 3)
    × ((on_stream_close session1 1).events
        ≡ session1.events ++ reported session1 (find_stream session1 1))
on_stream_close_lem_example =
    on_stream_close_lem session1 1 3 session1-IsValid (λ e. omega (arith, e))
