-- ===== src/Io/Replay/Sample.antt =====
-- A connection on which the last bytes of a response come in, and nghttp2 closes its stream.
use xmlhttp_request.Prelude.{
  List, [], arith, codes, false, length, minus_one, none, pos, refl, some, suc, true, ℕ, ◌++◌, ◌∷◌,
  ◌≡◌,
}
use xmlhttp_request.Stream.{State, Stream}
use xmlhttp_request.Session.{find_stream, notify_state, update_stream}
use xmlhttp_request.Session.Streams.{IsValid}
use xmlhttp_request.Callbacks.Receive.{on_data_chunk_recv}
use xmlhttp_request.Callbacks.Trace.{data_chunk, step, stream_close}
use xmlhttp_request.Io.{
  Action, Io, Nghttp2, called, cancel_deadline, cancel_ping, shutdown_socket, on_read, write, stop,
  apply_calls,
}
use xmlhttp_request.Io.Laws.{IsLawful}
use xmlhttp_request.Io.Submit.{Library}
use xmlhttp_request.Io.Sample.{frames, fresh, queue, queue-Served, connected}
use xmlhttp_request.Io.Reach.{Reach, here, next, received}

abbrev pub no_requests : Library ℕ
no_requests = record { parse_url = λ url. none; submit_request = λ n nva body. (n, pos 1) }

-- The sample session, which closes the stream behind the bytes that it receives.
abbrev pub ender : Nghttp2 ℕ
ender = record queue {
  mem_recv = λ n bytes. (suc n, data_chunk 1 bytes ∷ stream_close 1 ∷ [], pos (length bytes));
}

abbrev pub ender-IsLawful : IsLawful ender
ender-IsLawful = record { todo = frames; served = queue-Served }

abbrev pub stream1 : Stream
stream1 = record {
  stream_id_ = 1;
  status_code = 0;
  state = State.open';
  rq = record { scheme_ = []; host_ = []; method_ = []; header_ = [] };
  rp = record {
    content_length_ = 0;
    header_buffer_size_ = 0;
    status_code_ = minus_one;
    header_ = [];
    data_ = codes "a" ∷ [];
  };
}

abbrev pub waiting : Io ℕ
waiting = record connected { app = record fresh { streams = (1, stream1) ∷ [] } }

pub waiting-IsValid : IsValid waiting.app.streams
waiting-IsValid = record { distinct = (tt, tt); filed = (refl, tt) }

abbrev pub before_end : List Action
before_end = called (data_chunk 1 (codes "bc")) ∷ []

abbrev pub after_end : List Action
after_end = cancel_ping ∷ shutdown_socket ∷ cancel_deadline ∷ []

-- The response is reported, which stops the session.
abbrev pub ended : Io ℕ
ended = record waiting {
  stopped = true;
  ping_is_started = false;
  app = step (step waiting.app (data_chunk 1 (codes "bc"))) (stream_close 1);
  session = 4;
  log = before_end ++ called (stream_close 1) ∷ after_end;
}

on_read-ended : on_read ender 9 false (codes "bc") waiting ≡ some ended
unfolding on_read write apply_calls stop step on_data_chunk_recv find_stream notify_state
    update_stream
on_read-ended = refl

pub ended-Reach : Reach ender no_requests ender-IsLawful waiting ended
ended-Reach = next here (received 9 false (codes "bc") (omega arith) on_read-ended)
