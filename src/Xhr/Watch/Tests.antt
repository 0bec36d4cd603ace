-- ===== src/Xhr/Watch/Tests.antt =====
-- The last bytes of a response come in, and nghttp2 closes its stream.
use xmlhttp_request.Prelude.{List, [], codes, false, none, refl, true, ◌++◌, ◌∷◌, ◌≡◌}
use xmlhttp_request.Session.{Event, ReadyState, find_stream}
use xmlhttp_request.Callbacks.Trace.Events.{chunks_for}
use xmlhttp_request.Io.Replay.Streams.{calls_of}
use xmlhttp_request.Xhr.{Xhr}
use xmlhttp_request.Xhr.Watch.{HasResponse, Reach-response, note_all}
use xmlhttp_request.Io.Replay.Sample.{
  no_requests, ender, ender-IsLawful, waiting, waiting-IsValid, before_end, after_end, ended,
  ended-Reach,
}

abbrev request : Xhr
request = record {
  has_session = true;
  has_state_callback = true;
  is_async = false;
  elements = record { addr = []; port = []; protocol = []; urn = [] };
  method = codes "GET";
  header_ = [];
  response = none;
  ready_state = ReadyState.opened;
  timeout = 0;
  has_timer = false;
}

Reach-response_example :
    (since : List Event) × (ended.app.events ≡ waiting.app.events ++ since)
    × HasResponse ((codes "a" ∷ []) ++ chunks_for 1 (calls_of before_end)) (note_all since request)
Reach-response_example =
    Reach-response ender no_requests ender-IsLawful request waiting ended before_end after_end 1
      (codes "a" ∷ []) refl waiting-IsValid ended-Reach refl (refl, tt) tt refl refl
      (unfold find_stream in refl)
