-- ===== src/Io/Replay/Tests.antt =====
-- The sample connection receives two bytes for a stream that is there.
use xmlhttp_request.Prelude.{List, [], arith, codes, false, refl, some, true, ℕ, ◌++◌, ◌∷◌, ◌≡◌}
use xmlhttp_request.Session.{Event, ready, state_change, ReadyState, find_stream}
use xmlhttp_request.Session.Streams.{IsValid}
use xmlhttp_request.Callbacks.Trace.{data_chunk, step}
use xmlhttp_request.Callbacks.Trace.Events.{data_of, chunks_for}
use xmlhttp_request.Io.{
  Action, Io, called, read_socket, write_socket, on_read, write, send_loop, start_write,
  apply_calls,
}
use xmlhttp_request.Io.Sample.{frames, queue, queue-IsLawful}
use xmlhttp_request.Io.Reach.{Reach, here, next, received}
use xmlhttp_request.Io.Replay.Sample.{
  no_requests, ender, ender-IsLawful, waiting, waiting-IsValid, before_end, after_end, ended,
  ended-Reach,
}
use xmlhttp_request.Io.Replay.{replay}
use xmlhttp_request.Io.Replay.Closing.{Reach-close}
use xmlhttp_request.Message.Request.{Request}
use xmlhttp_request.Message.Response.{Response}
use xmlhttp_request.Callbacks.Trace.Reports.{AreQuiet}
use xmlhttp_request.Io.Replay.Streams.{Reach-IsValid, Reach-data, calls_of}

abbrev new_actions : List Action
new_actions = called (data_chunk 1 (codes "bc")) ∷ write_socket (frames 4) ∷ read_socket ∷ []

-- The answer is on its way and the next bytes are asked for.
abbrev behind : Io ℕ
behind = record waiting {
  app = step waiting.app (data_chunk 1 (codes "bc"));
  session = 0;
  wb_ = frames 4;
  writing = true;
  log = new_actions;
}

on_read-behind : on_read queue 9 false (codes "bc") waiting ≡ some behind
unfolding on_read write send_loop start_write apply_calls
on_read-behind = refl

behind-Reach : Reach queue no_requests queue-IsLawful waiting behind
behind-Reach = next here (received 9 false (codes "bc") (omega arith) on_read-behind)

Reach-IsValid_example : IsValid behind.app.streams
Reach-IsValid_example =
    Reach-IsValid queue no_requests queue-IsLawful waiting behind waiting-IsValid behind-Reach

Reach-data_example :
    data_of (find_stream behind.app 1)
    ≡ some ((codes "a" ∷ []) ++ chunks_for 1 (calls_of new_actions))
Reach-data_example =
    Reach-data queue no_requests queue-IsLawful waiting behind new_actions 1 (codes "a" ∷ [])
      waiting-IsValid behind-Reach refl (refl, tt) (unfold find_stream in refl)

Reach-close_example :
    (rq : Request) × (rp : Response) × (later : List Event) × (ended.app.events
      ≡ (replay waiting.app before_end).events
        ++ state_change ReadyState.done ∷ ready rq rp ∷ later)
    × (rp.data_ ≡ (codes "a" ∷ []) ++ chunks_for 1 (calls_of before_end))
    × (AreQuiet (calls_of after_end) → later ≡ [])
Reach-close_example =
    Reach-close ender no_requests ender-IsLawful waiting ended before_end after_end 1
      (codes "a" ∷ []) waiting-IsValid ended-Reach refl (refl, tt) refl refl
      (unfold find_stream in refl)
