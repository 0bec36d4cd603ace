-- ===== src/Io/Replay/Closing.antt =====
-- The end of a stream: what the application is told when nghttp2 closes it.
use mathlib.Core.List.{append_cancel_left}
use xmlhttp_request.Prelude.{
  List, [], refl, true, ℕ, ◌∙◌, ◌∷◌, ◌≡◌, Bytes, ap, append-nil, append_assoc, some, sym, ◌++◌,
}
use xmlhttp_request.Message.Request.{Request}
use xmlhttp_request.Message.Response.{Response}
use xmlhttp_request.Stream.{Stream, new_stream}
use xmlhttp_request.Session.{
  Event, ready, state_change, ReadyState, Session, add_stream, find_stream,
}
use xmlhttp_request.Session.Streams.{IsValid}
use xmlhttp_request.Callbacks.Trace.{step, stream_close}
use xmlhttp_request.Callbacks.Trace.Events.{data_of, chunks_for, StaysOpen, close-reported}
use xmlhttp_request.Callbacks.Trace.Reports.{
  AreQuiet, step-quiet, Grows, Grows-refl, Grows-trans, step-Grows, add_stream-Grows,
}
use xmlhttp_request.Io.{Action, Io, Nghttp2, called, filed}
use xmlhttp_request.Io.Laws.{IsLawful}
use xmlhttp_request.Io.Submit.{Library}
use xmlhttp_request.Io.Reach.{Reach}
use xmlhttp_request.Io.Replay.{replay, replay-append}
use xmlhttp_request.Io.Replay.Streams.{Reach-replay, calls_of, replay-data}

pub replay-Grows : (a : Session) (log : List Action) → Grows a (replay a log)
unfolding replay
replay-Grows a [] = Grows-refl a
replay-Grows a (called c ∷ log) = Grows-trans (step-Grows a c) (replay-Grows (step a c) log)
replay-Grows a (filed id ∷ log) =
    Grows-trans (add_stream-Grows a (new_stream id))
      (replay-Grows (add_stream a (new_stream id)).0 log)
replay-Grows a (_ ∷ log) = replay-Grows a log

add_stream-events : (s : Session) (u : Stream) → (add_stream s u).0.events ≡ s.events
unfolding add_stream
add_stream-events s u = refl

replay-quiet :
    (a : Session) (log : List Action) → AreQuiet (calls_of log) → (replay a log).events ≡ a.events
unfolding replay
replay-quiet a [] h = refl
replay-quiet a (called c ∷ log) (hc, h) = replay-quiet (step a c) log h ∙ step-quiet a c hc
replay-quiet a (filed id ∷ log) h =
    replay-quiet (add_stream a (new_stream id)).0 log h ∙ add_stream-events a (new_stream id)
replay-quiet a (_ ∷ log) h = replay-quiet a log h

-- What a log comes to in which a stream closes.
replay-close :
    (a : Session) (new rest : List Action) (id : ℕ) (before : List Bytes)
    → IsValid a.streams
    → StaysOpen id (calls_of new)
    → a.has_state_callback ≡ true
    → a.has_ready_callback ≡ true
    → data_of (find_stream a id) ≡ some before
    → (rq : Request) × (rp : Response) × (later : List Event) × ((replay a
          (new ++ called (stream_close id) ∷ rest)).events
        ≡ (replay a new).events ++ state_change ReadyState.done ∷ ready rq rp ∷ later)
      × (rp.data_ ≡ before ++ chunks_for id (calls_of new))
      × (AreQuiet (calls_of rest) → later ≡ [])
unfolding replay
replay-close a new rest id before v o sc rc h =
    let b = replay a new in
    let g = replay-Grows a new in
    let (rq, rp, closed, chunks) =
      close-reported b id (before ++ chunks_for id (calls_of new)) (g.state_kept ∙ sc)
        (g.ready_kept ∙ rc) (replay-data a new id before v o h) in
    let c = step b (stream_close id) in
    let k = replay-Grows c rest in
    (
      rq,
      rp,
      k.more,
      rw (replay-append a new (called (stream_close id) ∷ rest)) (
          k.grown
          ∙ ap (λ e. e ++ k.more) closed
          ∙ append_assoc b.events (state_change ReadyState.done ∷ ready rq rp ∷ []) k.more),
      chunks,
      λ q.
          append_cancel_left c.events k.more []
            (sym k.grown ∙ replay-quiet c rest q ∙ sym (append-nil c.events)),
    )

module _ {L : Type 0} (lib : Nghttp2 L) (requests : Library L) (laws : IsLawful lib) where
  -- However a connection goes on, with its streams filed under their own ids, when nghttp2 closes a
  -- stream that was there, the application, if it has set both callbacks, is told that the request
  -- is done and then gets the response, behind all that was reported before; the response holds the
  -- data that the stream had, followed by exactly the chunks that were received for it up to then.
  -- Nothing more is reported as long as only frames and no fields, data or ends of streams come.
  pub Reach-close :
      (s s' : Io L) (new rest : List Action) (id : ℕ) (before : List Bytes)
      → IsValid s.app.streams
      → Reach lib requests laws s s'
      → s'.log ≡ s.log ++ (new ++ called (stream_close id) ∷ rest)
      → StaysOpen id (calls_of new)
      → s.app.has_state_callback ≡ true
      → s.app.has_ready_callback ≡ true
      → data_of (find_stream s.app id) ≡ some before
      → (rq : Request) × (rp : Response) × (later : List Event) × (s'.app.events
          ≡ (replay s.app new).events ++ state_change ReadyState.done ∷ ready rq rp ∷ later)
        × (rp.data_ ≡ before ++ chunks_for id (calls_of new))
        × (AreQuiet (calls_of rest) → later ≡ [])
  Reach-close s s' new rest id before v r grown o sc rc h =
      let (rq, rp, later, told, chunks, quiet) =
        replay-close s.app new rest id before v o sc rc h in
      (
        rq,
        rp,
        later,
        ap (λ a. a.events) (Reach-replay lib requests laws s s' _ r grown) ∙ told,
        chunks,
        quiet,
      )
