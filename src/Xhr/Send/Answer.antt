-- ===== src/Xhr/Send/Answer.antt =====
-- A request from the call of `send` to its response.
pub mod Tests
use xmlhttp_request.Prelude.{
  Bool, Bytes, List, ap, arith, if◌then◌else◌, not, some, subst, sym, true, ℕ, ◌&&◌, ◌++◌, ◌∙◌, ◌∷◌,
  ◌≡◌,
}
use xmlhttp_request.Session.{Event, find_stream, set_on_ready_callback}
use xmlhttp_request.Session.Streams.{IsValid}
use xmlhttp_request.Callbacks.Trace.{stream_close}
use xmlhttp_request.Callbacks.Trace.Events.{data_of, chunks_for, StaysOpen}
use xmlhttp_request.Callbacks.Trace.Reports.{AreQuiet}
use xmlhttp_request.Io.{Action, Io, called}
use xmlhttp_request.Io.Laws.{IsLawful}
use xmlhttp_request.Io.Reach.{Reach}
use xmlhttp_request.Io.Replay.Streams.{calls_of, replay-IsValid}
use xmlhttp_request.Io.Replay.Closing.{replay-Grows}
use xmlhttp_request.Xhr.Watch.{HasResponse, Reach-response, hears, note_all}
use xmlhttp_request.Xhr.Send.{Client, World, went, send, send_with_callback}
use xmlhttp_request.Xhr.Send.Follows.{Goes, OnWent, send-OnWent}

both_first : (a b : Bool) → (a && b) ≡ true → a ≡ true
both_first a b h = ground arith

module _ {L : Type 0} where
  -- The client with the callback of `send(cb)`.
  abbrev with_callback : Client L → Client L
  with_callback c = record c {
    io = record c.io {
      app = set_on_ready_callback true c.io.app;
      stops_on_ready = not c.xhr.is_async;
    };
  }

  send_with_callback-send :
      (w : World L) (c : Client L)
      → c.xhr.has_session ≡ true
      → send_with_callback w c ≡ send w (with_callback c)
  unfolding send_with_callback
  send_with_callback-send w c has = ap (λ b. if not b then went c else send w (with_callback c)) has

  -- From `send(cb)` to the response: wherever `send` ends, with the streams of the session filed under
  -- their own ids and the callbacks of the request set, however the connection goes on then, when
  -- the stream of the request has closed, and only frames came behind it, the request is done and has
  -- a response, which holds the data that its stream had when `send` ended, followed by exactly the
  -- chunks that were received for it.
  pub send_with_callback-answer :
      (w : World L) (laws : IsLawful w.lib) (c c' : Client L) (s' : Io L) (new rest : List Action)
      (id : ℕ) (before : List Bytes)
      → hears c.xhr ≡ true
      → IsValid c.io.app.streams
      → c.io.app.has_state_callback ≡ true
      → send_with_callback w c ≡ went c'
      → Reach w.lib w.requests laws c'.io s'
      → s'.log ≡ c'.io.log ++ (new ++ called (stream_close id) ∷ rest)
      → StaysOpen id (calls_of new)
      → AreQuiet (calls_of rest)
      → data_of (find_stream c'.io.app id) ≡ some before
      → (since : List Event) × (s'.app.events ≡ c'.io.app.events ++ since)
        × HasResponse (before ++ chunks_for id (calls_of new)) (note_all since c'.xhr)
  unfolding set_on_ready_callback
  send_with_callback-answer w laws c c' s' new rest id before hx v sc sent r grown o q h =
      let c1 = with_callback c in
      let has = both_first c.xhr.has_session c.xhr.has_state_callback hx in
      let goes : Goes c1 c' =
        subst (OnWent c1) (sym (send_with_callback-send w c has) ∙ sent) (send-OnWent w laws c1) in
      let f = goes.follows in
      let g = replay-Grows c1.io.app f.new in
      let hears' : hears c'.xhr ≡ true =
        ap (λ b. b && c'.xhr.has_state_callback) goes.session_kept
        ∙ ap (λ b. c.xhr.has_session && b) goes.callback_kept
        ∙ hx in
      Reach-response w.lib w.requests laws c'.xhr c'.io s' new rest id before hears'
        (subst (λ a. IsValid a.streams) (sym f.replays) (replay-IsValid c1.io.app f.new v)) r grown
        o q (ap (λ a. a.has_state_callback) f.replays ∙ g.state_kept ∙ sc)
        (ap (λ a. a.has_ready_callback) f.replays ∙ g.ready_kept) h
