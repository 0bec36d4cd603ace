-- ===== src/Xhr/Watch.antt =====
-- source/xmlhttprequest.cpp: what a request makes of the reports of its session, by the callbacks that
-- `setOnStateChangedCallback` and `setOnReadyCallback` set.
pub mod Tests
use xmlhttp_request.Prelude.{
  Bool, List, [], arith, refl, some, true, ◌&&◌, ◌++◌, ◌∙◌, ◌∷◌, ◌≡◌, Bytes, ap, append_assoc, ℕ,
}
use xmlhttp_request.Message.Request.{Request}
use xmlhttp_request.Message.Response.{Response}
use xmlhttp_request.Session.{Event, ready, state_change, ReadyState, find_stream}
use xmlhttp_request.Session.Streams.{IsValid}
use xmlhttp_request.Callbacks.Trace.{stream_close}
use xmlhttp_request.Callbacks.Trace.Events.{data_of, chunks_for, StaysOpen}
use xmlhttp_request.Callbacks.Trace.Reports.{AreQuiet}
use xmlhttp_request.Io.{Action, Io, Nghttp2, called}
use xmlhttp_request.Io.Laws.{IsLawful}
use xmlhttp_request.Io.Submit.{Library}
use xmlhttp_request.Io.Reach.{Reach}
use xmlhttp_request.Io.Replay.Streams.{calls_of}
use xmlhttp_request.Io.Replay.{replay}
use xmlhttp_request.Io.Replay.Closing.{Reach-close, replay-Grows}
use xmlhttp_request.Xhr.{Xhr, on_ready, on_state}

-- What one report does to the request.
pub note : Event → Xhr → Xhr
note (state_change state) x = on_state state x
note (ready rq rp) x = (on_ready rp x).0

pub note_all : List Event → Xhr → Xhr
unfolding note
note_all [] x = x
note_all (e ∷ events) x = note_all events (note e x)

note_all-append :
    (events more : List Event) (x : Xhr)
    → note_all (events ++ more) x ≡ note_all more (note_all events x)
unfolding note_all
note_all-append [] more x = refl
note_all-append (e ∷ events) more x = note_all-append events more (note e x)

-- The request hears of the states that its session reports.
abbrev pub hears : Xhr → Bool
hears x = x.has_session && x.has_state_callback

note-hears : (e : Event) (x : Xhr) → hears (note e x) ≡ hears x
unfolding note on_state on_ready
note-hears (state_change state) x = ground arith
note-hears (ready rq rp) x = refl

note_all-hears : (events : List Event) (x : Xhr) → hears (note_all events x) ≡ hears x
unfolding note_all
note_all-hears [] x = refl
note_all-hears (e ∷ events) x = note_all-hears events (note e x) ∙ note-hears e x

note_done :
    (rq : Request) (rp : Response) (x : Xhr)
    → hears x ≡ true
    → ((note_all (state_change ReadyState.done ∷ ready rq rp ∷ []) x).ready_state ≡ ReadyState.done)
      × ((note_all (state_change ReadyState.done ∷ ready rq rp ∷ []) x).response ≡ some rp)
unfolding note_all note on_state on_ready
note_done rq rp x h = (rw h refl, refl)

-- What a request has in the end: the state and the response, which holds the chunks.
pub record HasResponse (chunks : List Bytes) (x : Xhr) : Type 0 where
  pub state : x.ready_state ≡ ReadyState.done
  pub answer : Response
  pub saved : x.response ≡ some answer
  pub body : answer.data_ ≡ chunks

module _ {L : Type 0} (lib : Nghttp2 L) (requests : Library L) (laws : IsLawful lib) where
  -- However a connection goes on, with its streams filed under their own ids, that reports to a
  -- request with both callbacks set: when the stream of the request, which was there, has closed,
  -- and only frames came behind it, what was reported since leaves the request done, with a
  -- response that holds the data that the stream had, followed by exactly the chunks that were
  -- received for it, whatever came before and in between.
  pub Reach-response :
      (x : Xhr) (s s' : Io L) (new rest : List Action) (id : ℕ) (before : List Bytes)
      → hears x ≡ true
      → IsValid s.app.streams
      → Reach lib requests laws s s'
      → s'.log ≡ s.log ++ (new ++ called (stream_close id) ∷ rest)
      → StaysOpen id (calls_of new)
      → AreQuiet (calls_of rest)
      → s.app.has_state_callback ≡ true
      → s.app.has_ready_callback ≡ true
      → data_of (find_stream s.app id) ≡ some before
      → (since : List Event) × (s'.app.events ≡ s.app.events ++ since)
        × HasResponse (before ++ chunks_for id (calls_of new)) (note_all since x)
  Reach-response x s s' new rest id before hx v r grown o q sc rc h =
      let (rq, rp, later, told, chunks, quiet) =
        Reach-close lib requests laws s s' new rest id before v r grown o sc rc h in
      let g = replay-Grows s.app new in
      let end_of_it = state_change ReadyState.done ∷ ready rq rp ∷ [] in
      let x1 = note_all g.more x in
      let (state, saved) = note_done rq rp x1 (note_all-hears g.more x ∙ hx) in
      (
        g.more ++ end_of_it,
        told
            ∙ ap (λ e. (replay s.app new).events ++ state_change ReadyState.done ∷ ready rq rp ∷ e)
                (quiet q)
            ∙ ap (λ e. e ++ end_of_it) g.grown
            ∙ append_assoc s.app.events g.more end_of_it,
        record {
          state = ap (λ y. y.ready_state) (note_all-append g.more end_of_it x) ∙ state;
          answer = rp;
          saved = ap (λ y. y.response) (note_all-append g.more end_of_it x) ∙ saved;
          body = chunks;
        },
      )
