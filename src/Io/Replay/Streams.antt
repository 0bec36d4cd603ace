-- ===== src/Io/Replay/Streams.antt =====
-- The streams of a whole connection: they stay filed under their own ids, and the body of a response is
-- what was received for it.
use xmlhttp_request.Prelude.{
  Bytes, List, [], ap, append-nil, append_assoc, if◌then◌else◌, some, subst, sym, ℕ, ◌++◌, ◌==◌,
  ◌∙◌, ◌∷◌, ◌≡◌, ==_iff, Bool-cases, Option-cases, inl, inr,
}
use mathlib.Core.List.{append_cancel_left}
use mathlib.Core.Option.{none-ne-some}
use xmlhttp_request.Stream.{new_stream}
use xmlhttp_request.Session.{Session, add_stream, find_stream, find_in}
use xmlhttp_request.Session.Streams.{IsValid, find_in-try_emplace, try_emplace-IsValid}
use xmlhttp_request.Callbacks.Trace.{Call, step}
use xmlhttp_request.Callbacks.Trace.Edit.{step-Edit, chunks_of, target}
use xmlhttp_request.Callbacks.Trace.Streams.{Edit-IsValid}
use xmlhttp_request.Callbacks.Trace.Events.{data_of, chunks_for, StaysOpen, step-data}
use xmlhttp_request.Io.{Action, Io, Nghttp2, called, filed}
use xmlhttp_request.Io.Laws.{IsLawful}
use xmlhttp_request.Io.Submit.{Library}
use xmlhttp_request.Io.Reach.{Reach}
use xmlhttp_request.Io.Replay.{replay}
use xmlhttp_request.Io.Replay.Reach.{Reach-Follows}

-- The handlers of a log.
abbrev pub calls_of : List Action → List Call
calls_of [] = []
calls_of (called c ∷ log) = c ∷ calls_of log
calls_of (_ ∷ log) = calls_of log

add_stream-IsValid :
    (a : Session) (id : ℕ) → IsValid a.streams → IsValid (add_stream a (new_stream id)).0.streams
unfolding add_stream new_stream
add_stream-IsValid a id v = try_emplace-IsValid (new_stream id) a.streams v

-- Filing a stream leaves the data of the streams that are there.
add_stream-data :
    (a : Session) (n id : ℕ) (before : List Bytes)
    → data_of (find_stream a id) ≡ some before
    → data_of (find_stream (add_stream a (new_stream n)).0 id) ≡ some before
unfolding find_stream add_stream new_stream
add_stream-data a n id before h =
    let u = new_stream n in
    rw (find_in-try_emplace n id u a.streams) (elim (Option-cases (find_in n a.streams)) [
      | inr (w, q) ↦ rw q h
      | inl q ↦ rw q (elim (Bool-cases (n == id)) [
        | inl t ↦
            let absent = rw ((==_iff n id).0 t) at q in absurd (none-ne-some _ (rw absent at h))
        | inr t ↦ rw t h
      ])
    ])

pub replay-IsValid :
    (a : Session) (log : List Action) → IsValid a.streams → IsValid (replay a log).streams
unfolding replay
replay-IsValid a [] v = v
replay-IsValid a (called c ∷ log) v = replay-IsValid (step a c) log (Edit-IsValid (step-Edit a c) v)
replay-IsValid a (filed id ∷ log) v =
    replay-IsValid (add_stream a (new_stream id)).0 log (add_stream-IsValid a id v)
replay-IsValid a (_ ∷ log) v = replay-IsValid a log v

pub replay-data :
    (a : Session) (log : List Action) (id : ℕ) (before : List Bytes)
    → IsValid a.streams
    → StaysOpen id (calls_of log)
    → data_of (find_stream a id) ≡ some before
    → data_of (find_stream (replay a log) id) ≡ some (before ++ chunks_for id (calls_of log))
unfolding replay
replay-data a [] id before v o h = rw (append-nil before) h
replay-data a (called c ∷ log) id before v (oc, o) h =
    let extra = if target c == id then chunks_of c else [] in
    rw (← append_assoc before extra (chunks_for id (calls_of log))) (
      replay-data (step a c) log id (before ++ extra) (Edit-IsValid (step-Edit a c) v) o
        (step-data a c id before v oc h))
replay-data a (filed n ∷ log) id before v o h =
    replay-data (add_stream a (new_stream n)).0 log id before (add_stream-IsValid a n v) o
      (add_stream-data a n id before h)
replay-data a (_ ∷ log) id before v o h = replay-data a log id before v o h

module _ {L : Type 0} (lib : Nghttp2 L) (requests : Library L) (laws : IsLawful lib) where
  -- However a connection goes on that starts with streams filed under their own ids, each once, its
  -- streams stay so.
  pub Reach-IsValid :
      (s s' : Io L) → IsValid s.app.streams → Reach lib requests laws s s' → IsValid s'.app.streams
  Reach-IsValid s s' v r =
      let f = Reach-Follows lib requests laws s s' r in
      subst (λ a. IsValid a.streams) (sym f.replays) (replay-IsValid s.app f.new v)

  -- The streams at the end are what the log since then makes of them.
  pub Reach-replay :
      (s s' : Io L) (new : List Action)
      → Reach lib requests laws s s'
      → s'.log ≡ s.log ++ new
      → s'.app ≡ replay s.app new
  Reach-replay s s' new r grown =
      let f = Reach-Follows lib requests laws s s' r in
      f.replays ∙ ap (replay s.app) (append_cancel_left s.log f.new new (sym f.grown ∙ grown))

  -- However a connection goes on, with its streams filed under their own ids, as long as a stream
  -- that is there is not closed, its response holds the data that it held before, followed by
  -- exactly the chunks that nghttp2 received for the stream meanwhile, in their order, whatever
  -- else was received, written and requested in between.
  pub Reach-data :
      (s s' : Io L) (new : List Action) (id : ℕ) (before : List Bytes)
      → IsValid s.app.streams
      → Reach lib requests laws s s'
      → s'.log ≡ s.log ++ new
      → StaysOpen id (calls_of new)
      → data_of (find_stream s.app id) ≡ some before
      → data_of (find_stream s'.app id) ≡ some (before ++ chunks_for id (calls_of new))
  Reach-data s s' new id before v r grown o h =
      subst (λ a. data_of (find_stream a id) ≡ some (before ++ chunks_for id (calls_of new)))
        (sym (Reach-replay s s' new r grown)) (replay-data s.app new id before v o h)
