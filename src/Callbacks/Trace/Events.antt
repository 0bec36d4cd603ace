-- ===== src/Callbacks/Trace/Events.antt =====
-- What the data chunks of a stream come to, and what is reported when it closes.
use mathlib.Core.Option.{none-ne-some}
use xmlhttp_request.Prelude.{
  Bytes, arith, refl, ℕ, ◌≡◌, Option-cases, [], ap, inl, inr, ◌∷◌, Bool-cases, List, ◌∙◌, ◌≢◌, All,
  Option, append-nil, if◌then◌else◌, none, some, ◌++◌, ◌==◌, ==_self, append_assoc, false,
  false≢true, ◌&&◌, ==_iff, Bool, true, sym,
}
use xmlhttp_request.Message.Request.{Request}
use xmlhttp_request.Message.Response.{Response}
use xmlhttp_request.Stream.{State, Stream, set_state}
use xmlhttp_request.Session.{
  Event, ready, state_change, Streams, ReadyState, Session, find_in, erase_in, update_in,
  find_stream, remove_stream, update_stream, notify_state, notify_ready,
}
use xmlhttp_request.Session.Streams.{
  IsValid, find_in-try_emplace, find_in-update_in, find_in-erase_in,
}
use xmlhttp_request.Callbacks.Receive.{on_stream_close}
use xmlhttp_request.Callbacks.Trace.{Call, stream_close, step, run}
use xmlhttp_request.Callbacks.Trace.Edit.{
  stream_close-erase, Edit, keep, add, change, drop, target, step-Edit,
}
use xmlhttp_request.Callbacks.Trace.Streams.{Edit-IsValid, Edit_other}
use xmlhttp_request.Callbacks.Trace.Edit.{chunks_of, closes}
use xmlhttp_request.Callbacks.Trace.Streamwise.{Appends}

-- The chunks that the response of a stream holds, if the stream is there.
abbrev pub data_of : Option Stream → Option (List Bytes)
data_of none = none
data_of (some u) = some u.rp.data_

-- The chunks of one stream, in the order of the calls.
abbrev pub chunks_for : ℕ → List Call → List Bytes
chunks_for id [] = []
chunks_for id (c ∷ cs) = (if target c == id then chunks_of c else []) ++ chunks_for id cs

-- No call of the list closes the stream.
abbrev pub StaysOpen : ℕ → List Call → Type 0
StaysOpen id = All (λ c. (closes c && target c == id) ≡ false)

some_eq : {a b : List Bytes} → ◌≡◌ {A = Option (List Bytes)} (some a) (some b) → a ≡ b
some_eq h = cc

data_of-update :
    (id : ℕ) (f : Stream → Stream) (m : Streams) (before chunks : List Bytes)
    → Appends chunks f
    → data_of (find_in id m) ≡ some before
    → data_of (find_in id (update_in id f m)) ≡ some (before ++ chunks)
data_of-update id f m before chunks app h =
    rw (find_in-update_in id id f m, ==_self id)
      (elim (Option-cases (find_in id m)) [
        | inl e ↦ absurd (none-ne-some _ (rw e at h))
        | inr (u, e) ↦ rw e (ap some (app u ∙ ap (λ d. d ++ chunks) (some_eq (rw e at h))))
      ])

-- An edit that removes nothing appends its chunks.
Edit-data :
    {id : ℕ} {chunks : List Bytes} {m m' : Streams} (before : List Bytes)
    → Edit id chunks false m m'
    → data_of (find_in id m) ≡ some before
    → data_of (find_in id m') ≡ some (before ++ chunks)
Edit-data before (keep (inl none_added) e) h = rw (e, none_added, append-nil before) h
Edit-data before (keep (inr absent) e) h = absurd (none-ne-some _ (rw absent at h))
Edit-data {id} {m = m} before (add u i used none_added e) h =
    rw (e, none_added, append-nil before, find_in-try_emplace id id u m)
      (elim (Option-cases (find_in id m)) [
        | inl q ↦ absurd (none-ne-some _ (rw q at h))
        | inr (w, q) ↦ rw q h
      ])
Edit-data {id} {chunks} {m = m} before (change f i used app e) h =
    rw e (data_of-update id f m before chunks app h)
Edit-data before (drop r e) h = absurd (false≢true r)

closes_false : (a b : Bool) → b ≡ true → (a && b) ≡ false → a ≡ false
closes_false a b t h = ground arith

ne_of-==-false : (a b : ℕ) → (a == b) ≡ false → b ≢ a
ne_of-==-false a b h e = ground arith

pub step-data :
    (s : Session) (c : Call) (id : ℕ) (before : List Bytes)
    → IsValid s.streams
    → (closes c && target c == id) ≡ false
    → data_of (find_stream s id) ≡ some before
    → data_of (find_stream (step s c) id)
      ≡ some (before ++ (if target c == id then chunks_of c else []))
unfolding find_stream
step-data s c id before v stays h = elim (Bool-cases (target c == id)) [
  | inl t ↦
      let e = (==_iff (target c) id).0 t in
      let kept = closes_false (closes c) (target c == id) t stays in
      rw t (Edit-data before (rw (e, kept) at (step-Edit s c)) h)
  | inr t ↦
      rw (t, append-nil before)
        (ap data_of (Edit_other id (ne_of-==-false (target c) id t) v (step-Edit s c)) ∙ h)
]

-- The body of a response is received whole and in order: as long as a stream is not closed, its
-- response holds what it held before, followed by exactly the chunks that were received for the
-- stream, whatever other handlers run in between and on which streams.
pub run-data :
    (s : Session) (cs : List Call) (id : ℕ) (before : List Bytes)
    → IsValid s.streams
    → StaysOpen id cs
    → data_of (find_stream s id) ≡ some before
    → data_of (find_stream (run s cs) id) ≡ some (before ++ chunks_for id cs)
unfolding run
run-data s [] id before v o h = rw (append-nil before) h
run-data s (c ∷ cs) id before v (oc, o) h =
    let extra = if target c == id then chunks_of c else [] in
    rw (← append_assoc before extra (chunks_for id cs)) (
      run-data (step s c) cs id (before ++ extra) (Edit-IsValid (step-Edit s c) v) o
        (step-data s c id before v oc h))

close-gone :
    (s : Session) (id : ℕ) → IsValid s.streams → find_stream (on_stream_close s id) id ≡ none
unfolding find_stream
close-gone s id v =
    rw (stream_close-erase s id, find_in-erase_in id id s.streams v.distinct, ==_self id) refl

erase_other :
    (id other : ℕ)
    → other ≢ id
    → (m : Streams) → IsValid m
    → find_in other (erase_in id m) ≡ find_in other m
erase_other id other ne m v = elim (Bool-cases (id == other)) [
  | inl t ↦ absurd (ne (sym ((==_iff id other).0 t)))
  | inr t ↦ find_in-erase_in id other m v.distinct ∙ rw t refl
]

close-events :
    (s : Session) (id : ℕ) (u : Stream)
    → (remove_stream
        (notify_ready
          (notify_state (update_stream s id (set_state State.closed)) ReadyState.done)
          (set_state State.closed u))
        id).events
      ≡ s.events
        ++ ((if s.has_state_callback then state_change ReadyState.done ∷ [] else [])
            ++ (if s.has_ready_callback then ready u.rq u.rp ∷ [] else []))
unfolding notify_state notify_ready remove_stream update_stream set_state
close-events s id u = elim (Bool-cases s.has_state_callback) [
  | inl a ↦ elim (Bool-cases s.has_ready_callback) [
    | inl b ↦
        rw (a, b) (append_assoc s.events (state_change ReadyState.done ∷ []) (ready u.rq u.rp ∷ []))
    | inr b ↦ rw (a, b) refl
  ]
  | inr a ↦ elim (Bool-cases s.has_ready_callback) [
    | inl b ↦ rw (a, b) refl
    | inr b ↦ rw (a, b) (sym (append-nil s.events))
  ]
]

-- What is called when a stream closes: the state callback and then the one for the response, where
-- they are set and the stream is there.
abbrev pub reported : Session → Option Stream → List Event
reported s none = []
reported s (some u) =
    (if s.has_state_callback then state_change ReadyState.done ∷ [] else [])
    ++ (if s.has_ready_callback then ready u.rq u.rp ∷ [] else [])

-- When a stream closes, its state change to `done` is reported first and then the response with all
-- its data, to the callbacks that are set, and the stream is gone. For a stream that is not there
-- nothing is reported. No other stream changes.
pub on_stream_close_lem :
    (s : Session) (id other : ℕ)
    → IsValid s.streams
    → other ≢ id
    → (find_stream (on_stream_close s id) id ≡ none)
      × (find_stream (on_stream_close s id) other ≡ find_stream s other)
      × ((on_stream_close s id).events ≡ s.events ++ reported s (find_stream s id))
unfolding on_stream_close
on_stream_close_lem s id other v ne = (
  close-gone s id v,
  unfold find_stream in
      (ap (find_in other) (stream_close-erase s id) ∙ erase_other id other ne s.streams v),
  elim (Option-cases (find_stream s id)) [
    | inl e ↦ rw (e, on_stream_close) (unfold remove_stream in sym (append-nil s.events))
    | inr (u, e) ↦ rw (e, on_stream_close) (close-events s id u)
  ],
)

-- To an application with both callbacks, the end of a stream that is there is reported with its data.
pub close-reported :
    (s : Session) (id : ℕ) (chunks : List Bytes)
    → s.has_state_callback ≡ true
    → s.has_ready_callback ≡ true
    → data_of (find_stream s id) ≡ some chunks
    → (rq : Request) × (rp : Response) × ((step s (stream_close id)).events
        ≡ s.events ++ state_change ReadyState.done ∷ ready rq rp ∷ [])
      × (rp.data_ ≡ chunks)
unfolding step on_stream_close
close-reported s id chunks a b h = elim (Option-cases (find_stream s id)) [
  | inl e ↦ absurd (none-ne-some _ (rw e at h))
  | inr (u, e) ↦ (
    u.rq,
    u.rp,
    rw (e, on_stream_close) (close-events s id u ∙ rw (a, b) refl),
    some_eq (rw e at h),
  )
]
