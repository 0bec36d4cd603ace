-- ===== src/Callbacks/Trace/States.antt =====
-- The states of the streams under the handlers.
use xmlhttp_request.Prelude.{Bytes, ℕ, [], inl, inr, ◌∷◌, Bool-cases, List, All, ◌==◌, Bool}
use xmlhttp_request.Stream.{Stream}
use xmlhttp_request.Session.{Streams, Session, try_emplace, erase_in, update_in}
use xmlhttp_request.Callbacks.Trace.{Call, step, run, IsFresh}
use xmlhttp_request.Callbacks.Trace.Edit.{Edit, keep, add, change, drop, step-Edit}
use xmlhttp_request.Callbacks.Trace.Streamwise.{Used}

abbrev pub AllUsed : Streams → Type 0
AllUsed = All (λ e. Used e.1)

AllUsed-try_emplace :
    (id : ℕ) (u : Stream) (m : Streams) → Used u → AllUsed m → AllUsed (try_emplace id u m).0
unfolding try_emplace
AllUsed-try_emplace id u [] h a = (h, tt)
AllUsed-try_emplace id u ((k, w) ∷ m) h (hw, a) = elim (Bool-cases (k == id)) [
  | inl t ↦ rw t (hw, a)
  | inr t ↦ rw t (hw, AllUsed-try_emplace id u m h a)
]

AllUsed-update_in :
    (id : ℕ) (f : Stream → Stream) (m : Streams)
    → ((u : Stream) → Used u → Used (f u))
    → AllUsed m
    → AllUsed (update_in id f m)
unfolding update_in
AllUsed-update_in id f [] h a = tt
AllUsed-update_in id f ((k, w) ∷ m) h (hw, a) = elim (Bool-cases (k == id)) [
  | inl t ↦ rw t (h w hw, a)
  | inr t ↦ rw t (hw, AllUsed-update_in id f m h a)
]

AllUsed-erase_in : (id : ℕ) (m : Streams) → AllUsed m → AllUsed (erase_in id m)
unfolding erase_in
AllUsed-erase_in id [] a = tt
AllUsed-erase_in id ((k, w) ∷ m) (hw, a) = elim (Bool-cases (k == id)) [
  | inl t ↦ rw t a
  | inr t ↦ rw t (hw, AllUsed-erase_in id m a)
]

Edit-AllUsed :
    {id : ℕ} {chunks : List Bytes} {removes : Bool} {m m' : Streams}
    → Edit id chunks removes m m'
    → AllUsed m
    → AllUsed m'
Edit-AllUsed (keep _ e) a = rw e a
Edit-AllUsed {id} {m} (add u i h _ e) a = rw e (AllUsed-try_emplace id u m h a)
Edit-AllUsed {id} {m} (change f i h _ e) a = rw e (AllUsed-update_in id f m h a)
Edit-AllUsed {id} {m} (drop _ e) a = rw e (AllUsed-erase_in id m a)

run-AllUsed : (s : Session) (cs : List Call) → AllUsed s.streams → AllUsed (run s cs).streams
unfolding run
run-AllUsed s [] a = a
run-AllUsed s (c ∷ cs) a = run-AllUsed (step s c) cs (Edit-AllUsed (step-Edit s c) a)

-- After any calls of the handlers from a session with no streams, no stream is reserved locally or
-- half closed locally: the client promises nothing and never marks its own end of a stream.
pub run_fresh-AllUsed : (s : Session) (cs : List Call) → IsFresh s → AllUsed (run s cs).streams
run_fresh-AllUsed s cs e = run-AllUsed s cs (rw e tt)
