-- ===== src/Callbacks/Trace/Streams.antt =====
-- The map of streams under the handlers: it stays well formed, and a handler reaches one stream.
use xmlhttp_request.Prelude.{Bytes, arith, refl, ℕ, ◌≡◌, [], ◌∷◌, List, ◌∙◌, ◌≢◌, All, Bool}
use xmlhttp_request.Session.{Streams, Session, find_in, find_stream}
use xmlhttp_request.Session.Streams.{
  IsValid, find_in-try_emplace, find_in-update_in, find_in-erase_in, try_emplace-IsValid,
  erase_in-IsValid, update_in-IsValid,
}
use xmlhttp_request.Callbacks.Trace.{Call, step, run, IsFresh}
use xmlhttp_request.Callbacks.Trace.Edit.{Edit, keep, add, change, drop, target, step-Edit}

pub Edit-IsValid :
    {id : ℕ} {chunks : List Bytes} {removes : Bool} {m m' : Streams}
    → Edit id chunks removes m m'
    → IsValid m
    → IsValid m'
Edit-IsValid (keep _ e) v = rw e v
Edit-IsValid {m = m} (add u i h _ e) v = rw (e, ← i) (try_emplace-IsValid u m v)
Edit-IsValid {id} {m = m} (change f i h _ e) v = rw e (update_in-IsValid id f m i v)
Edit-IsValid {id} {m = m} (drop _ e) v = rw e (erase_in-IsValid id m v)

run-IsValid : (s : Session) (cs : List Call) → IsValid s.streams → IsValid (run s cs).streams
unfolding run
run-IsValid s [] v = v
run-IsValid s (c ∷ cs) v = run-IsValid (step s c) cs (Edit-IsValid (step-Edit s c) v)

-- After any calls of the handlers, in any order, from a session with no streams: no id is filed
-- twice, and each stream is filed under its own id.
pub run_fresh-IsValid : (s : Session) (cs : List Call) → IsFresh s → IsValid (run s cs).streams
run_fresh-IsValid s cs e = run-IsValid s cs (rw e (record { distinct = tt; filed = tt }))

pub Edit_other :
    {id : ℕ} {chunks : List Bytes} {removes : Bool} {m m' : Streams} (other : ℕ)
    → other ≢ id
    → IsValid m
    → Edit id chunks removes m m'
    → find_in other m' ≡ find_in other m
Edit_other other ne v (keep _ e) = rw e
Edit_other {id} {m} other ne v (add u i h _ e) =
    rw e (find_in-try_emplace id other u m ∙ ground arith)
Edit_other {id} {m} other ne v (change f i h _ e) =
    rw e (find_in-update_in id other f m ∙ ground arith)
Edit_other {id} {m} other ne v (drop _ e) =
    rw e (find_in-erase_in id other m v.distinct ∙ ground arith)

-- A run of handlers that name other streams leaves a stream as it is, with its messages and state,
-- whatever they do to theirs.
pub run_other :
    (s : Session) (cs : List Call) (other : ℕ)
    → IsValid s.streams
    → All (λ c. other ≢ target c) cs
    → find_stream (run s cs) other ≡ find_stream s other
unfolding run find_stream
run_other s [] other v h = refl
run_other s (c ∷ cs) other v (ne, h) =
    run_other (step s c) cs other (Edit-IsValid (step-Edit s c) v) h
    ∙ Edit_other other ne v (step-Edit s c)
