-- ===== src/Io/Ending.antt =====
-- The end of a request that is not asynchronous: its response stops the session.
use mathlib.Core.Option.{none-ne-some}
use xmlhttp_request.Prelude.{
  Bool-cases, List, [], ap, append_assoc, false, inl, inr, refl, subst, sym, true, ◌++◌, ◌∙◌, ◌∷◌,
  ◌≡◌, ◌⊎◌, Bytes, Option-cases, some, ℕ, length, Bool, arith, if_both, if◌then◌else◌, ◌&&◌,
}
use xmlhttp_request.Session.{Session, find_stream}
use xmlhttp_request.Session.Streams.{IsValid}
use xmlhttp_request.Callbacks.Trace.{Call, run, step, stream_close}
use xmlhttp_request.Callbacks.Trace.Events.{data_of, chunks_for, StaysOpen, run-data}
use xmlhttp_request.Callbacks.Trace.Reports.{Grows, Grows-refl, Grows-trans, step-Grows}
use xmlhttp_request.Io.{
  Action, Io, Nghttp2, after_call, after_read_write, apply_calls, called, cancel_deadline,
  cancel_ping, copy_pending, send_loop, after_loop, read_socket, is_some, is_length, on_read, read,
  reports, should_stop, shutdown_socket, stop, write,
}
use xmlhttp_request.Io.Calls.{
  after_call-cases, apply_calls-Steady, apply_calls-app, apply_calls-append, handled,
}
use xmlhttp_request.Io.Loop.{nonzero}
use xmlhttp_request.Io.Stop.{stop_same, stop-down}

run-Grows : (s : Session) (cs : List Call) → Grows s (run s cs)
unfolding run
run-Grows s [] = Grows-refl s
run-Grows s (c ∷ cs) = Grows-trans (step-Grows s c) (run-Grows (step s c) cs)

both_true : {a b : Bool} → a ≡ true → b ≡ true → (a && b) ≡ true
both_true p q = ground arith

close-reports :
    (a : Session) (id : ℕ) (chunks : List Bytes)
    → a.has_ready_callback ≡ true
    → data_of (find_stream a id) ≡ some chunks
    → reports (stream_close id) a ≡ true
unfolding reports
close-reports a id chunks has h = elim (Option-cases (find_stream a id)) [
  | inl e ↦ absurd (none-ne-some _ (rw e at h))
  | inr (u, e) ↦ both_true has (ap is_some e)
]

module _ {L : Type 0} where
  -- The session is stopped, and the socket was shut down.
  pub record IsEnded (s : Io L) : Type 0 where
    pub halted : s.stopped ≡ true
    pub before : List Action
    pub after : List Action
    pub shut : s.log ≡ before ++ shutdown_socket ∷ after

  -- It runs or has ended.
  abbrev pub IsMild : Io L → Type 0
  IsMild s = (s.stopped ≡ false) ⊎ IsEnded s

  stop-IsEnded : (s : Io L) → IsMild s → IsEnded (stop s)
  stop-IsEnded s (inl runs) = subst IsEnded (sym (stop-down s runs)) (record {
    halted = refl;
    before = s.log ++ cancel_ping ∷ [];
    after = cancel_deadline ∷ [];
    shut = sym (append_assoc s.log (cancel_ping ∷ []) (shutdown_socket ∷ cancel_deadline ∷ []));
  })
  stop-IsEnded s (inr e) = subst IsEnded (sym (stop_same s e.halted)) e

  handled-IsEnded : (c : Call) (s : Io L) → IsEnded s → IsEnded (handled c s)
  handled-IsEnded c s e = record {
    halted = e.halted;
    before = e.before;
    after = e.after ++ called c ∷ [];
    shut =
        ap (λ log. log ++ called c ∷ []) e.shut
        ∙ append_assoc e.before (shutdown_socket ∷ e.after) (called c ∷ []);
  }

  handled-IsMild : (c : Call) (s : Io L) → IsMild s → IsMild (handled c s)
  handled-IsMild c s (inl runs) = inl runs
  handled-IsMild c s (inr e) = inr (handled-IsEnded c s e)

  after_call-IsMild : (c : Call) (s : Io L) → IsMild s → IsMild (after_call c s)
  after_call-IsMild c s m = elim (after_call-cases c s) [
    | inl e ↦ subst IsMild (sym e) (handled-IsMild c s m)
    | inr e ↦ subst IsMild (sym e) (inr (stop-IsEnded (handled c s) (handled-IsMild c s m)))
  ]

  apply_calls-IsMild : (cs : List Call) (s : Io L) → IsMild s → IsMild (apply_calls cs s)
  unfolding apply_calls
  apply_calls-IsMild [] s m = m
  apply_calls-IsMild (c ∷ cs) s m = apply_calls-IsMild cs (after_call c s) (after_call-IsMild c s m)

  after_call-IsEnded : (c : Call) (s : Io L) → IsEnded s → IsEnded (after_call c s)
  after_call-IsEnded c s e = elim (after_call-cases c s) [
    | inl q ↦ subst IsEnded (sym q) (handled-IsEnded c s e)
    | inr q ↦ subst IsEnded (sym q) (stop-IsEnded (handled c s) (inr (handled-IsEnded c s e)))
  ]

  apply_calls-IsEnded : (cs : List Call) (s : Io L) → IsEnded s → IsEnded (apply_calls cs s)
  unfolding apply_calls
  apply_calls-IsEnded [] s e = e
  apply_calls-IsEnded (c ∷ cs) s e =
      apply_calls-IsEnded cs (after_call c s) (after_call-IsEnded c s e)

  -- The handler that reports a response.
  close-IsEnded :
      (s : Io L) (id : ℕ) (chunks : List Bytes)
      → s.stops_on_ready ≡ true
      → s.app.has_ready_callback ≡ true
      → data_of (find_stream s.app id) ≡ some chunks
      → IsMild s
      → IsEnded (after_call (stream_close id) s)
  unfolding after_call
  close-IsEnded s id chunks stops has h m =
      let t = handled (stream_close id) s in
      subst (λ b. IsEnded (if b then stop t else t))
        (sym (both_true stops (close-reports s.app id chunks has h)))
        (stop-IsEnded t (handled-IsMild (stream_close id) s m))

  -- Among the handlers of a call, the one that reports a response ends the session.
  calls-IsEnded :
      (s : Io L) (new rest : List Call) (id : ℕ) (chunks : List Bytes)
      → IsValid s.app.streams
      → s.stopped ≡ false
      → s.stops_on_ready ≡ true
      → s.app.has_ready_callback ≡ true
      → StaysOpen id new
      → data_of (find_stream s.app id) ≡ some chunks
      → IsEnded (apply_calls (new ++ stream_close id ∷ rest) s)
  calls-IsEnded s new rest id chunks v runs stops has o h =
      let t = apply_calls new s in
      let app = apply_calls-app new s in
      let steady = apply_calls-Steady new s in
      let g = run-Grows s.app new in
      let chunks' = chunks ++ chunks_for id new in
      let there : data_of (find_stream t.app id) ≡ some chunks' =
        ap (λ a. data_of (find_stream a id)) app ∙ run-data s.app new id chunks v o h in
      let ended : IsEnded (after_call (stream_close id) t) =
        close-IsEnded t id chunks' (steady.setting ∙ stops)
          (ap (λ a. a.has_ready_callback) app ∙ g.ready_kept ∙ has) there
          (apply_calls-IsMild new s (inl runs)) in
      subst IsEnded (sym (apply_calls-append new (stream_close id ∷ rest) s))
        (unfold apply_calls in apply_calls-IsEnded rest (after_call (stream_close id) t) ended)

  write-stopped :
      (lib : Nghttp2 L) (fuel : ℕ) (s : Io L) → s.stopped ≡ true → write lib fuel s ≡ some s
  unfolding write
  write-stopped lib fuel s e =
      let open_case =
        if s.writing then some s else after_loop (send_loop lib fuel (copy_pending s)) in
      ap (λ b. if b then some s else open_case) e

  read-stopped : (s : Io L) → s.stopped ≡ true → read s ≡ s
  unfolding read
  read-stopped s e = ap (λ b. if b then s else record s { log = s.log ++ read_socket ∷ [] }) e

  -- A session that is stopped is left so by what the read handler does behind nghttp2.
  after_read_write-stopped :
      (lib : Nghttp2 L) (fuel : ℕ) (s : Io L)
      → s.stopped ≡ true
      → after_read_write lib (write lib fuel s) ≡ some s
  unfolding after_read_write
  after_read_write-stopped lib fuel s e =
      ap (after_read_write lib) (write-stopped lib fuel s e)
      ∙ if_both (λ t. some t ≡ some s) (should_stop lib s) _ _ (ap some (stop_same s e))
          (ap some (read-stopped s e))

  -- A request that is not asynchronous ends: where the session runs, its streams are filed under
  -- their own ids and the ready callback stops it, the read of the bytes on which nghttp2 closes
  -- the stream of the request, which is there and not closed before, in whatever order it calls the
  -- handlers before and behind, ends with the session stopped and the socket shut down.
  pub on_read-IsEnded :
      (lib : Nghttp2 L) (fuel : ℕ) (c : ℕ) (bytes : Bytes) (s : Io L) (new rest : List Call)
      (id : ℕ) (chunks : List Bytes)
      → IsValid s.app.streams
      → s.stopped ≡ false
      → s.stops_on_ready ≡ true
      → s.app.has_ready_callback ≡ true
      → (lib.mem_recv s.session (c ∷ bytes)).1 ≡ new ++ stream_close id ∷ rest
      → StaysOpen id new
      → data_of (find_stream s.app id) ≡ some chunks
      → (s' : Io L) × (on_read lib fuel false (c ∷ bytes) s ≡ some s') × IsEnded s'
  unfolding on_read
  on_read-IsEnded lib fuel c bytes s new rest id chunks v runs stops has called_now o h =
      let recv = lib.mem_recv s.session (c ∷ bytes) in
      let s1 : Io L = record s { session = recv.0 } in
      let s2 = apply_calls recv.1 s1 in
      let ended : IsEnded s2 =
        subst (λ cs. IsEnded (apply_calls cs s1)) (sym called_now)
          (calls-IsEnded s1 new rest id chunks v runs stops has o h) in
      (
        s2,
        rw (nonzero (length bytes)) (elim (Bool-cases (is_length recv.2 (length (c ∷ bytes)))) [
          | inl e ↦ rw e (after_read_write-stopped lib fuel s2 ended.halted)
          | inr e ↦ rw e (ap some (stop_same s2 ended.halted))
        ]),
        ended,
      )
