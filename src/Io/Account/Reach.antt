-- ===== src/Io/Account/Reach.antt =====
-- Whole runs of a connection against the history of its session of nghttp2.
use xmlhttp_request.Prelude.{
  Bool, Bytes, [], ap, false, if_both, length, subst, sym, true, ℕ, ◌++◌, ◌<◌, ◌==◌, ◌||◌, ◌∙◌, ◌≡◌,
  refl, ◌∷◌,
}
use xmlhttp_request.Session.{find_in}
use xmlhttp_request.Io.{
  Io, Nghttp2, apply_calls, filed, is_length, on_ping, on_read, on_written, stream0_closed,
  submit_ping, write,
}
use xmlhttp_request.Io.Laws.{InBounds, IsLawful, Same-InBounds, buffered, pending_bytes, wire}
use xmlhttp_request.Io.Completion.{clear-InBounds}
use xmlhttp_request.Io.Calls.{apply_calls-Same, apply_calls-Steady}
use xmlhttp_request.Io.Submit.{Library}
use xmlhttp_request.Io.Submit.Laws.{OnReturn, submit-OnReturn}
use xmlhttp_request.Io.Submit.Laws.{asked as asked_of}
use xmlhttp_request.Io.Reach.{
  Reach, Reach-InBounds, Step, submit_ping-InBounds, asked, here, next, pinged, received, resolved,
  stopped, submitted, written,
}
use xmlhttp_request.Io.Account.{
  logged, logged_requests, logged-IsLawful, logged-Counts, Counts, IsAccounted, Same-IsAccounted,
  out,
}
use xmlhttp_request.Io.Account.Loop.{write-IsAccounted}
use xmlhttp_request.Io.Account.Parts.{
  OnEnd, OnResolved, log-IsAccounted, after_read_write-OnEnd, session-IsAccounted,
  start_ping_of-OnEnd, start_resolve-OnResolved, stop-IsAccounted,
}

module _ {L : Type 0} (lib : Nghttp2 L) (requests : Library L) (laws : IsLawful lib)
    (counts : Counts lib requests) where
  abbrev Accounted : Io L → Type 0
  Accounted = IsAccounted counts.handed

  write-OnEnd :
      (fuel : ℕ) (s : Io L)
      → InBounds s
      → Accounted s
      → length (laws.todo s.session) < fuel
      → OnEnd counts.handed (write lib fuel s)
  write-OnEnd fuel s b a h =
      let (t, found, bounds, account) = write-IsAccounted lib requests laws counts fuel s b a h in
      subst (OnEnd counts.handed) (sym found) account

  on_written-OnEnd :
      (fuel : ℕ) (ec : Bool) (s : Io L)
      → InBounds s
      → Accounted s
      → s.writing ≡ true
      → length (laws.todo s.session) < fuel
      → OnEnd counts.handed (on_written lib fuel ec s)
  unfolding on_written
  on_written-OnEnd fuel ec s b a wo h =
      let clear : Io L = record s { wb_ = []; writing = false } in
      let P = OnEnd counts.handed in
      if_both P ec _ _ (stop-IsAccounted counts.handed s a) (
        if_both P (stream0_closed (find_in 0 s.app.streams)) _ _
          (stop-IsAccounted counts.handed s a)
          (write-OnEnd fuel clear (clear-InBounds lib laws s b)
            (record {
              has = a.has;
              all =
                  ap (λ c. wire s.log ++ (buffered c s.wb_ ++ pending_bytes s.data_pending_))
                    (sym wo)
                  ∙ a.all;
            })
            h))

  on_read-OnEnd :
      (fuel : ℕ) (ec : Bool) (bytes : Bytes) (s : Io L)
      → InBounds s
      → Accounted s
      → length (laws.todo (lib.mem_recv s.session bytes).0) < fuel
      → OnEnd counts.handed (on_read lib fuel ec bytes s)
  unfolding on_read
  on_read-OnEnd fuel ec bytes s b a h =
      let P = OnEnd counts.handed in
      let recv = lib.mem_recv s.session bytes in
      let s1 : Io L = record s { session = recv.0 } in
      let s2 = apply_calls recv.1 s1 in
      let same = apply_calls-Same recv.1 s1 in
      let b1 : InBounds s1 = record {
        buffer_fits = b.buffer_fits;
        pending_fits = b.pending_fits;
        copy_fits = b.copy_fits;
      } in
      let a1 = session-IsAccounted counts.handed s recv.0 (counts.receives s.session bytes) a in
      let a2 = Same-IsAccounted counts.handed same (apply_calls-Steady recv.1 s1) a1 in
      let h2 = subst (λ l. length (laws.todo l) < fuel) (sym same.session) h in
      if_both P (length bytes == 0) _ _ a (
        if_both P ec _ _ (stop-IsAccounted counts.handed s a) (
          if_both P (is_length recv.2 (length bytes)) _ _
            (after_read_write-OnEnd counts.handed lib (write lib fuel s2)
              (write-OnEnd fuel s2 (Same-InBounds same b1) a2 h2))
            (stop-IsAccounted counts.handed s2 a2)))

  submit_ping-Accounted :
      (aborted : Bool) (s : Io L) → Accounted s → Accounted (submit_ping lib aborted s)
  unfolding submit_ping
  submit_ping-Accounted aborted s a = if_both Accounted (s.stopped || aborted) _ _ a (
      session-IsAccounted counts.handed s (lib.submit_ping_frame s.session) (counts.pings s.session)
        a)

  Step-Accounted :
      (s s' : Io L) → InBounds s → Accounted s → Step lib requests laws s s' → Accounted s'
  Step-Accounted s s' b a (resolved fuel fresh net failed h e) =
      subst (OnResolved counts.handed) e
        (start_resolve-OnResolved counts.handed lib laws fuel fresh net s a)
  Step-Accounted s s' b a (asked fuel h e) =
      subst (OnEnd counts.handed) e (write-OnEnd fuel s b a h)
  Step-Accounted s s' b a (written fuel ec w h e) =
      subst (OnEnd counts.handed) e (on_written-OnEnd fuel ec s b a w h)
  Step-Accounted s s' b a (received fuel ec bytes h e) =
      subst (OnEnd counts.handed) e (on_read-OnEnd fuel ec bytes s b a h)
  Step-Accounted s s' b a (pinged fuel aborted h e) = subst (OnEnd counts.handed) e (
      unfold on_ping in
      start_ping_of-OnEnd counts.handed (write lib fuel (submit_ping lib aborted s)) (
        write-OnEnd fuel (submit_ping lib aborted s)
          (submit_ping-InBounds lib requests laws aborted s b) (submit_ping-Accounted aborted s a)
          h))
  Step-Accounted s s' b a (submitted held o ec id e) = subst (OnReturn Accounted) e (
      submit-OnReturn requests Accounted held o s a
        (λ u.
          session-IsAccounted counts.handed s (asked_of requests s u o).0
            (counts.asks s.session _ o.body) a)
        (λ u n.
          let logged_one = log-IsAccounted counts.handed s (filed n ∷ []) refl a in
          record {
            has = logged_one.has;
            all = logged_one.all ∙ sym (counts.asks s.session _ o.body);
          }))
  Step-Accounted s s' b a (stopped e) = subst Accounted (sym e) (stop-IsAccounted counts.handed s a)

  Reach-Accounted :
      (s s' : Io L) → InBounds s → Accounted s → Reach lib requests laws s s' → Accounted s'
  Reach-Accounted s s' b a here = a
  Reach-Accounted s s' b a (next r step) =
      Step-Accounted _ s' (Reach-InBounds lib requests laws s _ b r) (Reach-Accounted s _ b a r)
        step

-- However a connection goes on that has its session of nghttp2, is within the bounds of its buffer
-- and has lost no byte so far, no byte is lost, doubled or moved: what the socket was asked to
-- write, then what is in the buffer and what waits behind it, is at any moment exactly what the
-- session has handed out, in the same order. For every nghttp2 that hands out frames of at most 64
-- KB, with the history of what it handed out beside its session.
pub Reach-handed :
    {L : Type 0} (lib : Nghttp2 L) (requests : Library L) (laws : IsLawful lib)
    (s s' : Io (L × Bytes))
    → InBounds s
    → s.has_session ≡ true
    → out s ≡ s.session.1
    → Reach (logged lib) (logged_requests requests) (logged-IsLawful lib laws) s s'
    → out s' ≡ s'.session.1
unfolding logged_requests logged logged-Counts
Reach-handed lib requests laws s s' b had all r =
    let a =
      Reach-Accounted (logged lib) (logged_requests requests) (logged-IsLawful lib laws)
        (logged-Counts lib requests) s s' b (record { has = had; all = all }) r in
    a.all
