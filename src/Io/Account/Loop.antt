-- ===== src/Io/Account/Loop.antt =====
-- The loop of `write` against the history of the session.
use mathlib.Core.List.{append_cancel_right}
use xmlhttp_request.Prelude.{
  Bool, Bytes, Option, ap, none, refl, some, ◌++◌, ◌∙◌, ◌≡◌, Option-cases, append-nil, append_assoc,
  false, if_both, inl, inr, length, ltb, subst, suc, sym, true, zero, ℕ, ◌+◌, ◌<◌, ◌==◌,
}
use xmlhttp_request.Io.{
  Io, Nghttp2, Sent, out_of_memory, failed, sent, after_loop, apply_calls, copy_pending, send_loop,
  start_write, stop, wb_size, write,
}
use xmlhttp_request.Io.Laws.{InBounds, IsLawful, Served}
use xmlhttp_request.Io.Calls.{
  Steady, Steady-refl, Steady-trans, apply_calls-Same, apply_calls-Steady, stop-Steady,
}
use xmlhttp_request.Io.Stop.{stop-Same}
use xmlhttp_request.Io.Submit.{Library}
use xmlhttp_request.Io.Write.{write_lem}
use xmlhttp_request.Io.Account.{Counts, IsAccounted, given, out, owed-out}

module _ {L : Type 0} (lib : Nghttp2 L) (requests : Library L) (laws : IsLawful lib)
    (counts : Counts lib requests) where
  -- What a session has handed out and has still to send.
  abbrev total : L → Bytes
  total l = counts.handed l ++ laws.todo l

  -- From one state to another, the total is the same.
  record Totals (s t : Io L) : Type 0 where
    kept : total t.session ≡ total s.session
    steady : Steady s t

  Totals-same : (s t : Io L) → t.session ≡ s.session → Steady s t → Totals s t
  Totals-same s t e steady = record { kept = ap total e; steady = steady }

  Totals-trans : {s t u : Io L} → Totals s t → Totals t u → Totals s u
  Totals-trans a b = record { kept = b.kept ∙ a.kept; steady = Steady-trans a.steady b.steady }

  -- Wherever the loop and `write` end.
  abbrev LoopTotals : Io L → Option (Io L × Bool) → Type 0
  LoopTotals s none = Unit
  LoopTotals s (some r) = Totals s r.0

  abbrev WriteTotals : Io L → Option (Io L) → Type 0
  WriteTotals s none = Unit
  WriteTotals s (some t) = Totals s t

  LoopTotals-from :
      {s t : Io L} (r : Option (Io L × Bool)) → Totals s t → LoopTotals t r → LoopTotals s r
  LoopTotals-from none a b = tt
  LoopTotals-from (some r) a b = Totals-trans a b

  -- What is handed out is what the session has less to send.
  total-mem_send :
      (l : L) (r : Sent)
      → (lib.mem_send l).2 ≡ r
      → Served laws.todo l (lib.mem_send l).0 r
      → total (lib.mem_send l).0 ≡ total l
  total-mem_send l out_of_memory e h =
      let l' = (lib.mem_send l).0 in
      ap (λ w. w ++ laws.todo l') (counts.sends l ∙ ap (λ r. counts.handed l ++ given r) e)
      ∙ ap (λ w. w ++ laws.todo l') (append-nil (counts.handed l))
      ∙ ap (λ w. counts.handed l ++ w) (sym h)
  total-mem_send l (failed k) e h = absurd h
  total-mem_send l (sent bytes) e (next, fits, some_bytes) =
      let l' = (lib.mem_send l).0 in
      ap (λ w. w ++ laws.todo l') (counts.sends l ∙ ap (λ r. counts.handed l ++ given r) e)
      ∙ append_assoc (counts.handed l) bytes (laws.todo l')
      ∙ ap (λ w. counts.handed l ++ w) (sym next)

  -- The state behind one `nghttp2_session_mem_send`.
  abbrev pulled : Io L → Io L
  pulled s =
      apply_calls (lib.mem_send s.session).1 (record s { session = (lib.mem_send s.session).0 })

  pulled-Totals : (s : Io L) → Totals s (pulled s)
  pulled-Totals s =
      let l = s.session in
      let s1 : Io L = record s { session = (lib.mem_send l).0 } in
      let same = apply_calls-Same (lib.mem_send l).1 s1 in
      let steady = apply_calls-Steady (lib.mem_send l).1 s1 in
      record {
        kept = ap total same.session ∙ total-mem_send l (lib.mem_send l).2 refl (laws.served l);
        steady = record { setting = steady.setting; had = steady.had };
      }

  -- The same with another buffer, and with other bytes behind it.
  pulled-buffer : (s : Io L) (w : Bytes) → Totals s (record (pulled s) { wb_ = w })
  pulled-buffer s w =
      let a = pulled-Totals s in
      record { kept = a.kept; steady = record { setting = a.steady.setting; had = a.steady.had } }

  pulled-pending :
      (s : Io L) (p : Option Bytes) → Totals s (record (pulled s) { data_pending_ = p })
  pulled-pending s p =
      let a = pulled-Totals s in
      record { kept = a.kept; steady = record { setting = a.steady.setting; had = a.steady.had } }

  stop-Totals : (s : Io L) → Totals s (stop s)
  stop-Totals s = let same = stop-Same s in Totals-same s (stop s) same.session (stop-Steady s)

  round :
      (fuel : ℕ) (s : Io L) (r : Sent)
      → (lib.mem_send s.session).2 ≡ r
      → Served laws.todo s.session (lib.mem_send s.session).0 r
      → ((t : Io L) → LoopTotals t (send_loop lib fuel t))
      → LoopTotals s (send_loop lib (suc fuel) s)
  unfolding send_loop
  round fuel s out_of_memory e h again =
      rw (e, send_loop) (Totals-trans (pulled-Totals s) (stop-Totals (pulled s)))
  round fuel s (failed k) e h again = absurd h
  round fuel s (sent bytes) e h again =
      let w = (pulled s).wb_ ++ bytes in
      rw (e, send_loop)
        (if_both (LoopTotals s) (length bytes == 0) _ _ (pulled-Totals s) (
          if_both (LoopTotals s) (ltb wb_size (length (pulled s).wb_ + length bytes)) _ _
            (pulled-pending s (some bytes))
            (LoopTotals-from (send_loop lib fuel (record (pulled s) { wb_ = w }))
              (pulled-buffer s w) (again (record (pulled s) { wb_ = w })))))

  send_loop-LoopTotals : (fuel : ℕ) (s : Io L) → LoopTotals s (send_loop lib fuel s)
  send_loop-LoopTotals zero s = unfold send_loop in tt
  send_loop-LoopTotals (suc fuel) s =
      round fuel s (lib.mem_send s.session).2 refl (laws.served s.session)
        (λ t. send_loop-LoopTotals fuel t)

  copy_pending-Totals : (s : Io L) → Totals s (copy_pending s)
  unfolding copy_pending
  copy_pending-Totals s = elim (Option-cases s.data_pending_) [
    | inl e ↦ record {
      kept = rw (e, copy_pending) refl;
      steady = record { setting = rw (e, copy_pending) refl; had = rw (e, copy_pending) refl };
    }
    | inr (bytes, e) ↦ record {
      kept = rw (e, copy_pending) refl;
      steady = record { setting = rw (e, copy_pending) refl; had = rw (e, copy_pending) refl };
    }
  ]

  start_write-Totals : (s : Io L) → Totals s (start_write s)
  unfolding start_write
  start_write-Totals s =
      if_both (Totals s) (length s.wb_ == 0) _ _ (Totals-same s s refl (Steady-refl s))
        (record { kept = refl; steady = record { setting = refl; had = refl } })

  after_loop-WriteTotals :
      (s : Io L) (r : Option (Io L × Bool)) → LoopTotals s r → WriteTotals s (after_loop r)
  unfolding after_loop
  after_loop-WriteTotals s none h = tt
  after_loop-WriteTotals s (some (t, false)) h = h
  after_loop-WriteTotals s (some (t, true)) h = Totals-trans h (start_write-Totals t)

  write-WriteTotals : (fuel : ℕ) (s : Io L) → WriteTotals s (write lib fuel s)
  unfolding write
  write-WriteTotals fuel s =
      let same = Totals-same s s refl (Steady-refl s) in
      if_both (WriteTotals s) s.stopped _ _ same (
        if_both (WriteTotals s) s.writing _ _ same (
          after_loop-WriteTotals s (send_loop lib fuel (copy_pending s)) (
            LoopTotals-from (send_loop lib fuel (copy_pending s)) (copy_pending-Totals s)
              (send_loop-LoopTotals fuel (copy_pending s)))))

  -- Where `write` ends, an account that was right is right.
  pub write-IsAccounted :
      (fuel : ℕ) (s : Io L)
      → InBounds s
      → IsAccounted counts.handed s
      → length (laws.todo s.session) < fuel
      → (t : Io L) × (write lib fuel s ≡ some t) × InBounds t × IsAccounted counts.handed t
  write-IsAccounted fuel s b a h =
      let (t, found, w) = write_lem lib laws fuel s b h in
      let totals : Totals s t = subst (WriteTotals s) found (write-WriteTotals fuel s) in
      let steady = totals.steady in
      let sums : out t ++ laws.todo t.session ≡ counts.handed t.session ++ laws.todo t.session =
        sym (owed-out laws.todo t)
        ∙ w.same
        ∙ owed-out laws.todo s
        ∙ ap (λ x. x ++ laws.todo s.session) a.all
        ∙ sym totals.kept in
      (
        t,
        found,
        w.bounds,
        record {
          has = steady.had ∙ a.has;
          all = append_cancel_right (out t) (counts.handed t.session) (laws.todo t.session) sums;
        },
      )
