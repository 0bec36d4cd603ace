-- ===== src/Io/Loop.antt =====
-- The loop of `write`: how it ends, and what it has copied then.
use xmlhttp_request.Prelude.{
  Bool, Bool-cases, Bytes, [], ap, append_assoc, arith, false, inl, inr, length, ltb, none, refl,
  some, suc, sym, true, zero, ℕ, ◌++◌, ◌+◌, ◌<◌, ◌∙◌, ◌≡◌, ◌≤◌, append-nil, ◌∷◌, length-append,
  ◌==◌, subst,
}
use xmlhttp_request.Io.{
  apply_calls, Sent, out_of_memory, failed, sent, Nghttp2, Io, wb_size, stop, send_loop,
}
use xmlhttp_request.Io.Laws.{Same-trans, Same, wire, Served, IsLawful}
use xmlhttp_request.Io.Calls.{apply_calls-Same}
use xmlhttp_request.Io.Stop.{stop-Same, stop-stopped}

pub nonzero : (n : ℕ) → (suc n == 0) ≡ false
nonzero n = ground arith

ltb-true : (a b : ℕ) → ltb a b ≡ true → a < b
ltb-true a b h = ground arith

ltb-false : (a b : ℕ) → ltb a b ≡ false → b ≤ a
ltb-false a b h = ground arith

module _ {L : Type 0} (lib : Nghttp2 L) (laws : IsLawful lib) where
  -- All that the loop has to copy, started at `s`.
  abbrev pub due : Io L → Bytes
  due s = s.wb_ ++ laws.todo s.session

  -- The ends of the loop, started at `s` with nothing behind the buffer.
  pub data Looped (s : Io L) (r : Io L × Bool) : Type 0 where
    drained :
        length r.0.wb_ ≤ wb_size
        → r.0.data_pending_ ≡ none
        → laws.todo r.0.session ≡ []
        → r.0.wb_ ≡ due s
        → r.1 ≡ true
        → Looped s r
    full :
        (bytes : Bytes)
        → length r.0.wb_ ≤ wb_size
        → r.0.data_pending_ ≡ some bytes
        → length bytes ≤ wb_size
        → wb_size < length r.0.wb_ + length bytes
        → r.0.wb_ ++ (bytes ++ laws.todo r.0.session) ≡ due s
        → r.1 ≡ true
        → Looped s r
    memory :
        length r.0.wb_ ≤ wb_size
        → r.0.data_pending_ ≡ none
        → due r.0 ≡ due s
        → r.0.stopped ≡ true
        → r.1 ≡ false
        → Looped s r

  -- What the loop leaves as it is, whatever handlers are called.
  pub record Quiet (s s' : Io L) : Type 0 where
    pub writing : s'.writing ≡ s.writing
    pub sent : wire s'.log ≡ wire s.log

  Quiet-trans : {s t u : Io L} → Quiet s t → Quiet t u → Quiet s u
  Quiet-trans a b = record { writing = b.writing ∙ a.writing; sent = b.sent ∙ a.sent }

  Quiet-Same : {s t : Io L} → Same s t → Quiet s t
  Quiet-Same a = record { writing = a.writing; sent = a.sent }

  abbrev pub Ends : ℕ → Io L → Type 0
  Ends fuel s = (r : Io L × Bool) × (send_loop lib fuel s ≡ some r) × Looped s r × Quiet s r.0

  -- The state behind one `nghttp2_session_mem_send` and the handlers that it calls.
  abbrev pulled : Io L → Io L
  pulled s =
      apply_calls (lib.mem_send s.session).1 (record s { session = (lib.mem_send s.session).0 })

  pulled-Same : (s : Io L) → Same (record s { session = (lib.mem_send s.session).0 }) (pulled s)
  pulled-Same s =
      apply_calls-Same (lib.mem_send s.session).1
        (record s { session = (lib.mem_send s.session).0 })

  pulled-Quiet : (s : Io L) → Quiet s (pulled s)
  pulled-Quiet s = let same = pulled-Same s in record { writing = same.writing; sent = same.sent }

  -- The end of the loop from a later state that has the same to copy.
  Looped-from : (s t : Io L) (r : Io L × Bool) → due t ≡ due s → Looped t r → Looped s r
  Looped-from s t r e (drained fits p none_left all q) = drained fits p none_left (all ∙ e) q
  Looped-from s t r e (full bytes fits p bytes_fit over all q) =
      full bytes fits p bytes_fit over (all ∙ e) q
  Looped-from s t r e (memory fits p all st q) = memory fits p (all ∙ e) st q

  Same-due : {s t : Io L} → Same s t → due t ≡ due s
  Same-due {s} {t} a =
      ap (λ w. w ++ laws.todo t.session) a.wb ∙ ap (λ l. s.wb_ ++ laws.todo l) a.session

  -- What one frame adds to the buffer is what the session has less to send.
  pulled-due :
      (s : Io L) (bytes : Bytes)
      → laws.todo s.session ≡ bytes ++ laws.todo (lib.mem_send s.session).0
      → (pulled s).wb_ ++ (bytes ++ laws.todo (pulled s).session) ≡ due s
  pulled-due s bytes e =
      let same = pulled-Same s in
      ap (λ w. w ++ (bytes ++ laws.todo (pulled s).session)) same.wb
      ∙ ap (λ l. s.wb_ ++ (bytes ++ laws.todo l)) same.session
      ∙ ap (λ w. s.wb_ ++ w) (sym e)

  round :
      (fuel : ℕ) (s : Io L) (r : Sent)
      → (lib.mem_send s.session).2 ≡ r
      → Served laws.todo s.session (lib.mem_send s.session).0 r
      → s.data_pending_ ≡ none
      → length s.wb_ ≤ wb_size
      → length (laws.todo s.session) < suc fuel
      → ((v : Bytes)
          → length v ≤ wb_size
          → length (laws.todo (lib.mem_send s.session).0) < fuel
          → Ends fuel (record (pulled s) { wb_ = v }))
      → Ends (suc fuel) s
  unfolding send_loop
  round fuel s out_of_memory e served p fits h again =
      let down = stop-Same (pulled s) in
      let both = Same-trans (pulled-Same s) down in
      (
        (stop (pulled s), false),
        rw (e, send_loop) refl,
        memory (subst (λ w. length w ≤ wb_size) (sym both.wb) fits) (both.pending ∙ p)
            (Same-due both ∙ ap (λ w. s.wb_ ++ w) (sym served)) (stop-stopped (pulled s)) refl,
        Quiet-trans (pulled-Quiet s) (Quiet-Same down),
      )
  round fuel s (failed k) e served p fits h again = absurd served
  round fuel s (sent []) e (next, chunk_fits, inl some_bytes) p fits h again = absurd (omega arith)
  round fuel s (sent []) e (next, chunk_fits, inr (empty, no_more)) p fits h again =
      let same = pulled-Same s in
      (
        (pulled s, true),
        rw (e, send_loop) refl,
        drained (rw same.wb fits) (same.pending ∙ p) (ap laws.todo same.session ∙ no_more)
            (same.wb ∙ sym (append-nil s.wb_) ∙ ap (λ t. s.wb_ ++ t) (sym (next ∙ no_more))) refl,
        pulled-Quiet s,
      )
  round fuel s (sent (c ∷ bytes)) e (next, chunk_fits, more) p fits h again =
      let same = pulled-Same s in
      elim (Bool-cases (ltb wb_size (length (pulled s).wb_ + length (c ∷ bytes)))) [
        | inl over ↦ (
          (record (pulled s) { data_pending_ = some (c ∷ bytes) }, true),
          rw (e, send_loop) (rw (nonzero (length bytes), over) refl),
          full (c ∷ bytes) (rw same.wb fits) refl chunk_fits
              (ltb-true wb_size (length (pulled s).wb_ + length (c ∷ bytes)) over)
              (pulled-due s (c ∷ bytes) next) refl,
          record { writing = same.writing; sent = same.sent },
        )
        | inr under ↦
            let v = (pulled s).wb_ ++ c ∷ bytes in
            let (r, found, looped, quiet) =
              again v
                (omega (
                  arith,
                  length-append (pulled s).wb_ (c ∷ bytes),
                  ltb-false wb_size (length (pulled s).wb_ + length (c ∷ bytes)) under,
                ))
                (omega (
                  arith,
                  ap length next,
                  length-append (c ∷ bytes) (laws.todo (lib.mem_send s.session).0),
                )) in
            (
              r,
              rw (e, send_loop) (rw (nonzero (length bytes), under) found),
              Looped-from s (record (pulled s) { wb_ = v }) r
                  (append_assoc (pulled s).wb_ (c ∷ bytes) (laws.todo (pulled s).session)
                    ∙ pulled-due s (c ∷ bytes) next)
                  looped,
              record { writing = quiet.writing ∙ same.writing; sent = quiet.sent ∙ same.sent },
            )
      ]

  -- The buffer takes all that the session has to send, up to its size, within as many rounds as
  -- there are bytes.
  pub send_loop_lem :
      (fuel : ℕ) (s : Io L)
      → s.data_pending_ ≡ none
      → length s.wb_ ≤ wb_size
      → length (laws.todo s.session) < fuel
      → Ends fuel s
  send_loop_lem zero s p fits h = absurd (omega arith)
  send_loop_lem (suc fuel) s p fits h =
      round fuel s (lib.mem_send s.session).2 refl (laws.served s.session) p fits h (λ v fv less.
        let same = pulled-Same s in
        send_loop_lem fuel (record (pulled s) { wb_ = v }) (same.pending ∙ p) fv
          (rw same.session less))
