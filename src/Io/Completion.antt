-- ===== src/Io/Completion.antt =====
-- The completion of a write: the rest is written at once.
use xmlhttp_request.Prelude.{
  Bool, false, inl, inr, length, refl, some, ℕ, ◌++◌, ◌<◌, ◌≡◌, Bool-cases, [], ap, arith, sym,
  true, ◌∙◌,
}
use xmlhttp_request.Io.{find_in, stream0_closed, Nghttp2, Io, stop, on_written}
use xmlhttp_request.Io.Laws.{IsLawful, InBounds, wire, buffered, owed, Same-owed}
use xmlhttp_request.Io.Stop.{stop-stopped, stop-InBounds, stop-Same}
use xmlhttp_request.Io.Write.{Writes, rest, write_lem}

module _ {L : Type 0} (lib : Nghttp2 L) (laws : IsLawful lib) where
  stop-Writes : (s : Io L) → InBounds s → Writes lib laws (some (stop s)) s
  stop-Writes s b =
      let same = stop-Same s in
      (
        stop s,
        refl,
        record {
          bounds = stop-InBounds s b;
          same = Same-owed laws.todo same;
          served = inl (stop-stopped s);
          wrote = inr same.sent;
        },
      )

  -- The state that the next write starts in.
  abbrev clear : Io L → Io L
  clear s = record s { wb_ = []; writing = false }

  pub clear-InBounds : (s : Io L) → InBounds s → InBounds (clear s)
  clear-InBounds s b = record {
    buffer_fits = omega arith;
    pending_fits = b.pending_fits;
    copy_fits = inr (omega (arith, b.pending_fits));
  }

  clear-owed : (s : Io L) → s.writing ≡ true → owed laws.todo (clear s) ≡ owed laws.todo s
  clear-owed s wo = ap (λ b. wire s.log ++ (buffered b s.wb_ ++ rest lib laws s)) (sym wo)

  -- When a write completes, with or without an error, on a session within the bounds of its buffer,
  -- the handler ends; the buffer is then within its bounds, the bytes that were written, wait in the
  -- buffer or are still to be sent are the same ones in the same order, nothing is left behind, and
  -- the session is writing if the handler gave the socket anything. For a session of nghttp2 that
  -- hands out frames of at most 64 KB, and more rounds of fuel than it has bytes to send.
  pub on_written_lem :
      (fuel : ℕ) (ec : Bool) (s : Io L)
      → InBounds s
      → s.writing ≡ true
      → length (laws.todo s.session) < fuel
      → Writes lib laws (on_written lib fuel ec s) s
  unfolding on_written
  on_written_lem fuel true s b wo h = stop-Writes s b
  on_written_lem fuel false s b wo h =
      elim (Bool-cases (stream0_closed (find_in 0 s.app.streams))) [
        | inl e ↦ rw e (stop-Writes s b)
        | inr e ↦
            let (s', found, w) = write_lem lib laws fuel (clear s) (clear-InBounds s b) h in
            rw e (
              s',
              found,
              record {
                bounds = w.bounds;
                same = w.same ∙ clear-owed s wo;
                served = w.served;
                wrote = w.wrote;
              },
            )
      ]
