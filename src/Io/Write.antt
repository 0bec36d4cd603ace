-- ===== src/Io/Write.antt =====
-- `write`: the buffer stays within its size, no byte is lost, doubled or
-- moved, and nothing is left behind.
use xmlhttp_request.Prelude.{
  Bool, Bytes, Option, Option-cases, false, inl, inr, length, refl, some, ℕ, ◌++◌, ◌<◌, ◌≡◌,
  Bool-cases, [], ap, append-nil, arith, ◌==◌, ◌≤◌, ◌⊎◌, append_assoc, sym, true, ◌∙◌, ◌∷◌,
  false≢true, length-append, none,
}
use xmlhttp_request.Io.{
  after_loop, Nghttp2, write_socket, Io, wb_size, copy_pending, send_loop, start_write, write,
}
use xmlhttp_request.Io.Laws.{
  Same-InBounds, Same, IsLawful, pending_bytes, InBounds, wire, buffered, owed, IsServed,
  wire-append, Same-owed,
}
use xmlhttp_request.Io.Loop.{Quiet, due, Looped, drained, full, memory, send_loop_lem}

length_nil : (w : Bytes) → (length w == 0) ≡ true → w ≡ []
length_nil [] h = refl
length_nil (c ∷ w) h = absurd (ground arith)

module _ {L : Type 0} (lib : Nghttp2 L) (laws : IsLawful lib) where
  -- What a call that starts at `s` and ends at `s'` comes to: it is within the bounds, has the same
  -- bytes in the same order, leaves nothing behind, and is writing if it gave the socket anything.
  pub record Written (s s' : Io L) : Type 0 where
    pub bounds : InBounds s'
    pub same : owed laws.todo s' ≡ owed laws.todo s
    pub served : IsServed laws.todo s'
    pub wrote : (s'.writing ≡ true) ⊎ (wire s'.log ≡ wire s.log)

  abbrev pub Writes : Option (Io L) → Io L → Type 0
  Writes result s = (s' : Io L) × (result ≡ some s') × Written s s'

  -- What is done behind a call, if it only asks for other things than writing.
  pub Written-Same : (s t u : Io L) → Same t u → u.stopped ≡ t.stopped → Written s t → Written s u
  Written-Same s t u a still w = record {
    bounds = Same-InBounds a w.bounds;
    same = Same-owed laws.todo a ∙ w.same;
    served = rw (still, a.writing, a.wb, a.pending, a.session) w.served;
    wrote = rw (a.writing, a.sent) w.wrote;
  }

  copy_pending-at :
      (s : Io L)
      → copy_pending s
        ≡ record s { wb_ = s.wb_ ++ pending_bytes s.data_pending_; data_pending_ = none }
  unfolding copy_pending
  copy_pending-at s = elim (Option-cases s.data_pending_) [
    | inl e ↦ rw (e, append-nil s.wb_) refl
    | inr (bytes, e) ↦ rw e refl
  ]

  -- What comes behind the buffer.
  abbrev pub rest : Io L → Bytes
  rest s = pending_bytes s.data_pending_ ++ laws.todo s.session

  start_write_lem :
      (s : Io L)
      → s.writing ≡ false
      → length s.wb_ ≤ wb_size
      → length (pending_bytes s.data_pending_) ≤ wb_size
      → ((pending_bytes s.data_pending_ ≡ []) × (laws.todo s.session ≡ [])) ⊎ (0 < length s.wb_)
      → InBounds (start_write s)
        × (owed laws.todo (start_write s) ≡ owed laws.todo s)
        × IsServed laws.todo (start_write s)
        × (((start_write s).writing ≡ true) ⊎ (wire (start_write s).log ≡ wire s.log))
  unfolding start_write
  start_write_lem s wo fits pending_fits some_left = elim (Bool-cases (length s.wb_ == 0)) [
    | inl z ↦ rw z (
      record { buffer_fits = fits; pending_fits = pending_fits; copy_fits = inr (ground arith) },
      refl,
      elim some_left [
        | inl (p, t) ↦ inr (inr (length_nil s.wb_ z, p, t))
        | inr some_bytes ↦ absurd (ground arith)
      ],
      inr refl,
    )
    | inr z ↦ rw z (
      record { buffer_fits = fits; pending_fits = pending_fits; copy_fits = inl refl },
      ap (λ t. t ++ rest s)
            (wire-append s.log (write_socket s.wb_ ∷ [])
              ∙ ap (λ t. wire s.log ++ t) (append-nil s.wb_))
          ∙ append_assoc (wire s.log) s.wb_ (rest s)
          ∙ ap (λ b. wire s.log ++ (buffered b s.wb_ ++ rest s)) (sym wo),
      inr (inl refl),
      inl refl,
    )
  ]

  owed_idle : (s : Io L) → s.writing ≡ false → owed laws.todo s ≡ wire s.log ++ (s.wb_ ++ rest s)
  owed_idle s wo = ap (λ b. wire s.log ++ (buffered b s.wb_ ++ rest s)) wo

  -- The same from an earlier state.
  later :
      (s t u : Io L)
      → wire t.log ≡ wire s.log
      → (u.writing ≡ true) ⊎ (wire u.log ≡ wire t.log)
      → (u.writing ≡ true) ⊎ (wire u.log ≡ wire s.log)
  later s t u e (inl w) = inl w
  later s t u e (inr w) = inr (w ∙ e)

  -- The state behind the loop, with the write started.
  started :
      (s : Io L) (r : Io L × Bool)
      → s.writing ≡ false
      → Looped lib laws s r
      → Quiet lib laws s r.0
      → (s' : Io L) × (after_loop (some r) ≡ some s')
        × InBounds s'
        × (owed laws.todo s' ≡ wire s.log ++ due lib laws s)
        × IsServed laws.todo s'
        × ((s'.writing ≡ true) ⊎ (wire s'.log ≡ wire s.log))
  unfolding after_loop
  started s (t, b) wo (drained fits p none_left all q) quiet =
      let (bounds, same, served, wrote) =
        start_write_lem t (quiet.writing ∙ wo) fits (rw p (omega arith))
          (inl (rw p refl, none_left)) in
      (
        start_write t,
        ap (λ c. after_loop (some (t, c))) q,
        bounds,
        same
            ∙ owed_idle t (quiet.writing ∙ wo)
            ∙ ap (λ w. w ++ (t.wb_ ++ rest t)) quiet.sent
            ∙ ap (λ w. wire s.log ++ w)
                (ap (λ o. t.wb_ ++ (pending_bytes o ++ laws.todo t.session)) p
                  ∙ ap (λ w. t.wb_ ++ w) none_left
                  ∙ append-nil t.wb_
                  ∙ all),
        served,
        later s t (start_write t) quiet.sent wrote,
      )
  started s (t, b) wo (full bytes fits p bytes_fit over all q) quiet =
      let (bounds, same, served, wrote) =
        start_write_lem t (quiet.writing ∙ wo) fits (rw p bytes_fit) (inr (omega arith)) in
      (
        start_write t,
        ap (λ c. after_loop (some (t, c))) q,
        bounds,
        same
            ∙ owed_idle t (quiet.writing ∙ wo)
            ∙ ap (λ w. w ++ (t.wb_ ++ rest t)) quiet.sent
            ∙ ap (λ w. wire s.log ++ w)
                (ap (λ o. t.wb_ ++ (pending_bytes o ++ laws.todo t.session)) p ∙ all),
        served,
        later s t (start_write t) quiet.sent wrote,
      )
  started s (t, b) wo (memory fits p all st q) quiet = (
    t,
    ap (λ c. after_loop (some (t, c))) q,
    record {
      buffer_fits = fits;
      pending_fits = rw p (omega arith);
      copy_fits = inr (rw p (omega arith));
    },
    owed_idle t (quiet.writing ∙ wo)
        ∙ ap (λ w. w ++ (t.wb_ ++ rest t)) quiet.sent
        ∙ ap (λ w. wire s.log ++ w)
            (ap (λ o. t.wb_ ++ (pending_bytes o ++ laws.todo t.session)) p ∙ all),
    inl st,
    inr quiet.sent,
  )

  copy_bound :
      (s : Io L)
      → InBounds s
      → s.writing ≡ false
      → length (s.wb_ ++ pending_bytes s.data_pending_) ≤ wb_size
  copy_bound s b wo = elim b.copy_fits [
    | inl e ↦ absurd (false≢true (sym wo ∙ e))
    | inr fits ↦ omega (arith, length-append s.wb_ (pending_bytes s.data_pending_))
  ]

  owed_open :
      (s : Io L)
      → s.writing ≡ false
      → wire s.log ++ (s.wb_ ++ pending_bytes s.data_pending_ ++ laws.todo s.session)
        ≡ owed laws.todo s
  owed_open s wo =
      ap (λ t. wire s.log ++ t)
        (append_assoc s.wb_ (pending_bytes s.data_pending_) (laws.todo s.session))
      ∙ ap (λ b. wire s.log ++ (buffered b s.wb_ ++ rest s)) (sym wo)

  write_open :
      (fuel : ℕ) (s : Io L)
      → s.stopped ≡ false
      → s.writing ≡ false
      → write lib fuel s ≡ after_loop (send_loop lib fuel (copy_pending s))
  unfolding write
  write_open fuel s so wo = ground arith

  -- On a session that is within the bounds of its buffer, `write` ends; afterwards the buffer is
  -- within its bounds, the bytes that were written, wait in the buffer or are still to be sent by
  -- nghttp2 are the same ones in the same order, nothing is left behind (the session is stopped, a
  -- write is running, or nothing is left to send), and the session is writing if `write` gave the
  -- socket anything. For a session of nghttp2 that hands out frames of at most 64 KB, and more rounds
  -- of fuel than it has bytes to send.
  pub write_lem :
      (fuel : ℕ) (s : Io L)
      → InBounds s
      → length (laws.todo s.session) < fuel
      → Writes (write lib fuel s) s
  unfolding write
  write_lem fuel s b h = elim (Bool-cases s.stopped) [
    | inl e ↦ (s, rw e refl, record { bounds = b; same = refl; served = inl e; wrote = inr refl })
    | inr so ↦ elim (Bool-cases s.writing) [
      | inl e ↦ (
        s,
        rw (so, e) refl,
        record { bounds = b; same = refl; served = inr (inl e); wrote = inr refl },
      )
      | inr wo ↦
          let s1 : Io L = record s {
            wb_ = s.wb_ ++ pending_bytes s.data_pending_;
            data_pending_ = none;
          } in
          let (r, found, looped, quiet) =
            send_loop_lem lib laws fuel s1 refl (copy_bound s b wo) h in
          let (s', ends, bounds, same, served, wrote) = started s1 r wo looped quiet in
          (
            s',
            write_open fuel s so wo
                ∙ ap (λ x. after_loop (send_loop lib fuel x)) (copy_pending-at s)
                ∙ ap after_loop found
                ∙ ends,
            record {
              bounds = bounds;
              same = same ∙ owed_open s wo;
              served = served;
              wrote = wrote;
            },
          )
    ]
  ]
