-- ===== src/Io/Replay/Write.antt =====
-- `write`, `read` and the completion handlers against the handlers of nghttp2 that they run.
use xmlhttp_request.Prelude.{
  Bool, Bytes, Option, Option-cases, [], false, inl, inr, length, ltb, none, refl, some, suc, take,
  true, zero, ℕ, ◌++◌, ◌+◌, ◌-◌, ◌==◌, ◌∷◌, ◌≡◌, if_both,
}
use xmlhttp_request.Io.{
  Io, Nghttp2, Sent, out_of_memory, failed, sent, after_loop, after_read_write, apply_calls,
  copy_pending, is_length, on_read, on_written, read, read_socket, send_loop, should_stop,
  start_write, stream0_closed, wb_size, write, write_socket,
}
use xmlhttp_request.Session.{find_in}
use xmlhttp_request.Io.Replay.{
  Follows, Follows-refl, Follows-trans, Follows-same, apply_calls-Follows, replay, stop-Follows,
}

module _ {L : Type 0} where
  -- Wherever a call ends, it has followed its handlers.
  abbrev pub Leads : Io L → Option (Io L) → Type 0
  Leads s none = Unit
  Leads s (some t) = Follows s t

  abbrev Loops : Io L → Option (Io L × Bool) → Type 0
  Loops s none = Unit
  Loops s (some r) = Follows s r.0

  pub Leads-from : {s t : Io L} (r : Option (Io L)) → Follows s t → Leads t r → Leads s r
  Leads-from none f g = tt
  Leads-from (some u) f g = Follows-trans f g

  Loops-from : {s t : Io L} (r : Option (Io L × Bool)) → Follows s t → Loops t r → Loops s r
  Loops-from none f g = tt
  Loops-from (some u) f g = Follows-trans f g

  start_write-Follows : (s : Io L) → Follows s (start_write s)
  unfolding start_write replay
  start_write-Follows s =
      if_both (Follows s) (length s.wb_ == 0) _ _ (Follows-refl s)
        (record { new = write_socket s.wb_ ∷ []; grown = refl; replays = refl })

  copy_pending-Follows : (s : Io L) → Follows s (copy_pending s)
  unfolding copy_pending
  copy_pending-Follows s = elim (Option-cases s.data_pending_) [
    | inl e ↦
        Follows-same s (copy_pending s) (rw (e, copy_pending) refl) (rw (e, copy_pending) refl)
    | inr (bytes, e) ↦
        Follows-same s (copy_pending s) (rw (e, copy_pending) refl) (rw (e, copy_pending) refl)
  ]

  after_loop-Leads : (s : Io L) (r : Option (Io L × Bool)) → Loops s r → Leads s (after_loop r)
  unfolding after_loop
  after_loop-Leads s none h = tt
  after_loop-Leads s (some (t, false)) h = h
  after_loop-Leads s (some (t, true)) h = Follows-trans h (start_write-Follows t)

  pub read-Follows : (s : Io L) → Follows s (read s)
  unfolding read replay
  read-Follows s =
      if_both (Follows s) s.stopped _ _ (Follows-refl s)
        (record { new = read_socket ∷ []; grown = refl; replays = refl })

module _ {L : Type 0} (lib : Nghttp2 L) where
  -- The state behind one `nghttp2_session_mem_send`.
  abbrev pulled : Io L → Io L
  pulled s =
      apply_calls (lib.mem_send s.session).1 (record s { session = (lib.mem_send s.session).0 })

  pulled-Follows : (s : Io L) → Follows s (pulled s)
  pulled-Follows s =
      let s1 : Io L = record s { session = (lib.mem_send s.session).0 } in
      Follows-trans (Follows-same s s1 refl refl)
        (apply_calls-Follows (lib.mem_send s.session).1 s1)

  -- The same with another buffer.
  pulled-buffer : (s : Io L) (w : Bytes) → Follows s (record (pulled s) { wb_ = w })
  pulled-buffer s w =
      Follows-trans (pulled-Follows s)
        (Follows-same (pulled s) (record (pulled s) { wb_ = w }) refl refl)

  pulled-pending :
      (s : Io L) (p : Option Bytes) → Follows s (record (pulled s) { data_pending_ = p })
  pulled-pending s p =
      Follows-trans (pulled-Follows s)
        (Follows-same (pulled s) (record (pulled s) { data_pending_ = p }) refl refl)

  round-Loops :
      (fuel : ℕ) (s : Io L) (r : Sent)
      → (lib.mem_send s.session).2 ≡ r
      → ((t : Io L) → Loops t (send_loop lib fuel t))
      → Loops s (send_loop lib (suc fuel) s)
  unfolding send_loop
  round-Loops fuel s out_of_memory e again =
      rw (e, send_loop) (Follows-trans (pulled-Follows s) (stop-Follows (pulled s)))
  round-Loops fuel s (failed k) e again =
      let w = take (length (pulled s).wb_ - (k + 1)) (pulled s).wb_ in
      rw (e, send_loop)
        (if_both (Loops s) (ltb (length (pulled s).wb_) (k + 1)) _ _ (pulled-pending s none) (
          Loops-from (send_loop lib fuel (record (pulled s) { wb_ = w })) (pulled-buffer s w)
            (again (record (pulled s) { wb_ = w }))))
  round-Loops fuel s (sent bytes) e again =
      let w = (pulled s).wb_ ++ bytes in
      rw (e, send_loop)
        (if_both (Loops s) (length bytes == 0) _ _ (pulled-Follows s) (
          if_both (Loops s) (ltb wb_size (length (pulled s).wb_ + length bytes)) _ _
            (pulled-pending s (some bytes))
            (Loops-from (send_loop lib fuel (record (pulled s) { wb_ = w })) (pulled-buffer s w)
              (again (record (pulled s) { wb_ = w })))))

  send_loop-Loops : (fuel : ℕ) (s : Io L) → Loops s (send_loop lib fuel s)
  send_loop-Loops zero s = unfold send_loop in tt
  send_loop-Loops (suc fuel) s =
      round-Loops fuel s (lib.mem_send s.session).2 refl (λ t. send_loop-Loops fuel t)

  pub write-Leads : (fuel : ℕ) (s : Io L) → Leads s (write lib fuel s)
  unfolding write
  write-Leads fuel s = if_both (Leads s) s.stopped _ _ (Follows-refl s) (
      if_both (Leads s) s.writing _ _ (Follows-refl s) (
        after_loop-Leads s (send_loop lib fuel (copy_pending s)) (
          Loops-from (send_loop lib fuel (copy_pending s)) (copy_pending-Follows s)
            (send_loop-Loops fuel (copy_pending s)))))

  -- A write from a later state.
  pub write-Leads_from : (fuel : ℕ) (s t : Io L) → Follows s t → Leads s (write lib fuel t)
  write-Leads_from fuel s t f = Leads-from (write lib fuel t) f (write-Leads fuel t)

  pub on_written-Leads : (fuel : ℕ) (ec : Bool) (s : Io L) → Leads s (on_written lib fuel ec s)
  unfolding on_written
  on_written-Leads fuel ec s =
      let clear : Io L = record s { wb_ = []; writing = false } in
      if_both (Leads s) ec _ _ (stop-Follows s) (
        if_both (Leads s) (stream0_closed (find_in 0 s.app.streams)) _ _ (stop-Follows s)
          (write-Leads_from fuel s clear (Follows-same s clear refl refl)))

  after_read_write-Leads :
      (s : Io L) (r : Option (Io L)) → Leads s r → Leads s (after_read_write lib r)
  unfolding after_read_write
  after_read_write-Leads s none h = tt
  after_read_write-Leads s (some t) h =
      Follows-trans h
        (if_both (Follows t) (should_stop lib t) _ _ (stop-Follows t) (read-Follows t))

  pub on_read-Leads :
      (fuel : ℕ) (ec : Bool) (bytes : Bytes) (s : Io L) → Leads s (on_read lib fuel ec bytes s)
  unfolding on_read
  on_read-Leads fuel ec bytes s =
      let recv = lib.mem_recv s.session bytes in
      let s1 : Io L = record s { session = recv.0 } in
      let s2 = apply_calls recv.1 s1 in
      let follows = Follows-trans (Follows-same s s1 refl refl) (apply_calls-Follows recv.1 s1) in
      if_both (Leads s) (length bytes == 0) _ _ (Follows-refl s) (
        if_both (Leads s) ec _ _ (stop-Follows s) (
          if_both (Leads s) (is_length recv.2 (length bytes)) _ _
            (after_read_write-Leads s (write lib fuel s2) (write-Leads_from fuel s s2 follows))
            (Follows-trans follows (stop-Follows s2))))
