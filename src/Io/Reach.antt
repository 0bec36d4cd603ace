-- ===== src/Io/Reach.antt =====
-- The life of a connection, as the events that asio delivers to it in any order.
use mathlib.Core.Option.{some-injective}
use xmlhttp_request.Prelude.{
  Bool, Bytes, Option, [], length, some, subst, sym, true, ℕ, ◌<◌, ◌∷◌, ◌≡◌, Bool-cases, ap,
  if◌then◌else◌, inl, inr, refl, ◌||◌, ◌∙◌, ℤ,
}
use xmlhttp_request.Io.{
  Nghttp2, Io, stop, write, on_written, on_read, submit_ping, start_ping, start_ping_of, on_ping,
}
use xmlhttp_request.Io.Laws.{IsLawful, InBounds, Same-InBounds}
use xmlhttp_request.Io.Stop.{stop-InBounds}
use xmlhttp_request.Io.Completion.{on_written_lem}
use xmlhttp_request.Io.Write.{write_lem}
use xmlhttp_request.Io.Read.{on_read_lem}
use xmlhttp_request.Io.Submit.{Library, Order, ErrorCode, returned, submit}
use xmlhttp_request.Io.Connect.{Network, start_resolve}
use xmlhttp_request.Io.Connect.Mild.{start_ping-Mild}
use xmlhttp_request.Io.Connect.Bounds.{start_resolve-Ends}
use xmlhttp_request.Io.Submit.Laws.{OnReturn, submit-OnReturn}
use xmlhttp_request.Io.Submit.Laws.{asked as asked_of}

module _ {L : Type 0} (lib : Nghttp2 L) (requests : Library L) (laws : IsLawful lib) where
  -- One event, with more rounds than bytes for the loop of `write`.
  pub data Step (s s' : Io L) : Type 0 where
    resolved :
        (fuel : ℕ) (fresh : Option L) (net : Network) (failed : Bool)
        → ((l : L) → fresh ≡ some l → length (laws.todo (lib.submit_settings l)) < fuel)
        → start_resolve lib fuel fresh net s ≡ some (s', failed)
        → Step s s'
    asked :
        (fuel : ℕ) → length (laws.todo s.session) < fuel → write lib fuel s ≡ some s' → Step s s'
    written :
        (fuel : ℕ) (ec : Bool)
        → s.writing ≡ true
        → length (laws.todo s.session) < fuel
        → on_written lib fuel ec s ≡ some s'
        → Step s s'
    received :
        (fuel : ℕ) (ec : Bool) (bytes : Bytes)
        → length (laws.todo (lib.mem_recv s.session bytes).0) < fuel
        → on_read lib fuel ec bytes s ≡ some s'
        → Step s s'
    pinged :
        (fuel : ℕ) (aborted : Bool)
        → length (laws.todo (submit_ping lib aborted s).session) < fuel
        → on_ping lib fuel aborted s ≡ some s'
        → Step s s'
    submitted :
        (held : Bool) (o : Order) (ec : ErrorCode) (id : ℤ)
        → submit requests held o s ≡ returned s' ec id
        → Step s s'
    stopped : s' ≡ stop s → Step s s'

  pub data Reach (s : Io L) : Io L → Type 0 where
    here : Reach s s
    next : {s' s'' : Io L} → Reach s s' → Step s' s'' → Reach s s''

  -- A call that ends within the bounds, at the state that it is known to end in.
  ends-InBounds :
      (result : Option (Io L)) (s' : Io L)
      → (t : Io L) × (result ≡ some t) × InBounds t
      → result ≡ some s'
      → InBounds s'
  ends-InBounds result s' (t, found, b) e = subst InBounds (some-injective t s' (sym found ∙ e)) b

  -- A call that ends, within the bounds.
  abbrev Ends : Option (Io L) → Type 0
  Ends result = (t : Io L) × (result ≡ some t) × InBounds t

  session-InBounds : (s : Io L) (l : L) → InBounds s → InBounds (record s { session = l })
  session-InBounds s l b = record {
    buffer_fits = b.buffer_fits;
    pending_fits = b.pending_fits;
    copy_fits = b.copy_fits;
  }

  start_ping-Ends : (result : Option (Io L)) → Ends result → Ends (start_ping_of result)
  unfolding start_ping_of
  start_ping-Ends result (t, found, b) =
      let mild = start_ping-Mild t in (start_ping t, rw found refl, Same-InBounds mild.same b)

  write-Ends :
      (fuel : ℕ) (s : Io L)
      → InBounds s
      → length (laws.todo s.session) < fuel
      → Ends (write lib fuel s)
  write-Ends fuel s b h = let (t, found, w) = write_lem lib laws fuel s b h in (t, found, w.bounds)

  abbrev ping : Io L → Io L
  ping s = record s { session = lib.submit_ping_frame s.session }

  pub submit_ping-InBounds :
      (aborted : Bool) (s : Io L) → InBounds s → InBounds (submit_ping lib aborted s)
  unfolding submit_ping
  submit_ping-InBounds aborted s b = elim (Bool-cases (s.stopped || aborted)) [
    | inl e ↦ subst InBounds (sym (ap (λ c. if c then s else ping s) e)) b
    | inr e ↦
        subst InBounds (sym (ap (λ c. if c then s else ping s) e))
          (session-InBounds s (lib.submit_ping_frame s.session) b)
  ]

  -- `submit` leaves the buffer alone.
  submit-InBounds :
      (held : Bool) (o : Order) (s s' : Io L) (ec : ErrorCode) (id : ℤ)
      → InBounds s
      → submit requests held o s ≡ returned s' ec id
      → InBounds s'
  submit-InBounds held o s s' ec id b e = subst (OnReturn InBounds) e (
      submit-OnReturn requests InBounds held o s b
        (λ u. session-InBounds s (asked_of requests s u o).0 b)
        (λ u n. record {
          buffer_fits = b.buffer_fits;
          pending_fits = b.pending_fits;
          copy_fits = b.copy_fits;
        }))

  Step-InBounds : (s s' : Io L) → InBounds s → Step s s' → InBounds s'
  Step-InBounds s s' b (resolved fuel fresh net failed h e) =
      let (r, found, bounds) = start_resolve-Ends lib laws fuel fresh net s b h in
      subst (λ x. InBounds x.0) (some-injective r (s', failed) (sym found ∙ e)) bounds
  Step-InBounds s s' b (submitted held o ec id e) = submit-InBounds held o s s' ec id b e
  Step-InBounds s s' b (asked fuel h e) =
      let (t, found, w) = write_lem lib laws fuel s b h in
      ends-InBounds (write lib fuel s) s' (t, found, w.bounds) e
  Step-InBounds s s' b (written fuel ec w h e) =
      let (t, found, done) = on_written_lem lib laws fuel ec s b w h in
      ends-InBounds (on_written lib fuel ec s) s' (t, found, done.bounds) e
  Step-InBounds s s' b (received fuel ec [] h e) =
      ends-InBounds (on_read lib fuel ec [] s) s' (s, unfold on_read in refl, b) e
  Step-InBounds s s' b (received fuel ec (c ∷ bytes) h e) =
      let (t, found, bounds, goes_on) = on_read_lem lib laws fuel ec c bytes s b h in
      ends-InBounds (on_read lib fuel ec (c ∷ bytes) s) s' (t, found, bounds) e
  Step-InBounds s s' b (pinged fuel aborted h e) =
      ends-InBounds (on_ping lib fuel aborted s) s'
        (unfold on_ping in
          start_ping-Ends (write lib fuel (submit_ping lib aborted s))
            (write-Ends fuel (submit_ping lib aborted s) (submit_ping-InBounds aborted s b) h))
        e
  Step-InBounds s s' b (stopped e) = subst InBounds (sym e) (stop-InBounds s b)

  -- In whatever order the connection is made, writes are asked for, writes and reads complete,
  -- pings are sent and the session is stopped, the write buffer of a connection that starts within
  -- its bounds stays within them: at most 64 KB in it, and room for what waits behind it. For a
  -- session of nghttp2 that hands out frames of at most 64 KB.
  pub Reach-InBounds : (s s' : Io L) → InBounds s → Reach s s' → InBounds s'
  Reach-InBounds s s' b here = b
  Reach-InBounds s s' b (next r step) = Step-InBounds _ s' (Reach-InBounds s _ b r) step
