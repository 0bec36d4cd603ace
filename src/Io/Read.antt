-- ===== src/Io/Read.antt =====
-- `read`: the handler of the bytes that come in.
use xmlhttp_request.Prelude.{
  Bool, Bool-cases, Bytes, List, Option, [], ap, false, if◌then◌else◌, inl, inr, length, refl, some,
  true, ℕ, ◌++◌, ◌<◌, ◌∷◌, ◌≡◌, ◌⊎◌, subst, sym,
}
use xmlhttp_request.Io.{
  apply_calls, is_length, should_stop, on_read, after_read_write, read, read_socket, Nghttp2,
  Action, Io, stop, write,
}
use xmlhttp_request.Io.Laws.{IsLawful, InBounds, Same-InBounds}
use xmlhttp_request.Io.Stop.{stop-stopped, stop-InBounds}
use xmlhttp_request.Io.Loop.{nonzero}
use xmlhttp_request.Io.Calls.{apply_calls-Same}
use xmlhttp_request.Io.Write.{Writes, write_lem}

module _ {L : Type 0} (lib : Nghttp2 L) (laws : IsLawful lib) where
  -- What a call of the read handler comes to: it ends within the bounds, and then the session is
  -- stopped or has asked for the next bytes, as the last thing it did.
  abbrev pub Reads : Option (Io L) → Type 0
  Reads result =
      (s' : Io L) × (result ≡ some s')
      × InBounds s'
      × ((s'.stopped ≡ true) ⊎ ((log : List Action) × (s'.log ≡ log ++ read_socket ∷ [])))

  stop-Reads : (s : Io L) → InBounds s → Reads (some (stop s))
  stop-Reads s b = (stop s, refl, stop-InBounds s b, inl (stop-stopped s))

  abbrev asked : Io L → Io L
  asked s = record s { log = s.log ++ read_socket ∷ [] }

  pub read-Reads : (s : Io L) → InBounds s → Reads (some (read s))
  unfolding read
  read-Reads s b = elim (Bool-cases s.stopped) [
    | inl e ↦ (s, ap (λ c. some (if c then s else asked s)) e, b, inl e)
    | inr e ↦ (
      asked s,
      ap (λ c. some (if c then s else asked s)) e,
      record {
        buffer_fits = b.buffer_fits;
        pending_fits = b.pending_fits;
        copy_fits = b.copy_fits;
      },
      inr (s.log, refl),
    )
  ]

  after-Reads :
      (s : Io L) (result : Option (Io L))
      → Writes lib laws result s
      → Reads (after_read_write lib result)
  unfolding after_read_write
  after-Reads s result (s', found, w) = rw found (elim (Bool-cases (should_stop lib s')) [
    | inl e ↦ rw e (stop-Reads s' w.bounds)
    | inr e ↦ rw e (read-Reads s' w.bounds)
  ])

  session-InBounds : (s : Io L) (l : L) → InBounds s → InBounds (record s { session = l })
  session-InBounds s l b = record {
    buffer_fits = b.buffer_fits;
    pending_fits = b.pending_fits;
    copy_fits = b.copy_fits;
  }

  -- Once bytes have come in, the read handler of a session within the bounds of its buffer ends
  -- within them, and it either stops the session or asks for the next bytes as the last thing it
  -- does. For a session of nghttp2 that hands out frames of at most 64 KB, and more rounds of fuel
  -- than it then has bytes to send.
  pub on_read_lem :
      (fuel : ℕ) (ec : Bool) (c : ℕ) (bytes : Bytes) (s : Io L)
      → InBounds s
      → length (laws.todo (lib.mem_recv s.session (c ∷ bytes)).0) < fuel
      → Reads (on_read lib fuel ec (c ∷ bytes) s)
  unfolding on_read
  on_read_lem fuel true c bytes s b h = rw (nonzero (length bytes)) (stop-Reads s b)
  on_read_lem fuel false c bytes s b h =
      let recv = lib.mem_recv s.session (c ∷ bytes) in
      let s1 : Io L = record s { session = recv.0 } in
      let same = apply_calls-Same recv.1 s1 in
      let s2 = apply_calls recv.1 s1 in
      let b2 = Same-InBounds same (session-InBounds s recv.0 b) in
      let h2 = subst (λ l. length (laws.todo l) < fuel) (sym same.session) h in
      rw (nonzero (length bytes)) (elim (Bool-cases (is_length recv.2 (length (c ∷ bytes)))) [
        | inl e ↦ rw e (after-Reads s2 (write lib fuel s2) (write_lem lib laws fuel s2 b2 h2))
        | inr e ↦ rw e (stop-Reads s2 b2)
      ])
