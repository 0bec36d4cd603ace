-- ===== src/Io/Connect/Laws.antt =====
-- How a connection starts: by `startResolve`, from the name to the first bytes.
use xmlhttp_request.Prelude.{
  Bool, Bool-cases, Option, [], ap, false, if◌then◌else◌, inl, inr, length, refl, some, sym, true,
  ℕ, ◌++◌, ◌<◌, ◌∷◌, ◌≡◌, arith, none, ◌&&◌, ◌∙◌, false≢true, ◌≢◌,
}
use mathlib.Core.List.{append_cancel_left}
use xmlhttp_request.Io.Laws.{buffered, pending_bytes, wire, owed}
use xmlhttp_request.Io.{
  Io, Nghttp2, connect_callback, on_socket_connected, read_of, start_ping_of, write,
}
use xmlhttp_request.Io.Laws.{InBounds, IsLawful, wire}
use xmlhttp_request.Io.Write.{Written}
use xmlhttp_request.Io.Connect.{start_connect, start_resolve, Network, connected_of, notify_connect}
use xmlhttp_request.Io.Stop.{stop_same}
use xmlhttp_request.Io.Connect.Mild.{
  ready, notify_connect-Mild, notify_connect-log, on_socket_connected-Writes, connected_of-Writes,
}

-- All that `startResolve` needs of the network.
abbrev pub reachable : Network → Bool
reachable net = net.resolves && (net.connects && net.shakes_hands)

module _ {L : Type 0} (lib : Nghttp2 L) where
  -- A stopped session whose host is not reached, by name, by connection or by handshake, is left as
  -- it is: the error is reported, and nothing is asked of the socket and no callback is called.
  pub start_resolve-unreachable :
      (fuel : ℕ) (fresh : Option L) (net : Network) (s : Io L)
      → reachable net ≡ false
      → s.stopped ≡ true
      → start_resolve lib fuel fresh net s ≡ some (s, true)
  unfolding start_resolve start_connect
  start_resolve-unreachable fuel fresh net s no_way st = ground (arith, stop_same s st)

module _ {L : Type 0} (lib : Nghttp2 L) (laws : IsLawful lib) where
  start_resolve-reachable :
      (fuel : ℕ) (fresh : Option L) (net : Network) (s : Io L)
      → reachable net ≡ true
      → s.stopped ≡ true
      → start_resolve lib fuel fresh net s ≡ connected_of (on_socket_connected lib fuel fresh s)
  unfolding start_resolve start_connect
  start_resolve-reachable fuel fresh net s ok st = ground arith

  -- The first connection of a stopped session to a host that is reached: it starts without an error,
  -- whatever protocol the host agreed on, with the settings behind what was to be written before;
  -- the buffer is within its bounds, all bytes are kept in their order, the session is then stopped,
  -- or a write is running, or nothing is left to write, and it is writing if it gave the socket
  -- anything. For a session of nghttp2 that hands out frames of at most 64 KB, and more rounds of
  -- fuel than it has bytes to send.
  pub start_resolve_lem :
      (fuel : ℕ) (l : L) (net : Network) (s : Io L)
      → reachable net ≡ true
      → s.stopped ≡ true
      → s.has_session ≡ false
      → InBounds s
      → length (laws.todo (lib.submit_settings l)) < fuel
      → (s' : Io L) × (start_resolve lib fuel (some l) net s ≡ some (s', false))
        × Written lib laws (ready lib l s) s'
  start_resolve_lem fuel l net s ok st first b h =
      let (s', found, w) =
        connected_of-Writes lib laws (on_socket_connected lib fuel (some l) s) (ready lib l s)
          (on_socket_connected-Writes lib laws fuel l s first b h) in
      (s', start_resolve-reachable fuel (some l) net s ok st ∙ found, w)

  pub again-connected :
      (fuel : ℕ) (fresh : Option L) (s : Io L)
      → s.has_session ≡ true
      → on_socket_connected lib fuel fresh s ≡ some (record s { stopped = false })
  unfolding on_socket_connected
  again-connected fuel fresh s had =
      ap
        (λ c. if c then some (record s { stopped = false }) else elim fresh [
          | none ↦ some (record s { stopped = false })
          | some l ↦ start_ping_of (read_of (write lib fuel (ready lib l s)))
        ])
        had

  -- A session that was connected before and is started again counts as running, but neither writes
  -- nor reads nor pings: its buffers, the session of nghttp2 and what the socket was asked for are
  -- as they were, and the callback of the application is called, where there is one.
  pub start_resolve-again :
      (fuel : ℕ) (fresh : Option L) (net : Network) (s : Io L)
      → reachable net ≡ true
      → s.stopped ≡ true
      → s.has_session ≡ true
      → (s' : Io L) × (start_resolve lib fuel fresh net s ≡ some (s', false))
        × (s'.stopped ≡ false)
        × (s'.session ≡ s.session)
        × (s'.log ≡ s.log ++ (if s.has_start_callback then connect_callback ∷ [] else []))
  start_resolve-again fuel fresh net s ok st had =
      let s1 : Io L = record s { stopped = false } in
      let mild = notify_connect-Mild s1 in
      let same = mild.same in
      (
        notify_connect s1,
        start_resolve-reachable fuel fresh net s ok st
            ∙ ap connected_of (again-connected fuel fresh s had)
            ∙ (unfold connected_of in refl),
        mild.still,
        same.session,
        notify_connect-log s1,
      )

  -- What is owed where the buffer is empty and nothing waits behind it.
  owed_only :
      (s : Io L)
      → s.writing ≡ false
      → s.wb_ ≡ []
      → pending_bytes s.data_pending_ ≡ []
      → owed laws.todo s ≡ wire s.log ++ laws.todo s.session
  owed_only s idle empty behind =
      let rest = pending_bytes s.data_pending_ ++ laws.todo s.session in
      ap (λ b. wire s.log ++ (buffered b s.wb_ ++ rest)) idle
      ∙ ap (λ x. wire s.log ++ (x ++ rest)) empty
      ∙ ap (λ x. wire s.log ++ (x ++ laws.todo s.session)) behind

  -- A first connection with nothing to write before, on which the settings are some bytes, is writing
  -- once it has started, unless it was stopped.
  pub started_busy :
      (l : L) (s s' : Io L)
      → Written lib laws (ready lib l s) s'
      → s.writing ≡ false
      → s.wb_ ≡ []
      → s.data_pending_ ≡ none
      → laws.todo (lib.submit_settings l) ≢ []
      → s'.stopped ≡ false
      → s'.writing ≡ true
  started_busy l s s' w idle empty behind some_bytes runs = elim w.served [
    | inl st ↦ absurd (false≢true (sym runs ∙ st))
    | inr (inl busy) ↦ busy
    | inr (inr (wb, p, t)) ↦ elim (Bool-cases s'.writing) [
      | inl busy ↦ busy
      | inr rests ↦ elim w.wrote [
        | inl busy ↦ busy
        | inr quiet ↦ absurd (
            some_bytes (
              append_cancel_left (wire (ready lib l s).log) (laws.todo (lib.submit_settings l)) [] (
                sym (owed_only (ready lib l s) idle empty (ap pending_bytes behind))
                ∙ sym w.same
                ∙ owed_only s' rests wb p
                ∙ ap (λ x. wire s'.log ++ x) t
                ∙ ap (λ x. x ++ []) quiet)))
      ]
    ]
  ]
