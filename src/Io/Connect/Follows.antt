-- ===== src/Io/Connect/Follows.antt =====
-- The start of a connection against the handlers of nghttp2 that it runs.
use xmlhttp_request.Prelude.{Bool, Option, [], false, if_both, none, not, refl, some, ℕ, ◌∷◌}
use xmlhttp_request.Io.{
  Io, Nghttp2, connect_callback, on_socket_connected, read_of, set_no_delay, start_ping_of,
  wait_ping, write, start_ping,
}
use xmlhttp_request.Io.Replay.{
  Follows, Follows-refl, Follows-trans, Follows-same, replay, stop-Follows,
}
use xmlhttp_request.Io.Replay.Write.{Leads, Leads-from, read-Follows, write-Leads_from}
use xmlhttp_request.Io.Connect.{
  tls_h2_negotiated, Network, connected_of, notify_connect, start_connect, start_resolve,
}
use xmlhttp_request.Io.Connect.Mild.{ready}

module _ {L : Type 0} where
  read_of-Leads : (s : Io L) (r : Option (Io L)) → Leads s r → Leads s (read_of r)
  unfolding read_of
  read_of-Leads s none h = tt
  read_of-Leads s (some t) h = Follows-trans h (read-Follows t)

  pub start_ping_of-Leads : (s : Io L) (r : Option (Io L)) → Leads s r → Leads s (start_ping_of r)
  unfolding start_ping_of start_ping replay
  start_ping_of-Leads s none h = tt
  start_ping_of-Leads s (some t) h =
      Follows-trans h (record { new = wait_ping ∷ []; grown = refl; replays = refl })

  notify_connect-Follows : (s : Io L) → Follows s (notify_connect s)
  unfolding notify_connect replay
  notify_connect-Follows s =
      if_both (Follows s) s.has_start_callback _ _
        (record { new = connect_callback ∷ []; grown = refl; replays = refl }) (Follows-refl s)

  start_connect-Follows : (net : Network) (s : Io L) → Follows s (start_connect net s).0
  unfolding start_connect
  start_connect-Follows net s =
      let P = λ (r : Io L × Bool). Follows s r.0 in
      if_both P (not s.stopped) _ _ (Follows-refl s) (
        if_both P (not net.connects) _ _ (Follows-refl s) (
          if_both P (not net.shakes_hands) _ _ (stop-Follows s) (
            if_both P (not (tls_h2_negotiated net.next_proto net.alpn)) _ _ (Follows-refl s)
              (Follows-refl s))))

module _ {L : Type 0} (lib : Nghttp2 L) where
  ready-Follows : (l : L) (s : Io L) → Follows s (ready lib l s)
  unfolding replay
  ready-Follows l s = record { new = set_no_delay ∷ []; grown = refl; replays = refl }

  on_socket_connected-Leads :
      (fuel : ℕ) (fresh : Option L) (s : Io L) → Leads s (on_socket_connected lib fuel fresh s)
  unfolding on_socket_connected
  on_socket_connected-Leads fuel none s =
      if_both (Leads s) s.has_session _ _ (Follows-same s (record s { stopped = false }) refl refl)
        (Follows-same s (record s { stopped = false }) refl refl)
  on_socket_connected-Leads fuel (some l) s =
      if_both (Leads s) s.has_session _ _ (Follows-same s (record s { stopped = false }) refl refl)
        (start_ping_of-Leads s (read_of (write lib fuel (ready lib l s))) (
          read_of-Leads s (write lib fuel (ready lib l s))
            (write-Leads_from lib fuel s (ready lib l s) (ready-Follows l s))))

  -- Wherever `startResolve` ends, it has followed its handlers.
  abbrev pub Resolves : Io L → Option (Io L × Bool) → Type 0
  Resolves s none = Unit
  Resolves s (some r) = Follows s r.0

  connected_of-Resolves : (s : Io L) (r : Option (Io L)) → Leads s r → Resolves s (connected_of r)
  unfolding connected_of
  connected_of-Resolves s none h = tt
  connected_of-Resolves s (some t) h = Follows-trans h (notify_connect-Follows t)

  pub start_resolve-Resolves :
      (fuel : ℕ) (fresh : Option L) (net : Network) (s : Io L)
      → Resolves s (start_resolve lib fuel fresh net s)
  unfolding start_resolve
  start_resolve-Resolves fuel fresh net s =
      let (s1, failed) = start_connect net s in
      let f = start_connect-Follows net s in
      if_both (Resolves s) (not net.resolves) _ _ (stop-Follows s) (
        if_both (Resolves s) failed _ _ (Follows-trans f (stop-Follows s1)) (
          connected_of-Resolves s (on_socket_connected lib fuel fresh s1) (
            Leads-from (on_socket_connected lib fuel fresh s1) f
              (on_socket_connected-Leads fuel fresh s1))))
