-- ===== src/Io/Account/Parts.antt =====
-- What the parts of a connection that write nothing leave of its account.
use xmlhttp_request.Prelude.{
  Bytes, List, Option, [], if_both, none, refl, some, sym, ◌++◌, ◌∙◌, ◌∷◌, ◌≡◌, Bool, false, not,
  subst, ℕ,
}
use xmlhttp_request.Io.{
  Action, Io, Nghttp2, after_read_write, connect_callback, on_socket_connected, read, read_socket,
  should_stop, start_ping, start_ping_of, stop, wait_ping,
}
use xmlhttp_request.Io.Laws.{IsLawful, log-Same, wire}
use xmlhttp_request.Io.Calls.{stop-Steady}
use xmlhttp_request.Io.Stop.{stop-Same}
use xmlhttp_request.Tls.Alpn.{tls_h2_negotiated}
use xmlhttp_request.Io.Connect.{Network, start_resolve, start_connect, connected_of, notify_connect}
use xmlhttp_request.Io.Connect.Laws.{again-connected}
use xmlhttp_request.Io.Account.{IsAccounted, Same-IsAccounted}

module _ {L : Type 0} (handed : L → Bytes) where
  -- What holds of the state in which a call ends, if it ends.
  abbrev pub OnEnd : Option (Io L) → Type 0
  OnEnd none = Unit
  OnEnd (some t) = IsAccounted handed t

  pub stop-IsAccounted : (s : Io L) → IsAccounted handed s → IsAccounted handed (stop s)
  stop-IsAccounted s a = Same-IsAccounted handed (stop-Same s) (stop-Steady s) a

  -- Actions that write nothing.
  pub log-IsAccounted :
      (s : Io L) (new : List Action)
      → wire new ≡ []
      → IsAccounted handed s
      → IsAccounted handed (record s { log = s.log ++ new })
  log-IsAccounted s new e a =
      Same-IsAccounted handed (log-Same s new e) (record { setting = refl; had = refl }) a

  read-IsAccounted : (s : Io L) → IsAccounted handed s → IsAccounted handed (read s)
  unfolding read
  read-IsAccounted s a =
      if_both (IsAccounted handed) s.stopped _ _ a (log-IsAccounted s (read_socket ∷ []) refl a)

  pub after_read_write-OnEnd :
      (lib : Nghttp2 L) (r : Option (Io L)) → OnEnd r → OnEnd (after_read_write lib r)
  unfolding after_read_write
  after_read_write-OnEnd lib none a = tt
  after_read_write-OnEnd lib (some t) a =
      if_both (IsAccounted handed) (should_stop lib t) _ _ (stop-IsAccounted t a)
        (read-IsAccounted t a)

  pub start_ping_of-OnEnd : (r : Option (Io L)) → OnEnd r → OnEnd (start_ping_of r)
  unfolding start_ping_of start_ping
  start_ping_of-OnEnd none a = tt
  start_ping_of-OnEnd (some t) a =
      let b = log-IsAccounted t (wait_ping ∷ []) refl a in record { has = b.has; all = b.all }

  -- Another session of nghttp2 with the same history.
  pub session-IsAccounted :
      (s : Io L) (l : L)
      → handed l ≡ handed s.session
      → IsAccounted handed s
      → IsAccounted handed (record s { session = l })
  session-IsAccounted s l e a = record { has = a.has; all = a.all ∙ sym e }

  notify_connect-IsAccounted :
      (s : Io L) → IsAccounted handed s → IsAccounted handed (notify_connect s)
  unfolding notify_connect
  notify_connect-IsAccounted s a =
      if_both (IsAccounted handed) s.has_start_callback _ _
        (log-IsAccounted s (connect_callback ∷ []) refl a) a

  -- Wherever `startResolve` ends.
  abbrev pub OnResolved : Option (Io L × Bool) → Type 0
  OnResolved none = Unit
  OnResolved (some r) = IsAccounted handed r.0

  start_connect-IsAccounted :
      (net : Network) (s : Io L) → IsAccounted handed s → IsAccounted handed (start_connect net s).0
  unfolding start_connect
  start_connect-IsAccounted net s a =
      let P = λ (r : Io L × Bool). IsAccounted handed r.0 in
      if_both P (not s.stopped) _ _ a (
        if_both P (not net.connects) _ _ a (
          if_both P (not net.shakes_hands) _ _ (stop-IsAccounted s a)
            (if_both P (not (tls_h2_negotiated net.next_proto net.alpn)) _ _ a a)))

  -- A session that was connected before is started again, with what it had.
  again-OnResolved :
      (lib : Nghttp2 L) (laws : IsLawful lib) (fuel : ℕ) (fresh : Option L) (s : Io L)
      → IsAccounted handed s
      → OnResolved (connected_of (on_socket_connected lib fuel fresh s))
  unfolding connected_of
  again-OnResolved lib laws fuel fresh s a =
      let runs : Io L = record s { stopped = false } in
      subst (λ r. OnResolved (connected_of r)) (sym (again-connected lib laws fuel fresh s a.has))
        (notify_connect-IsAccounted runs (record { has = a.has; all = a.all }))

  pub start_resolve-OnResolved :
      (lib : Nghttp2 L) (laws : IsLawful lib) (fuel : ℕ) (fresh : Option L) (net : Network)
      (s : Io L)
      → IsAccounted handed s
      → OnResolved (start_resolve lib fuel fresh net s)
  unfolding start_resolve
  start_resolve-OnResolved lib laws fuel fresh net s a =
      let (s1, failed) = start_connect net s in
      let a1 = start_connect-IsAccounted net s a in
      if_both OnResolved (not net.resolves) _ _ (stop-IsAccounted s a) (
        if_both OnResolved failed _ _ (stop-IsAccounted s1 a1)
          (again-OnResolved lib laws fuel fresh s1 a1))
