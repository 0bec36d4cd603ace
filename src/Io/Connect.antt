-- ===== src/Io/Connect.antt =====
-- source/abstractsession.cpp: `startResolve`, `goAway` and the handler of the read timer;
-- source/httptlssession.cpp: `startConnect` and `startResolve`. What the resolver, the connection and
-- the handshake come to is a parameter.
pub mod Mild
pub mod Laws
pub mod Bounds
pub mod Follows
pub mod Tests
use xmlhttp_request.Prelude.{
  Bool, Bytes, Option, [], false, if◌then◌else◌, none, not, some, true, ℕ, ◌++◌, ◌∷◌,
}
use xmlhttp_request.Session.{Streams}
use xmlhttp_request.Tls.Alpn.{tls_h2_negotiated}
use xmlhttp_request.Io.{find_stream, Io, Nghttp2, connect_callback, on_socket_connected, stop}

-- Which of the calls succeed, and the protocol that both sides agreed on, by NPN or by ALPN.
pub record Network : Type 0 where
  pub resolves : Bool
  pub connects : Bool
  pub shakes_hands : Bool
  pub next_proto : Option Bytes
  pub alpn : Option Bytes

module _ {L : Type 0} where
  -- `HttpTlsSession::startConnect`, with whether `ec` has failed: another protocol than HTTP/2 is no
  -- failure.
  unfoldable pub start_connect : Network → Io L → Io L × Bool
  start_connect net s =
      if not s.stopped
      then (s, false)
      else if not net.connects
      then (s, true)
      else if not net.shakes_hands
      then (stop s, true)
      else if not (tls_h2_negotiated net.next_proto net.alpn)
      then (s, false)
      else (s, false)

  -- `if (auto cb = getOnConnectCallback(); cb) cb();`.
  unfoldable pub notify_connect : Io L → Io L
  notify_connect s =
      if s.has_start_callback then record s { log = s.log ++ connect_callback ∷ [] } else s

  unfoldable pub connected_of : Option (Io L) → Option (Io L × Bool)
  unfolding notify_connect
  connected_of none = none
  connected_of (some s) = some (notify_connect s, false)

  -- `AbstractSession::startResolve`, with whether `ec` has failed.
  unfoldable pub start_resolve : Nghttp2 L → ℕ → Option L → Network → Io L → Option (Io L × Bool)
  unfolding start_connect connected_of
  start_resolve lib fuel fresh net s =
      let (s1, failed) = start_connect net s in
      if not net.resolves
      then some (stop s, true)
      else if failed
      then some (stop s1, true)
      else connected_of (on_socket_connected lib fuel fresh s1)

  -- `HttpTlsSession::startResolve`.
  pub tls_start_resolve : Nghttp2 L → ℕ → Option L → Network → Io L → Option (Io L × Bool)
  tls_start_resolve lib fuel fresh net s = elim (start_resolve lib fuel fresh net s) [
    | none ↦ none
    | some (s', failed) ↦ some (s', not failed)
  ]

  -- `goAway()`, with `nghttp2_submit_goaway` on a session and the id of a stream.
  go_away_each : (L → ℕ → L) → Streams → L → L
  go_away_each submit_goaway [] l = l
  go_away_each submit_goaway ((k, strm) ∷ m) l =
      go_away_each submit_goaway m (submit_goaway l strm.stream_id_)

  pub go_away : (L → ℕ → L) → Io L → Io L
  unfolding go_away_each
  go_away submit_goaway s = record s {
    session = go_away_each submit_goaway s.app.streams s.session;
  }

  -- `goAway(streamId)`.
  pub go_away_stream : (L → ℕ → L) → ℕ → Io L → Io L
  go_away_stream submit_goaway id s = elim (find_stream s.app id) [
    | none ↦ s
    | some strm ↦ record s { session = submit_goaway s.session id }
  ]

  -- The handler of `startReadTimer`.
  pub read_timed_out : Io L → Io L
  read_timed_out s = record s { stopped = true }
