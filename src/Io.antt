-- ===== src/Io.antt =====
-- source/abstractsession.cpp: the connection of `AbstractSession`: `stop`, `write`, `read`,
-- `shouldStop`, `onSocketConnected`, `submitPing`, `startPing` and the completion handlers of the
-- socket. What is asked of the socket and the timers is recorded, in order, in `log`, and with it the
-- handlers of `Callbacks` that nghttp2 calls while it sends and receives.
pub mod Calls
pub mod Laws
pub mod Loop
pub mod Write
pub mod Completion
pub mod Read
pub mod Ending
pub mod Account
pub mod Connect
pub mod Reach
pub mod Replay
pub mod Submit
pub mod Stop
pub mod Sample
pub mod Tests
use xmlhttp_request.Prelude.{
  Bool, Bytes, List, Option, [], false, if◌then◌else◌, length, ltb, negsuc, none, not, pos, some,
  suc, take, true, zero, ℕ, ℤ, ◌&&◌, ◌++◌, ◌+◌, ◌-◌, ◌==◌, ◌||◌, ◌∷◌,
}
use xmlhttp_request.Stream.{Stream, is_closed}
use xmlhttp_request.Session.{Session, find_in, find_stream}
use xmlhttp_request.Callbacks.Trace.{Call, stream_close, step}

-- The result of `nghttp2_session_mem_send`: NGHTTP2_ERR_NOMEM, another negative code -(k + 1), or
-- the number of bytes with the bytes.
pub data Sent : Type 0 where
  out_of_memory : Sent
  failed : ℕ → Sent
  sent : Bytes → Sent

-- What the session asks of nghttp2, on a session of nghttp2 of type `L`. With the result of sending
-- and receiving come the handlers that are called meanwhile.
pub record Nghttp2 (L : Type 0) : Type 0 where
  pub mem_send : L → L × List Call × Sent
  pub mem_recv : L → Bytes → L × List Call × ℤ
  pub want_read : L → Bool
  pub want_write : L → Bool
  pub submit_ping_frame : L → L
  pub submit_settings : L → L

pub data Action : Type 0 where
  cancel_ping shutdown_socket cancel_deadline set_no_delay read_socket wait_ping : Action
  connect_callback : Action
  write_socket : Bytes → Action
  called : Call → Action
  filed : ℕ → Action

-- `wb_` holds the first `wblen_` bytes of the array, the only ones that are read, so `wblen_` is its
-- length. `app` holds the streams and the callbacks of the application; `has_start_callback` tells
-- that `onStartCb` is set, and `stops_on_ready` that the ready callback stops the session.
pub record Io (L : Type 0) : Type 0 where
  pub stopped : Bool
  pub writing : Bool
  pub ping_is_started : Bool
  pub wb_ : Bytes
  pub data_pending_ : Option Bytes
  pub session : L
  pub has_session : Bool
  pub app : Session
  pub has_start_callback : Bool
  pub stops_on_ready : Bool
  pub log : List Action

-- 64_Kb.
abbrev pub wb_size : ℕ
wb_size = 65536

-- `iter != end && stream->state() == Closed` of the stream 0.
pub stream0_closed : Option Stream → Bool
stream0_closed none = false
stream0_closed (some strm) = is_closed strm.state

abbrev is_some : Option Stream → Bool
is_some none = false
is_some (some strm) = true

-- `rv != static_cast<ssize_t>(bytes_transferred)`.
abbrev pub is_length : ℤ → ℕ → Bool
is_length (pos n) len = n == len
is_length (negsuc n) len = false

-- The one handler that calls the ready callback, where there is one.
pub reports : Call → Session → Bool
reports (stream_close id) a = a.has_ready_callback && is_some (find_stream a id)
reports _ a = false

module _ {L : Type 0} where
  -- The call at the end of the code makes an empty `onStopCallback` object and calls nothing.
  unfoldable pub stop : Io L → Io L
  stop s = if s.stopped then s else record s {
    stopped = true;
    ping_is_started = false;
    log = s.log ++ cancel_ping ∷ shutdown_socket ∷ cancel_deadline ∷ [];
  }

  -- One handler that nghttp2 calls. The ready callback that XMLHttpRequest sets for a request that
  -- is not asynchronous stops the session.
  pub after_call : Call → Io L → Io L
  unfolding reports
  after_call c s =
      let s1 : Io L = record s { app = step s.app c; log = s.log ++ called c ∷ [] } in
      if s.stops_on_ready && reports c s.app then stop s1 else s1

  unfoldable pub apply_calls : List Call → Io L → Io L
  unfolding after_call
  apply_calls [] s = s
  apply_calls (c ∷ cs) s = apply_calls cs (after_call c s)

  -- The copy of what did not fit last time.
  pub copy_pending : Io L → Io L
  copy_pending s = elim s.data_pending_ [
    | none ↦ s
    | some bytes ↦ record s { wb_ = s.wb_ ++ bytes; data_pending_ = none }
  ]

  -- `for (ssize_t n = 0;;)`, with as many rounds as `fuel` allows: `false` is the `return` when
  -- there is no memory. A negative `n` that is larger than `wblen_` wraps around and leaves no
  -- pointer; a smaller one shortens the buffer.
  pub send_loop : Nghttp2 L → ℕ → Io L → Option (Io L × Bool)
  send_loop lib zero s = none
  send_loop lib (suc fuel) s =
      let (session', calls, r) = lib.mem_send s.session in
      let s1 : Io L = apply_calls calls (record s { session = session' }) in
      elim r [
        | out_of_memory ↦ some (stop s1, false)
        | failed k ↦
            let rest =
              send_loop lib fuel (record s1 { wb_ = take (length s1.wb_ - (k + 1)) s1.wb_ }) in
            if ltb (length s1.wb_) (k + 1)
            then some (record s1 { data_pending_ = none }, true)
            else rest
        | sent bytes ↦
            let rest = send_loop lib fuel (record s1 { wb_ = s1.wb_ ++ bytes }) in
            if length bytes == 0
            then some (s1, true)
            else if ltb wb_size (length s1.wb_ + length bytes)
            then some (record s1 { data_pending_ = some bytes }, true)
            else rest
      ]

  -- What stands behind the loop.
  pub start_write : Io L → Io L
  start_write s =
      if length s.wb_ == 0
      then s
      else record s { writing = true; log = s.log ++ write_socket s.wb_ ∷ [] }

  pub after_loop : Option (Io L × Bool) → Option (Io L)
  unfolding start_write
  after_loop none = none
  after_loop (some (s, false)) = some s
  after_loop (some (s, true)) = some (start_write s)

  unfoldable pub write : Nghttp2 L → ℕ → Io L → Option (Io L)
  unfolding send_loop copy_pending after_loop
  write lib fuel s =
      if s.stopped
      then some s
      else if s.writing
      then some s
      else after_loop (send_loop lib fuel (copy_pending s))

  -- The handler that `writeSocket` calls; it does not read the number of bytes that were written.
  pub on_written : Nghttp2 L → ℕ → Bool → Io L → Option (Io L)
  unfolding stream0_closed
  on_written lib fuel ec s =
      if ec
      then some (stop s)
      else if stream0_closed (find_in 0 s.app.streams)
      then some (stop s)
      else write lib fuel (record s { wb_ = []; writing = false })

  pub should_stop : Nghttp2 L → Io L → Bool
  should_stop lib s =
      not s.writing && not (lib.want_read s.session) && not (lib.want_write s.session)

  pub read : Io L → Io L
  read s = if s.stopped then s else record s { log = s.log ++ read_socket ∷ [] }

  pub after_read_write : Nghttp2 L → Option (Io L) → Option (Io L)
  unfolding read should_stop
  after_read_write lib none = none
  after_read_write lib (some s) = some (if should_stop lib s then stop s else read s)

  -- `readSocketPredicate(ec, bytes_transferred)`, with the bytes that are in the buffer.
  unfoldable pub on_read : Nghttp2 L → ℕ → Bool → Bytes → Io L → Option (Io L)
  unfolding after_read_write
  on_read lib fuel ec bytes s =
      let (session', calls, rv) = lib.mem_recv s.session bytes in
      let s1 : Io L = apply_calls calls (record s { session = session' }) in
      let rest = after_read_write lib (write lib fuel s1) in
      if length bytes == 0
      then some s
      else if ec
      then some (stop s)
      else if is_length rv (length bytes)
      then rest
      else some (stop s1)

  pub submit_ping : Nghttp2 L → Bool → Io L → Io L
  submit_ping lib aborted s =
      if s.stopped || aborted then s else record s { session = lib.submit_ping_frame s.session }

  pub start_ping : Io L → Io L
  start_ping s = record s { ping_is_started = true; log = s.log ++ wait_ping ∷ [] }

  pub start_ping_of : Option (Io L) → Option (Io L)
  unfolding start_ping
  start_ping_of none = none
  start_ping_of (some s) = some (start_ping s)

  -- The handler of the ping timer.
  pub on_ping : Nghttp2 L → ℕ → Bool → Io L → Option (Io L)
  unfolding submit_ping start_ping_of
  on_ping lib fuel aborted s = start_ping_of (write lib fuel (submit_ping lib aborted s))

  pub read_of : Option (Io L) → Option (Io L)
  unfolding read
  read_of none = none
  read_of (some s) = some (read s)

  -- `onSocketConnected`: `setupSession` fails where there is a session; `fresh` is what
  -- `nghttp2_session_client_new` gives, if it does.
  unfoldable pub on_socket_connected : Nghttp2 L → ℕ → Option L → Io L → Option (Io L)
  unfolding read_of start_ping_of
  on_socket_connected lib fuel fresh s =
      let s1 : Io L = record s { stopped = false } in
      if s.has_session then some s1 else elim fresh [
        | none ↦ some s1
        | some session' ↦
            let s2 : Io L = record s1 {
              session = lib.submit_settings session';
              has_session = true;
              log = s1.log ++ set_no_delay ∷ [];
            } in
            start_ping_of (read_of (write lib fuel s2))
      ]
