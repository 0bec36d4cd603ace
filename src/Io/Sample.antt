-- ===== src/Io/Sample.antt =====
-- A session of nghttp2 that has a number of frames of two bytes to send, answers what it receives with
-- one more, and hands it to the stream 1; and a connection with such a session.
use xmlhttp_request.Prelude.{
  Bytes, List, [], arith, false, inl, inr, length, none, pos, refl, suc, true, zero, ℕ, ◌∷◌,
}
use xmlhttp_request.Session.{Session}
use xmlhttp_request.Callbacks.Trace.{Call, data_chunk}
use xmlhttp_request.Io.{Nghttp2, Sent, sent, Io}
use xmlhttp_request.Io.Laws.{Served, IsLawful, InBounds}

abbrev pub frames : ℕ → Bytes
frames zero = []
frames (suc n) = 1 ∷ 2 ∷ frames n

abbrev pub send_frame : ℕ → ℕ × List Call × Sent
send_frame zero = (zero, [], sent [])
send_frame (suc n) = (n, [], sent (1 ∷ 2 ∷ []))

abbrev pub queue : Nghttp2 ℕ
queue = record {
  mem_send = send_frame;
  mem_recv = λ n bytes. (suc n, data_chunk 1 bytes ∷ [], pos (length bytes));
  want_read = λ n. true;
  want_write = λ n. false;
  submit_ping_frame = λ n. suc n;
  submit_settings = λ n. suc n;
}

pub queue-Served : (n : ℕ) → Served frames n (send_frame n).0 (send_frame n).2
queue-Served zero = (refl, omega arith, inr (refl, refl))
queue-Served (suc n) = (refl, omega arith, inl (omega arith))

abbrev pub queue-IsLawful : IsLawful queue
queue-IsLawful = record { todo = frames; served = queue-Served }

abbrev pub fresh : Session
fresh = record {
  streams = [];
  override_mime_type_ = [];
  has_state_callback = true;
  has_ready_callback = true;
  events = [];
}

abbrev pub connected : Io ℕ
connected = record {
  stopped = false;
  writing = false;
  ping_is_started = true;
  wb_ = [];
  data_pending_ = none;
  session = 3;
  has_session = true;
  app = fresh;
  has_start_callback = true;
  stops_on_ready = true;
  log = [];
}

pub connected-InBounds : InBounds connected
connected-InBounds = record {
  buffer_fits = omega arith;
  pending_fits = omega arith;
  copy_fits = inr (omega arith);
}
