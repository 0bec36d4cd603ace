-- ===== src/Io/Laws.antt =====
-- What the session relies on of nghttp2, the bounds of the write buffer, and the order of the bytes.
use xmlhttp_request.Prelude.{
  Bool, Bytes, List, Option, [], ap, append_assoc, false, length, none, refl, some, sym, true, ◌++◌,
  ◌+◌, ◌<◌, ◌∙◌, ◌∷◌, ◌≡◌, ◌≤◌, ◌⊎◌, append-nil,
}
use xmlhttp_request.Io.{
  Sent, out_of_memory, failed, sent, Nghttp2, Action, write_socket, Io, wb_size,
}

-- `nghttp2_session_mem_send` in terms of the bytes that a session has to send: it hands out the next
-- ones, at most a frame, and none only where there are no more; its one documented error is
-- NGHTTP2_ERR_NOMEM, which hands out nothing.
abbrev pub Served : {L : Type 0} → (L → Bytes) → L → L → Sent → Type 0
Served todo l l' out_of_memory = todo l ≡ todo l'
Served todo l l' (failed k) = ⊥
Served todo l l' (sent bytes) =
    (todo l ≡ bytes ++ todo l')
    × (length bytes ≤ wb_size)
    × ((0 < length bytes) ⊎ ((bytes ≡ []) × (todo l' ≡ [])))

pub record IsLawful {L : Type 0} (lib : Nghttp2 L) : Type 0 where
  pub todo : L → Bytes
  pub served : (l : L) → Served todo l (lib.mem_send l).0 (lib.mem_send l).2

-- The bytes that wait behind the buffer.
abbrev pub pending_bytes : Option Bytes → Bytes
pending_bytes none = []
pending_bytes (some bytes) = bytes

-- The buffer and what waits behind it are within the size, and both together where the copy of
-- what waits may come next.
pub record InBounds {L : Type 0} (s : Io L) : Type 0 where
  pub buffer_fits : length s.wb_ ≤ wb_size
  pub pending_fits : length (pending_bytes s.data_pending_) ≤ wb_size
  pub copy_fits :
      (s.writing ≡ true) ⊎ (length s.wb_ + length (pending_bytes s.data_pending_) ≤ wb_size)

-- The bytes that the socket was asked to write, in order.
abbrev pub wire : List Action → Bytes
wire [] = []
wire (write_socket bytes ∷ log) = bytes ++ wire log
wire (_ ∷ log) = wire log

-- What the buffer still has to give to the socket.
abbrev pub buffered : Bool → Bytes → Bytes
buffered true bytes = []
buffered false bytes = bytes

-- All bytes of the connection: given to the socket, in the buffer, behind it, and in the session.
abbrev pub owed : {L : Type 0} → (L → Bytes) → Io L → Bytes
owed todo s =
    wire s.log ++ (buffered s.writing s.wb_ ++ (pending_bytes s.data_pending_ ++ todo s.session))

-- Nothing is left behind: the session is stopped, a write is running, or there is nothing to write.
abbrev pub IsServed : {L : Type 0} → (L → Bytes) → Io L → Type 0
IsServed todo s =
    (s.stopped ≡ true)
    ⊎ ((s.writing ≡ true)
        ⊎ ((s.wb_ ≡ []) × (pending_bytes s.data_pending_ ≡ []) × (todo s.session ≡ [])))

pub wire-append : (xs ys : List Action) → wire (xs ++ ys) ≡ wire xs ++ wire ys
wire-append [] ys = refl
wire-append (write_socket bytes ∷ xs) ys =
    ap (λ r. bytes ++ r) (wire-append xs ys) ∙ sym (append_assoc bytes (wire xs) (wire ys))
wire-append (_ ∷ xs) ys = wire-append xs ys

-- The same buffers, the same session of nghttp2, and nothing more for the socket.
pub record Same {L : Type 0} (s s' : Io L) : Type 0 where
  pub wb : s'.wb_ ≡ s.wb_
  pub pending : s'.data_pending_ ≡ s.data_pending_
  pub session : s'.session ≡ s.session
  pub writing : s'.writing ≡ s.writing
  pub sent : wire s'.log ≡ wire s.log

module _ {L : Type 0} where
  pub Same-refl : (s : Io L) → Same s s
  Same-refl s = record { wb = refl; pending = refl; session = refl; writing = refl; sent = refl }

  pub Same-trans : {s t u : Io L} → Same s t → Same t u → Same s u
  Same-trans a b = record {
    wb = b.wb ∙ a.wb;
    pending = b.pending ∙ a.pending;
    session = b.session ∙ a.session;
    writing = b.writing ∙ a.writing;
    sent = b.sent ∙ a.sent;
  }

  -- Actions that write nothing.
  pub log-Same :
      (s : Io L) (new : List Action) → wire new ≡ [] → Same s (record s { log = s.log ++ new })
  log-Same s new e = record {
    wb = refl;
    pending = refl;
    session = refl;
    writing = refl;
    sent = wire-append s.log new ∙ ap (λ w. wire s.log ++ w) e ∙ append-nil (wire s.log);
  }

  pub Same-InBounds : {s s' : Io L} → Same s s' → InBounds s → InBounds s'
  Same-InBounds same b = record {
    buffer_fits = rw same.wb b.buffer_fits;
    pending_fits = rw same.pending b.pending_fits;
    copy_fits = rw (same.writing, same.wb, same.pending) b.copy_fits;
  }

  pub Same-owed : (todo : L → Bytes) {s s' : Io L} → Same s s' → owed todo s' ≡ owed todo s
  Same-owed todo same = rw (same.sent, same.writing, same.wb, same.pending, same.session) refl
