-- ===== src/Io/Account.antt =====
-- The bytes that nghttp2 hands out, against those that the socket is asked to write.
pub mod Loop
pub mod Parts
pub mod Reach
pub mod Tests
use xmlhttp_request.Prelude.{
  Bytes, List, Option, [], refl, true, ◌++◌, ◌∙◌, ◌≡◌, ap, append_assoc, sym,
}
use xmlhttp_request.Io.{Action, Io, Nghttp2, Sent, sent}
use xmlhttp_request.Io.Laws.{IsLawful, Same, buffered, owed, pending_bytes, wire}
use xmlhttp_request.Io.Calls.{Steady}
use xmlhttp_request.Io.Submit.{Library, Nv}

-- What one `nghttp2_session_mem_send` hands out.
abbrev pub given : Sent → Bytes
given (sent bytes) = bytes
given _ = []

-- A history of a session of nghttp2: `handed` are all the bytes that it has handed out.
pub record Counts {L : Type 0} (lib : Nghttp2 L) (requests : Library L) : Type 0 where
  pub handed : L → Bytes
  pub sends : (l : L) → handed (lib.mem_send l).0 ≡ handed l ++ given (lib.mem_send l).2
  pub receives : (l : L) (bytes : Bytes) → handed (lib.mem_recv l bytes).0 ≡ handed l
  pub pings : (l : L) → handed (lib.submit_ping_frame l) ≡ handed l
  pub asks :
      (l : L) (nva : List Nv) (body : Option Bytes)
      → handed (requests.submit_request l nva body).0 ≡ handed l

-- Every library with its history.
pub logged : {L : Type 0} → Nghttp2 L → Nghttp2 (L × Bytes)
logged lib = record {
  mem_send = λ l. let (l', calls, r) = lib.mem_send l.0 in ((l', l.1 ++ given r), calls, r);
  mem_recv = λ l bytes. let (l', calls, rv) = lib.mem_recv l.0 bytes in ((l', l.1), calls, rv);
  want_read = λ l. lib.want_read l.0;
  want_write = λ l. lib.want_write l.0;
  submit_ping_frame = λ l. (lib.submit_ping_frame l.0, l.1);
  submit_settings = λ l. (lib.submit_settings l.0, l.1);
}

pub logged_requests : {L : Type 0} → Library L → Library (L × Bytes)
logged_requests requests = record {
  parse_url = requests.parse_url;
  submit_request =
      λ l nva body. let (l', id) = requests.submit_request l.0 nva body in ((l', l.1), id);
}

pub logged-Counts :
    {L : Type 0} (lib : Nghttp2 L) (requests : Library L)
    → Counts (logged lib) (logged_requests requests)
unfolding logged logged_requests
logged-Counts lib requests = record {
  handed = λ l. l.1;
  sends = λ l. refl;
  receives = λ l bytes. refl;
  pings = λ l. refl;
  asks = λ l nva body. refl;
}

pub logged-IsLawful : {L : Type 0} (lib : Nghttp2 L) → IsLawful lib → IsLawful (logged lib)
unfolding logged
logged-IsLawful lib laws = record { todo = λ l. laws.todo l.0; served = λ l. laws.served l.0 }

module _ {L : Type 0} where
  -- All that left the session of nghttp2: given to the socket, in the buffer, and behind it.
  abbrev pub out : Io L → Bytes
  out s = wire s.log ++ (buffered s.writing s.wb_ ++ pending_bytes s.data_pending_)

  -- The session of nghttp2 is there, and what left it is all that it handed out.
  pub record IsAccounted (handed : L → Bytes) (s : Io L) : Type 0 where
    pub has : s.has_session ≡ true
    pub all : out s ≡ handed s.session

  pub owed-out : (todo : L → Bytes) (s : Io L) → owed todo s ≡ out s ++ todo s.session
  owed-out todo s =
      let b = buffered s.writing s.wb_ in
      let p = pending_bytes s.data_pending_ in
      ap (λ w. wire s.log ++ w) (sym (append_assoc b p (todo s.session)))
      ∙ sym (append_assoc (wire s.log) (b ++ p) (todo s.session))

  pub Same-IsAccounted :
      (handed : L → Bytes) {s t : Io L}
      → Same s t
      → Steady s t
      → IsAccounted handed s
      → IsAccounted handed t
  Same-IsAccounted handed {s} {t} same steady a = record {
    has = steady.had ∙ a.has;
    all = rw (same.sent, same.writing, same.wb, same.pending, same.session) a.all;
  }
