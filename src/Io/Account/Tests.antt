-- ===== src/Io/Account/Tests.antt =====
-- The sample session with its history, which hands out three frames.
use xmlhttp_request.Prelude.{Bytes, [], arith, false, inr, none, refl, some, true, ℕ, ◌∷◌, ◌≡◌}
use xmlhttp_request.Io.{Io, write, write_socket, send_loop, start_write, apply_calls}
use xmlhttp_request.Io.Laws.{InBounds}
use xmlhttp_request.Io.Sample.{frames, fresh, queue, queue-IsLawful}
use xmlhttp_request.Io.Replay.Sample.{no_requests}
use xmlhttp_request.Io.Reach.{Reach, asked, here, next}
use xmlhttp_request.Io.Account.{logged, logged_requests, logged-IsLawful, out}
use xmlhttp_request.Io.Account.Reach.{Reach-handed}

abbrev begun : Io (ℕ × Bytes)
begun = record {
  stopped = false;
  writing = false;
  ping_is_started = true;
  wb_ = [];
  data_pending_ = none;
  session = (3, []);
  has_session = true;
  app = fresh;
  has_start_callback = true;
  stops_on_ready = true;
  log = [];
}

abbrev on_its_way : Io (ℕ × Bytes)
on_its_way = record begun {
  writing = true;
  wb_ = frames 3;
  session = (0, frames 3);
  log = write_socket (frames 3) ∷ [];
}

begun-InBounds : InBounds begun
begun-InBounds = record {
  buffer_fits = omega arith;
  pending_fits = omega arith;
  copy_fits = inr (omega arith);
}

write-on_its_way : write (logged queue) 9 begun ≡ some on_its_way
unfolding write send_loop start_write apply_calls logged
write-on_its_way = refl

on_its_way-Reach :
    Reach
      (logged queue)
      (logged_requests no_requests)
      (logged-IsLawful queue queue-IsLawful)
      begun
      on_its_way
unfolding logged-IsLawful
on_its_way-Reach = next here (asked 9 (omega arith) write-on_its_way)

Reach-handed_example : out on_its_way ≡ on_its_way.session.1
Reach-handed_example =
    Reach-handed queue no_requests queue-IsLawful begun on_its_way begun-InBounds refl refl
      on_its_way-Reach
