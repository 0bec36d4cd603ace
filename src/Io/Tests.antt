-- ===== src/Io/Tests.antt =====
-- Calls on the sample connection.
use xmlhttp_request.Prelude.{[], arith, codes, false, inl, none, pos, refl, some, true, ℕ, ◌∷◌, ◌≡◌}
use xmlhttp_request.Io.{
  apply_calls, start_write, send_loop, write_socket, Io, stop, write, on_written, on_read,
}
use xmlhttp_request.Io.Laws.{InBounds}
use xmlhttp_request.Io.Reach.{Reach, here, next, asked, stopped, Reach-InBounds}
use xmlhttp_request.Io.Completion.{on_written_lem}
use xmlhttp_request.Io.Write.{Writes, write_lem}
use xmlhttp_request.Io.Read.{Reads, on_read_lem}
use xmlhttp_request.Io.Submit.{Library}
use xmlhttp_request.Session.{find_stream}
use xmlhttp_request.Callbacks.Trace.{data_chunk}
use xmlhttp_request.Io.Ending.{IsEnded, on_read-IsEnded}
use xmlhttp_request.Io.Replay.Sample.{ender, waiting, waiting-IsValid}
use xmlhttp_request.Io.Sample.{queue, queue-IsLawful, connected, connected-InBounds}

-- A session that takes no requests.
abbrev counter : Library ℕ
counter = record { parse_url = λ url. none; submit_request = λ n nva body. (n, pos 1) }

abbrev busy : Io ℕ
busy = record connected { writing = true; wb_ = 1 ∷ 2 ∷ [] }

busy-InBounds : InBounds busy
busy-InBounds = record {
  buffer_fits = omega arith;
  pending_fits = omega arith;
  copy_fits = inl refl;
}

write_lem_example : Writes queue queue-IsLawful (write queue 9 connected) connected
write_lem_example = write_lem queue queue-IsLawful 9 connected connected-InBounds (omega arith)

on_written_lem_example : Writes queue queue-IsLawful (on_written queue 9 false busy) busy
on_written_lem_example =
    on_written_lem queue queue-IsLawful 9 false busy busy-InBounds refl (omega arith)

on_read_lem_example : Reads queue queue-IsLawful (on_read queue 9 false (codes "ab") connected)
on_read_lem_example =
    on_read_lem queue queue-IsLawful 9 false b'a' (codes "b") connected connected-InBounds
      (omega arith)

-- Nothing is read and the session is not stopped where no bytes came in, even after an error.
on_read-empty : on_read queue 9 true [] connected ≡ some connected
unfolding on_read
on_read-empty = refl

-- The three frames on their way.
abbrev sending : Io ℕ
sending = record connected {
  writing = true;
  wb_ = 1 ∷ 2 ∷ 1 ∷ 2 ∷ 1 ∷ 2 ∷ [];
  session = 0;
  log = write_socket (1 ∷ 2 ∷ 1 ∷ 2 ∷ 1 ∷ 2 ∷ []) ∷ [];
}

write-sending : write queue 9 connected ≡ some sending
unfolding write send_loop start_write apply_calls
write-sending = refl

sending-Reach : Reach queue counter queue-IsLawful connected (stop sending)
sending-Reach = next (next here (asked 9 (omega arith) write-sending)) (stopped refl)

Reach-InBounds_example : InBounds (stop sending)
Reach-InBounds_example =
    Reach-InBounds queue counter queue-IsLawful connected (stop sending) connected-InBounds
      sending-Reach

on_read-IsEnded_example :
    (s' : Io ℕ) × (on_read ender 9 false (codes "bc") waiting ≡ some s') × IsEnded s'
on_read-IsEnded_example =
    on_read-IsEnded ender 9 b'b' (codes "c") waiting (data_chunk 1 (codes "bc") ∷ []) [] 1
      (codes "a" ∷ []) waiting-IsValid refl refl refl refl (refl, tt) (unfold find_stream in refl)
