-- ===== src/Xhr/Send/Answer/Tests.antt =====
-- A request that is sent, and answered at once.
use xmlhttp_request.Prelude.{
  refl, ℕ, ◌≡◌, List, Option, [], arith, codes, false, none, some, ◌++◌, ◌∷◌,
}
use xmlhttp_request.Io.{Io, on_read, on_socket_connected, write, apply_calls}
use xmlhttp_request.Io.Connect.{start_resolve}
use xmlhttp_request.Io.Submit.{submit}
use xmlhttp_request.Tls.Alpn.{tls_h2_negotiated}
use xmlhttp_request.Tls.Method.{method_from_string}
use xmlhttp_request.Xhr.Send.{service_stopped}
use xmlhttp_request.Xhr.Uri.{fetch_uri}
use xmlhttp_request.Io.Replay.Sample.{ender}
use xmlhttp_request.Xhr.Send.{
  Client, World, Outcome, went, waits_for_ever, starved, send_with_callback,
}
use xmlhttp_request.Session.{Event, set_on_ready_callback, find_stream, notify_state, update_stream}
use xmlhttp_request.Session.Streams.{IsValid}
use xmlhttp_request.Callbacks.Receive.{on_data_chunk_recv}
use xmlhttp_request.Callbacks.Trace.{data_chunk, step, stream_close}
use xmlhttp_request.Callbacks.Trace.Events.{data_of, chunks_for}
use xmlhttp_request.Message.Response.{empty_response}
use xmlhttp_request.Io.{Action, called, cancel_deadline, cancel_ping, shutdown_socket, stop}
use xmlhttp_request.Io.Reach.{Reach, here, next, received}
use xmlhttp_request.Io.Replay.Sample.{ender-IsLawful}
use xmlhttp_request.Io.Replay.Streams.{calls_of}
use xmlhttp_request.Xhr.Watch.{HasResponse, note_all}
use xmlhttp_request.Xhr.Send.Answer.{send_with_callback-answer}
use xmlhttp_request.Xhr.Send.Tests.{client, world}

abbrev ending : World ℕ
ending = record world { lib = ender }

abbrev client_of : Outcome ℕ → Client ℕ
client_of (went c) = c
client_of waits_for_ever = client
client_of starved = client

abbrev out : Client ℕ
out = client_of (send_with_callback ending client)

sent_out : send_with_callback ending client ≡ went out
unfolding send_with_callback method_from_string service_stopped start_resolve tls_h2_negotiated
    on_socket_connected write submit apply_calls fetch_uri
sent_out = refl

abbrev state_of : Option (Io ℕ) → Io ℕ
state_of none = client.io
state_of (some s) = s

-- The state behind the answer.
abbrev answered : Io ℕ
answered = state_of (on_read ender 9 false (codes "bc") out.io)

abbrev before_end : List Action
before_end = called (data_chunk 1 (codes "bc")) ∷ []

abbrev after_end : List Action
after_end = cancel_ping ∷ shutdown_socket ∷ cancel_deadline ∷ []

on_read-answered : on_read ender 9 false (codes "bc") out.io ≡ some answered
unfolding send_with_callback method_from_string service_stopped start_resolve tls_h2_negotiated
    on_socket_connected write submit apply_calls fetch_uri on_read step on_data_chunk_recv
    find_stream notify_state set_on_ready_callback update_stream stop
on_read-answered = refl

answered-Reach : Reach ender ending.requests ender-IsLawful out.io answered
unfolding send_with_callback method_from_string service_stopped start_resolve tls_h2_negotiated
    on_socket_connected write submit apply_calls fetch_uri on_read step on_data_chunk_recv
    find_stream notify_state set_on_ready_callback update_stream stop
answered-Reach = next here (received 9 false (codes "bc") (omega arith) on_read-answered)

log-answered : answered.log ≡ out.io.log ++ (before_end ++ called (stream_close 1) ∷ after_end)
unfolding send_with_callback method_from_string service_stopped start_resolve tls_h2_negotiated
    on_socket_connected write submit apply_calls fetch_uri on_read step on_data_chunk_recv
    find_stream notify_state set_on_ready_callback update_stream stop
log-answered = refl

nothing_yet : data_of (find_stream out.io.app 1) ≡ some []
unfolding send_with_callback method_from_string service_stopped start_resolve tls_h2_negotiated
    on_socket_connected write submit apply_calls fetch_uri find_stream set_on_ready_callback
    empty_response
nothing_yet = refl

client-IsValid : IsValid client.io.app.streams
client-IsValid = record { distinct = tt; filed = tt }

send_with_callback-answer_example :
    (since : List Event) × (answered.app.events ≡ out.io.app.events ++ since)
    × HasResponse ([] ++ chunks_for 1 (calls_of before_end)) (note_all since out.xhr)
send_with_callback-answer_example =
    send_with_callback-answer ending ender-IsLawful client out answered before_end after_end 1 []
      refl client-IsValid refl sent_out answered-Reach log-answered (refl, tt) tt nothing_yet
