-- ===== src/Xhr/Send/Tests.antt =====
-- A client of https://a.org:443/ on the sample session of nghttp2.
use xmlhttp_request.Prelude.{
  [], arith, codes, false, none, pos, refl, some, suc, true, ℕ, ◌*◌, ◌+◌, ◌∷◌, ◌≡◌, str_eq,
}
use xmlhttp_request.Session.{ReadyState}
use xmlhttp_request.Io.{Io}
use xmlhttp_request.Io.Submit.{Library, Url}
use xmlhttp_request.Io.Sample.{connected, queue, queue-IsLawful}
use xmlhttp_request.Tls.Method.{Method, method_from_string, to_upper}
use xmlhttp_request.Xhr.Uri.{Regex, proccess_uri}
use xmlhttp_request.Xhr.Send.Opened.{get_order, open_client-send}
use xmlhttp_request.Xhr.{Xhr}
use xmlhttp_request.Xhr.Send.{
  open_client, send, Client, World, connects, fetches, order_of, send_get, has_work,
  service_stopped, waits_for_ever, went,
}
use xmlhttp_request.Xhr.Send.Laws.{Accepts, IsSendable}
use xmlhttp_request.Xhr.Send.Delivery.{SentOrStopped, posted}
use xmlhttp_request.Xhr.Send.Again.{send_get-unreachable, send_get-waits}

abbrev parsed : Url
parsed = record {
  schema = some (0, 5);
  host = some (8, 5);
  path = some (17, 1);
  query = none;
  port = some 443;
}

abbrev counter : Library ℕ
counter = record {
  parse_url = λ url. some parsed;
  submit_request = λ n nva body. (suc n, pos (2 * n + 1));
}

abbrev pub world : World ℕ
world = record {
  lib = queue;
  requests = counter;
  fuel = 9;
  fresh = some 0;
  net = record {
    resolves = true;
    connects = true;
    shakes_hands = true;
    next_proto = none;
    alpn = some (codes "h2");
  };
  held = false;
}

abbrev opened : Xhr
opened = record {
  has_session = true;
  has_state_callback = true;
  is_async = false;
  elements = record {
    addr = codes "a.org";
    port = codes "443";
    protocol = codes "https";
    urn = codes "/";
  };
  method = codes "GET";
  header_ = [];
  response = none;
  ready_state = ReadyState.opened;
  timeout = 0;
  has_timer = false;
}

abbrev idle : Io ℕ
idle = record connected {
  stopped = true;
  ping_is_started = false;
  has_session = false;
  session = 0;
}

abbrev pub client : Client ℕ
client = record {
  xhr = opened;
  io = idle;
  has_service = true;
  aborted = false;
  ran_out = false;
  has_future = false;
  has_timer_callback = false;
  body = [];
  jobs = [];
}

client-IsSendable : IsSendable client
client-IsSendable = record {
  service = refl;
  session = refl;
  known = unfold method_from_string in refl;
}

abbrev get_accepted : Accepts counter (order_of client none)
get_accepted = record {
  parts = parsed;
  parsed = refl;
  complete = refl;
  id = λ n. 2 * n + 1;
  given = λ n. refl;
}

abbrev post_accepted : Accepts counter (order_of client (some (codes "x=1")))
post_accepted = record {
  parts = parsed;
  parsed = refl;
  complete = refl;
  id = λ n. 2 * n + 1;
  given = λ n. refl;
}

-- The network is gone.
abbrev nowhere : World ℕ
nowhere = record world { net = record world.net { resolves = false } }

send_get-unreachable_example :
    (c' : Client ℕ) × (send_get nowhere client ≡ went c')
    × (c'.io ≡ client.io)
    × (c'.xhr.ready_state ≡ client.xhr.ready_state)
    × ((w' : World ℕ)
        → send_get w' c' ≡ went (record (posted c') { jobs = connects ∷ fetches ∷ [] }))
send_get-unreachable_example =
    send_get-unreachable nowhere client client-IsSendable refl refl (unfold service_stopped in refl)
      (unfold has_work in refl) refl

-- The session runs, and all that there was to send is written.
abbrev resting : Client ℕ
resting = record client { io = connected }

resting-Accepts : Accepts counter (order_of resting none)
resting-Accepts = record {
  parts = parsed;
  parsed = refl;
  complete = refl;
  id = λ n. 2 * n + 1;
  given = λ n. refl;
}

send_get-waits_example : send_get world resting ≡ waits_for_ever
send_get-waits_example =
    send_get-waits world resting
      (record { service = refl; session = refl; known = client-IsSendable.known }) resting-Accepts
      (unfold service_stopped in refl) refl refl refl refl

abbrev regex : Regex
regex = record {
  search = λ uri. some (codes "https", codes "a.org", codes "/");
  check_host_port = λ s. false;
}

abbrev new_client : Client ℕ
new_client = record client {
  xhr = record opened {
    has_session = false;
    has_state_callback = false;
    ready_state = ReadyState.unsent;
  };
  has_service = false;
}

abbrev opened_client : Client ℕ
opened_client = open_client 0 [] regex true (codes "get") (codes "https://a.org/") false new_client

new_client-parts : proccess_uri regex (codes "https://a.org/") ≡ some opened.elements
unfolding proccess_uri str_eq
new_client-parts = refl

get_known : method_from_string (to_upper (codes "get")) ≡ Method.get
unfolding method_from_string to_upper
get_known = refl

abbrev opened_accepted : Accepts counter (get_order opened.elements new_client)
opened_accepted = record {
  parts = parsed;
  parsed = refl;
  complete = refl;
  id = λ n. 2 * n + 1;
  given = λ n. refl;
}

open_client-send_example :
    SentOrStopped world queue-IsLawful 0 opened_client.io
      (get_order opened.elements new_client)
      opened_accepted
      (send world opened_client)
open_client-send_example =
    open_client-send world queue-IsLawful 0 0 regex (codes "get") (codes "https://a.org/") false
      new_client opened_client opened.elements opened_accepted
      (record { unsent = refl; without = refl; no_timer = refl }) new_client-parts get_known refl
      refl refl (omega arith) (λ e. cc)
