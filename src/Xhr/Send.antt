-- ===== src/Xhr/Send.antt =====
-- source/xmlhttprequest.cpp: `send`, `sendGet`, `sendPost`, `connect`, `fetch`, `fetchWithBody`, `abort`
-- and the timer; source/xmlhttprequest_impl.cpp: `fetch`; source/httptlssession.cpp: the overloads of
-- `submit`. The service runs the jobs that are posted in their order, before what the socket brings,
-- which is in `Io.Reach`.
pub mod Laws
pub mod Delivery
pub mod First
pub mod Again
pub mod Opened
pub mod Follows
pub mod Answer
pub mod Tests
use xmlhttp_request.Prelude.{
  Bool, Bytes, List, Option, [], false, if◌then◌else◌, negsuc, none, not, pos, some, true, ℕ, ◌&&◌,
  ◌++◌, ◌||◌, ◌∷◌,
}
use xmlhttp_request.Session.{set_on_ready_callback}
use xmlhttp_request.Tls.Method.{Method, method_from_string, string_from_enum}
use xmlhttp_request.Io.{Action, Io, Nghttp2, shutdown_socket, stop}
use xmlhttp_request.Io.Connect.{Network, start_resolve}
use xmlhttp_request.Io.Submit.{Library, Order, Submitted, ErrorCode, returned, blocked, submit}
use xmlhttp_request.Xhr.{Xhr, is_opened, open_request, prepare}
use xmlhttp_request.Xhr.Uri.{Regex, fetch_uri, is_empty}

-- What is posted to the service.
pub data Job : Type 0 where
  connects fetches fetches_with_body : Job

-- `XMLHttpRequest::Impl` with its session; `io` is the session where `xhr.has_session` says that it
-- is there. `aborted` tells that `abort` stopped the service, and `ran_out` that `run` ended since no
-- work was left, which stops the service as well; nothing resets it.
pub record Client (L : Type 0) : Type 0 where
  pub xhr : Xhr
  pub io : Io L
  pub has_service : Bool
  pub aborted : Bool
  pub ran_out : Bool
  pub has_future : Bool
  pub has_timer_callback : Bool
  pub body : Bytes
  pub jobs : List Job

-- The library, what the network does, and whether another thread holds `insideCb`.
pub record World (L : Type 0) : Type 0 where
  pub lib : Nghttp2 L
  pub requests : Library L
  pub fuel : ℕ
  pub fresh : Option L
  pub net : Network
  pub held : Bool

-- The end of a call: it returns, it waits for ever, or the fuel was too little.
pub data Outcome (L : Type 0) : Type 0 where
  went : Client L → Outcome L
  waits_for_ever : Outcome L
  starved : Outcome L

-- `shutdownSocket` stops the service.
pub shuts_down : List Action → Bool
shuts_down [] = false
shuts_down (shutdown_socket ∷ log) = true
shuts_down (_ ∷ log) = shuts_down log

abbrev pub is_unknown : Method → Bool
is_unknown Method.unknown = true
is_unknown _ = false

module _ {L : Type 0} where
  pub service_stopped : Client L → Bool
  unfolding shuts_down
  service_stopped c = (c.aborted || c.ran_out) || shuts_down c.io.log

  -- What keeps the service running without jobs: the timer of the ping, which a session starts with
  -- its first connection and starts again whenever it ends, a write, and the timer of the request.
  pub has_work : Client L → Bool
  has_work c = c.io.ping_is_started || (c.io.writing || c.xhr.has_timer)

  -- A session that `setupSession` makes; nothing reads `none_yet`. The constructor sets no `wblen_`, so
  -- that `wb_` is as many bytes of the buffer as the number says that stands there.
  pub new_io : L → Bytes → Bool → Io L
  new_io none_yet wb_ has_state_callback = record {
    stopped = true;
    writing = false;
    ping_is_started = false;
    wb_ = wb_;
    data_pending_ = none;
    session = none_yet;
    has_session = false;
    app = record {
      streams = [];
      override_mime_type_ = [];
      has_state_callback = has_state_callback;
      has_ready_callback = false;
      events = [];
    };
    has_start_callback = false;
    stops_on_ready = false;
    log = [];
  }

  -- `open(method, uri, async)`: where there is no session, `setupSession` makes a new service, and a
  -- session if `made`.
  pub open_client : L → Bytes → Regex → Bool → Bytes → Bytes → Bool → Client L → Client L
  unfolding new_io
  open_client none_yet wb_ regex made method uri async c =
      let (x, ok) = prepare regex method uri async c.xhr in
      let attempts = ok && (not (is_opened x.ready_state) && not x.has_session) in
      let x' = open_request regex made method uri async c.xhr in
      record c {
        xhr = x';
        has_service = c.has_service || attempts;
        io = if attempts && made then new_io none_yet wb_ x'.has_state_callback else c.io;
        aborted = if attempts then false else c.aborted;
        ran_out = if attempts then false else c.ran_out;
        jobs = if attempts then [] else c.jobs;
      }

  -- `connect`.
  connected_client : Client L → Option (Io L × Bool) → Outcome L
  connected_client c none = starved
  connected_client c (some (s, failed)) = went (record c { io = s })

  pub connect : World L → Client L → Outcome L
  unfolding connected_client
  connect w c =
      if c.io.stopped
      then connected_client c (start_resolve w.lib w.fuel w.fresh w.net c.io)
      else went c

  -- `id < 0` stops the session.
  pub fetched : Client L → Submitted L → Outcome L
  fetched c blocked = waits_for_ever
  fetched c (returned s ec (pos id)) = went (record c { io = s })
  fetched c (returned s ec (negsuc k)) = went (record c { io = stop s })

  -- What `Impl::fetch` asks for: the method in its own spelling, and the address.
  pub order_of : Client L → Option Bytes → Order
  order_of c body = record {
    url = fetch_uri c.xhr.elements;
    method = string_from_enum (method_from_string c.xhr.method);
    header_ = c.xhr.header_;
    body = body;
  }

  -- `Impl::fetch(method, uri)` and `Impl::fetch(method, uri, body)`; -1 stops the session.
  pub impl_fetch : World L → Option Bytes → Client L → Outcome L
  unfolding fetched order_of
  impl_fetch w body c =
      if is_empty (fetch_uri c.xhr.elements)
        || (not c.xhr.has_session || is_unknown (method_from_string c.xhr.method))
      then went (record c { io = stop c.io })
      else fetched c (submit w.requests w.held (order_of c body) c.io)

  pub fetch : World L → Client L → Outcome L
  unfolding impl_fetch
  fetch w c = if c.io.stopped then went c else impl_fetch w none c

  pub fetch_with_body : World L → Client L → Outcome L
  unfolding impl_fetch
  fetch_with_body w c = impl_fetch w (some c.body) c

  pub do_job : World L → Job → Client L → Outcome L
  unfolding connect fetch fetch_with_body
  do_job w connects c = connect w c
  do_job w fetches c = fetch w c
  do_job w fetches_with_body c = fetch_with_body w c

  -- The client when no job is left.
  pub finished : Client L → Client L
  unfolding has_work
  finished c = record c { jobs = []; ran_out = c.ran_out || not (has_work c) }

  -- `service->run()`, up to the first job that waits, or until the service is stopped, which it is
  -- too when its work is done.
  pub run_jobs : World L → List Job → Client L → Outcome L
  unfolding do_job finished
  run_jobs w [] c = went (finished c)
  run_jobs w (j ∷ js) c = elim (service_stopped c) [
    | true ↦ went (record c { jobs = j ∷ js })
    | false ↦ elim (do_job w j c) [
      | went c' ↦ run_jobs w js c'
      | waits_for_ever ↦ waits_for_ever
      | starved ↦ starved
    ]
  ]

  -- The jobs are posted, and the service runs, on a thread of its own if the request is asynchronous.
  pub post_jobs : World L → Job → Client L → Outcome L
  unfolding run_jobs
  post_jobs w j c = run_jobs w (c.jobs ++ connects ∷ j ∷ []) (record c {
    xhr = record c.xhr { response = none };
    has_future = c.has_future || c.xhr.is_async;
  })

  pub send_get : World L → Client L → Outcome L
  unfolding post_jobs
  send_get w c =
      if not c.has_service || not c.xhr.has_session then went c else post_jobs w fetches c

  pub send_post : World L → Bytes → Client L → Outcome L
  unfolding post_jobs
  send_post w body c =
      if not c.has_service || not c.xhr.has_session
      then went c
      else post_jobs w fetches_with_body (record c { body = body })

  -- `send()`.
  send_as : World L → Method → Client L → Outcome L
  unfolding send_get send_post
  send_as w Method.get c = send_get w c
  send_as w Method.post c = send_post w [] c
  send_as w Method.unknown c = went c

  pub send : World L → Client L → Outcome L
  unfolding send_as
  send w c = send_as w (method_from_string c.xhr.method) c

  -- `send(cb)`: the callback stops the session of a request that is not asynchronous.
  pub send_with_callback : World L → Client L → Outcome L
  unfolding send
  send_with_callback w c =
      if not c.xhr.has_session
      then went c
      else send w (record c {
        io = record c.io {
          app = set_on_ready_callback true c.io.app;
          stops_on_ready = not c.xhr.is_async;
        };
      })

  -- `abort()`; none where the pointer to the service or to the session is null.
  pub abort : Client L → Option (Client L)
  abort c =
      if c.has_service && c.xhr.has_session
      then some (record c { aborted = true; io = stop c.io })
      else none

  -- The handler of the timer, with whether the callback is called.
  pub on_timer : Bool → Client L → Option (Client L) × Bool
  unfolding abort
  on_timer failed c = if failed then (some c, false) else (abort c, c.has_timer_callback)
