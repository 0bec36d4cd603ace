-- ===== src/Xhr.antt =====
-- source/xmlhttprequest.cpp: `XMLHttpRequest`, with the fields of include/xmlhttprequest_impl.h. The
-- session counts by whether it is there and which callbacks it has.
pub mod Uri
pub mod Send
pub mod Watch
pub mod Setup
pub mod Kept
pub mod Laws
pub mod Tests
use xmlhttp_request.Prelude.{
  Bool, Bytes, List, Option, [], codes, false, if◌then◌else◌, ltb, none, not, some, true, ℕ, ◌&&◌,
  ◌++◌, ◌∷◌,
}
use xmlhttp_request.Js.Base64.{encode_from_array}
use xmlhttp_request.Message.Header.{HeaderValue, Fields, emplace, find_field}
use xmlhttp_request.Message.Response.{Response}
use xmlhttp_request.Session.{ReadyState}
use xmlhttp_request.Tls.Method.{Method, to_upper, method_from_string}
use xmlhttp_request.Xhr.Uri.{Regex, Elements, proccess_uri}

pub record Xhr : Type 0 where
  pub has_session : Bool
  pub has_state_callback : Bool
  pub is_async : Bool
  pub elements : Elements
  pub method : Bytes
  pub header_ : Fields
  pub response : Option Response
  pub ready_state : ReadyState
  pub timeout : ℕ
  pub has_timer : Bool

-- `readyState >= Opened`.
abbrev pub is_opened : ReadyState → Bool
is_opened ReadyState.unsent = false
is_opened _ = true

pub prepare : Regex → Bytes → Bytes → Bool → Xhr → Xhr × Bool
prepare regex method uri async x = elim (proccess_uri regex uri) [
  | none ↦ (record x { is_async = async }, false)
  | some e ↦ (record x { is_async = async; elements = e; method = to_upper method }, true)
]

-- `initCallbacks`: a state callback of its own where the session has none.
pub init_callbacks : Xhr → Xhr
init_callbacks x =
    if is_opened x.ready_state
    then x
    else if x.has_state_callback
    then x
    else record x { has_state_callback = true }

-- `setup`; `made` is what `setupSession` returns.
pub setup : Bool → Xhr → Xhr × Bool
unfolding init_callbacks
setup made x =
    if x.has_session
    then (x, false)
    else if made
    then (init_callbacks (record x { has_session = true }), true)
    else (x, false)

pub setup_timer : Xhr → Xhr
setup_timer x = if ltb 0 x.timeout then record x { has_timer = true } else x

-- The state callback of the session, which records the state whoever set it.
pub on_state : ReadyState → Xhr → Xhr
on_state state x =
    if x.has_session && x.has_state_callback then record x { ready_state = state } else x

-- `open()`.
pub open_session : Bool → Xhr → Xhr × Bool
unfolding setup setup_timer on_state
open_session made x =
    if is_opened x.ready_state
    then (x, false)
    else (on_state ReadyState.opened (setup_timer (setup made x).0), true)

-- `open(method, uri, async)`.
pub open_request : Regex → Bool → Bytes → Bytes → Bool → Xhr → Xhr
unfolding prepare open_session
open_request regex made method uri async x =
    let (x', ok) = prepare regex method uri async x in if ok then (open_session made x').0 else x'

pub set_request_header : Bytes → Bytes → Xhr → Xhr
set_request_header name value x = record x {
  header_ = emplace name (record { value = value; sensitive = false }) x.header_;
}

-- `open(method, uri, async, user, password)`, with the buffer that is filled in three steps.
pub open_user : Regex → Bool → Bytes → Bytes → Bool → Bytes → Bytes → Xhr → Xhr
unfolding open_request set_request_header
open_user regex made method uri async user password x =
    set_request_header (codes "Authorization")
      (codes "Basic " ++ encode_from_array (user ++ b':' ∷ password))
      (open_request regex made method uri async x)

-- `timeout(milliseconds)`.
pub set_timeout : ℕ → Xhr → Xhr
set_timeout milliseconds x =
    if is_opened x.ready_state then x else record x { timeout = milliseconds }

-- The callback that `setOnReadyCallback` gives the session: whether it stops the session.
pub on_ready : Response → Xhr → Xhr × Bool
on_ready r x = (record x { response = some r }, not x.is_async)

lines_of : Fields → Bytes
lines_of [] = []
lines_of ((name, v) ∷ fields) = name ++ (codes ": " ++ (v.value ++ (13 ∷ 10 ∷ lines_of fields)))

pub get_all_response_headers : Xhr → Bytes
unfolding lines_of
get_all_response_headers x = elim x.response [ none ↦ [] | some r ↦ lines_of r.header_ ]

value_of : Option HeaderValue → Bytes
value_of none = []
value_of (some v) = v.value

pub get_response_header : Bytes → Xhr → Bytes
unfolding value_of
get_response_header name x = elim x.response [
  | none ↦ []
  | some r ↦ value_of (find_field name r.header_)
]

-- `send()`: which of `sendGet` and `sendPost` is called, if one is.
pub send_kind : Xhr → Method
send_kind x = method_from_string x.method

-- What `send()` does to the request before it posts its jobs, in `sendGet` and `sendPost`; the
-- service is there where the session is.
pub begin_send : Xhr → Xhr
unfolding send_kind
begin_send x =
    if not x.has_session
    then x
    else elim (send_kind x) [ Method.unknown ↦ x | _ ↦ record x { response = none } ]

-- `send(body)` is `sendPost`, whatever the method.
pub begin_send_body : Xhr → Xhr
begin_send_body x = if not x.has_session then x else record x { response = none }

-- `setOnStateChangedCallback`: the session's callback records the state, whatever `cb` is.
pub set_on_state_changed_callback : Xhr → Xhr × Bool
set_on_state_changed_callback x =
    if not x.has_session then (x, false) else (record x { has_state_callback = true }, true)

-- What happens to a request: calls of the application, and the callbacks of the session. `abort` and
-- `overrideMimeType` act on the service and the session, and the other setters of callbacks on parts
-- that `Xhr` does not hold. A move, which replaces the request by another, is none of them.
pub data Op : Type 0 where
  opens_session : Bool → Op
  opens : Bool → Bytes → Bytes → Bool → Op
  opens_as : Bool → Bytes → Bytes → Bool → Bytes → Bytes → Op
  sets_timeout : ℕ → Op
  sets_header : Bytes → Bytes → Op
  sets_state_callback sends sends_body : Op
  state_comes : ReadyState → Op
  response_comes : Response → Op

pub step : Regex → Xhr → Op → Xhr
unfolding begin_send begin_send_body set_on_state_changed_callback open_user
step regex x (opens_session made) = (open_session made x).0
step regex x (opens made method uri async) = open_request regex made method uri async x
step regex x (opens_as made method uri async user password) =
    open_user regex made method uri async user password x
step regex x (sets_timeout milliseconds) = set_timeout milliseconds x
step regex x (sets_header name value) = set_request_header name value x
step regex x sets_state_callback = (set_on_state_changed_callback x).0
step regex x sends = begin_send x
step regex x sends_body = begin_send_body x
step regex x (state_comes state) = on_state state x
step regex x (response_comes r) = (on_ready r x).0

pub run : Regex → Xhr → List Op → Xhr
unfolding step
run regex x [] = x
run regex x (op ∷ ops) = run regex (step regex x op) ops
