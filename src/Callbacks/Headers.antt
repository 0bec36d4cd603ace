-- ===== src/Callbacks/Headers.antt =====
-- source/sessioncallbacks.cpp: `onHeaderCallback`.
pub mod Laws
pub mod Tests
use xmlhttp_request.Prelude.{
  Bool, Bytes, Option, [], false, if◌then◌else◌, none, some, true, ℕ, ◌==◌, ◌∷◌,
}
use xmlhttp_request.Http2.Token.{
  Token, lookup_token, hd__status, hd_content_length, hd_content_type, hd__method, hd__scheme,
  hd__path, hd__authority, hd_host,
}
use xmlhttp_request.SessionUtil.Number.{parse_uint}
use xmlhttp_request.Message.Header.{HeaderValue, Fields, emplace}
use xmlhttp_request.Message.Request.{Request, set_method, set_scheme, set_host, host, add_header}
use xmlhttp_request.Message.Response.{Response, to_int, set_status_code, set_content_length}
use xmlhttp_request.Js.Uri.{is_space}
use xmlhttp_request.Stream.{State, Stream, set_state, is_idle}
use xmlhttp_request.Session.{ReadyState, Session, find_stream, update_stream, notify_state}
use xmlhttp_request.Callbacks.Frame.{FrameType, Frame, is_trailer, no_index}

put_front : ℕ → Option (Bytes × Bytes) → Option (Bytes × Bytes)
put_front c none = none
put_front c (some (a, b)) = some (c ∷ a, b)

-- `find_first_of(';')` with the two `substr` calls: what stands before it and behind it.
pub split_semicolon : Bytes → Option (Bytes × Bytes)
unfolding put_front
split_semicolon [] = none
split_semicolon (c ∷ s) =
    let rest = put_front c (split_semicolon s) in if c == b';' then some ([], s) else rest

-- `erase(remove_if(..., isspace))`.
pub remove_spaces : Bytes → Bytes
remove_spaces [] = []
remove_spaces (c ∷ s) = if is_space c then remove_spaces s else c ∷ remove_spaces s

add_field : Bytes → HeaderValue → Response → Response
add_field name v res = record res { header_ = emplace name v res.header_ }

-- The branch of an overridden MIME type: it adds a field of its own, or none.
override_type : Bytes → ℕ → Response → Response
unfolding split_semicolon remove_spaces add_field
override_type mime flags res = elim (split_semicolon mime) [
  | none ↦ res
  | some (name, value) ↦
      add_field name (record { value = remove_spaces value; sensitive = no_index flags }) res
]

abbrev is_empty : Bytes → Bool
is_empty [] = true
is_empty (c ∷ s) = false

save_response : Bytes → Bytes → ℕ → Response → Response
unfolding add_field
save_response name value flags res =
    add_field name (record { value = value; sensitive = no_index flags }) res

-- What a header field of a response does to it, by its token.
unfoldable pub response_of : Option Token → Bytes → Bytes → Bytes → ℕ → Response → Response
unfolding override_type save_response
response_of (some hd__status) mime name value flags res =
    save_response name value flags (set_status_code res (to_int (parse_uint value)))
response_of (some hd_content_length) mime name value flags res =
    save_response name value flags (set_content_length res (parse_uint value))
response_of (some hd_content_type) mime name value flags res =
    if is_empty mime then save_response name value flags res else override_type mime flags res
response_of _ mime name value flags res = save_response name value flags res

unfoldable pub response_field : Bytes → Bytes → Bytes → ℕ → Response → Response
response_field mime name value flags res = response_of (lookup_token name) mime name value flags res

save_request : Bytes → Bytes → ℕ → Request → Request
save_request name value flags req =
    add_header req name (record { value = value; sensitive = no_index flags })

-- What a header field of a promised request does to it, by its token.
pub request_of : Option Token → Bytes → Bytes → ℕ → Request → Request
unfolding save_request
request_of (some hd__method) name value flags req = set_method req value
request_of (some hd__scheme) name value flags req = set_scheme req value
request_of (some hd__path) name value flags req = req
request_of (some hd__authority) name value flags req = set_host req value
request_of (some hd_host) name value flags req =
    let (req', h) = host req in
    save_request name value flags (if is_empty h then set_host req' value else req')
request_of _ name value flags req = save_request name value flags req

pub request_field : Bytes → Bytes → ℕ → Request → Request
request_field name value flags req = request_of (lookup_token name) name value flags req

unfoldable pub promised : Bytes → Bytes → ℕ → Stream → Stream
unfolding request_field set_state
promised name value flags strm =
    let strm' = if is_idle strm.state then set_state State.reserved_remote strm else strm in
    record strm' { rq = request_field name value flags strm'.rq }

unfoldable pub responded : Bytes → Bytes → Bytes → ℕ → Stream → Stream
unfolding response_field
responded mime name value flags strm = record strm {
  rp = response_field mime name value flags strm.rp;
}

unfoldable pub on_response_header : Session → Frame → Bytes → Bytes → ℕ → Session
unfolding responded
on_response_header s frame name value flags =
    let s' = notify_state s ReadyState.headers_received in
    elim (find_stream s' frame.stream_id) [
      | none ↦ s'
      | some _ ↦
          if is_trailer frame.cat
          then s'
          else update_stream s' frame.stream_id (responded s'.override_mime_type_ name value flags)
    ]

unfoldable pub on_promised_header : Session → Frame → Bytes → Bytes → ℕ → Session
unfolding promised
on_promised_header s frame name value flags = elim (find_stream s frame.promised_stream_id) [
  | none ↦ s
  | some _ ↦ update_stream s frame.promised_stream_id (promised name value flags)
]

unfoldable pub header_of : FrameType → Session → Frame → Bytes → Bytes → ℕ → Session
unfolding on_response_header on_promised_header
header_of FrameType.headers s frame name value flags = on_response_header s frame name value flags
header_of FrameType.push_promise s frame name value flags =
    on_promised_header s frame name value flags
header_of _ s frame name value flags = s

unfoldable pub on_header : Session → Frame → Bytes → Bytes → ℕ → Session
unfolding header_of
on_header s frame name value flags = header_of frame.type s frame name value flags
