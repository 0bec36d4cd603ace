-- ===== src/Callbacks/Trace/Streamwise.antt =====
-- What the handlers leave of a stream: its id, a state that they use, and the data of its response.
use xmlhttp_request.Prelude.{
  Bytes, List, Option, [], append-nil, arith, refl, some, sym, ℕ, ◌++◌, ◌∙◌, ◌≡◌,
}
use xmlhttp_request.Http2.Token.{
  Token, lookup_token, hd__status, hd_content_length, hd_content_type,
}
use xmlhttp_request.Message.Response.{set_status_code, set_content_length, Response}
use xmlhttp_request.Stream.{State, Stream, new_stream}
use xmlhttp_request.Callbacks.Frame.{FrameType, Frame}
use xmlhttp_request.Callbacks.Receive.{receive}
use xmlhttp_request.Callbacks.Headers.{response_of, response_field, responded, promised}
use xmlhttp_request.Callbacks.Send.{process_outgoing}

-- No handler changes the id of a stream.
pub id-receive :
    (t : FrameType) (frame : Frame) (u : Stream) → (receive t frame u).stream_id_ ≡ u.stream_id_
unfolding receive
id-receive FrameType.data_frame frame u = ground arith
id-receive FrameType.headers frame u = ground arith
id-receive FrameType.push_promise frame u = ground arith
id-receive FrameType.goaway frame u = refl
id-receive _ frame u = refl

pub id-process_outgoing :
    (t : FrameType) (frame : Frame) (u : Stream)
    → (process_outgoing t frame u).stream_id_ ≡ u.stream_id_
unfolding process_outgoing
id-process_outgoing FrameType.headers frame u = refl
id-process_outgoing FrameType.goaway frame u = refl
id-process_outgoing _ frame u = refl

pub id-promised :
    (name value : Bytes) (flags : ℕ) (u : Stream)
    → (promised name value flags u).stream_id_ ≡ u.stream_id_
unfolding promised
id-promised name value flags u = ground arith

-- The states that the handlers use: a stream is never reserved locally or half closed locally.
abbrev pub IsUsed : State → Type 0
IsUsed State.reserved_local = ⊥
IsUsed State.half_closed_local = ⊥
IsUsed _ = Unit

abbrev pub Used : Stream → Type 0
Used u = IsUsed u.state

pub new_stream-Used : (id : ℕ) → Used (new_stream id)
unfolding new_stream
new_stream-Used id = tt

pub receive-Used : (t : FrameType) (frame : Frame) (u : Stream) → Used u → Used (receive t frame u)
unfolding receive
receive-Used FrameType.data_frame frame u h = ground arith
receive-Used FrameType.headers frame u h = ground arith
receive-Used FrameType.push_promise frame u h = ground arith
receive-Used FrameType.goaway frame u h = tt
receive-Used _ frame u h = h

pub process_outgoing-Used :
    (t : FrameType) (frame : Frame) (u : Stream) → Used u → Used (process_outgoing t frame u)
unfolding process_outgoing
process_outgoing-Used FrameType.headers frame u h = h
process_outgoing-Used FrameType.goaway frame u h = tt
process_outgoing-Used _ frame u h = h

pub promised-Used :
    (name value : Bytes) (flags : ℕ) (u : Stream) → Used u → Used (promised name value flags u)
unfolding promised
promised-Used name value flags u h = ground arith

-- What a handler appends to the data of the response of a stream.
abbrev pub Appends : List Bytes → (Stream → Stream) → Type 0
Appends chunks f = (u : Stream) → (f u).rp.data_ ≡ u.rp.data_ ++ chunks

pub receive-Appends : (t : FrameType) (frame : Frame) → Appends [] (receive t frame)
unfolding receive
receive-Appends FrameType.data_frame frame u = ground (arith, append-nil u.rp.data_)
receive-Appends FrameType.headers frame u = ground (arith, append-nil u.rp.data_)
receive-Appends FrameType.push_promise frame u = ground (arith, append-nil u.rp.data_)
receive-Appends FrameType.goaway frame u = sym (append-nil u.rp.data_)
receive-Appends _ frame u = sym (append-nil u.rp.data_)

pub process_outgoing-Appends :
    (t : FrameType) (frame : Frame) → Appends [] (process_outgoing t frame)
unfolding process_outgoing
process_outgoing-Appends FrameType.headers frame u = sym (append-nil u.rp.data_)
process_outgoing-Appends FrameType.goaway frame u = sym (append-nil u.rp.data_)
process_outgoing-Appends _ frame u = sym (append-nil u.rp.data_)

pub promised-Appends : (name value : Bytes) (flags : ℕ) → Appends [] (promised name value flags)
unfolding promised
promised-Appends name value flags u = ground (arith, append-nil u.rp.data_)

pub response_of-data :
    (t : Option Token) (mime name value : Bytes) (flags : ℕ) (r : Response)
    → (response_of t mime name value flags r).data_ ≡ r.data_
unfolding response_of set_status_code set_content_length
response_of-data (some hd__status) mime name value flags r = refl
response_of-data (some hd_content_length) mime name value flags r = refl
response_of-data (some hd_content_type) mime name value flags r = ground arith
response_of-data _ mime name value flags r = refl

pub response_field-data :
    (mime name value : Bytes) (flags : ℕ) (r : Response)
    → (response_field mime name value flags r).data_ ≡ r.data_
unfolding response_field
response_field-data mime name value flags r =
    response_of-data (lookup_token name) mime name value flags r

pub responded-Appends :
    (mime name value : Bytes) (flags : ℕ) → Appends [] (responded mime name value flags)
unfolding responded
responded-Appends mime name value flags u =
    response_field-data mime name value flags u.rp ∙ sym (append-nil u.rp.data_)
