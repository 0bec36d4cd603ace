-- ===== src/Message/Request.antt =====
-- source/httprequest.cpp: `Request`. The setters of the pseudo headers do nothing in the code.
use xmlhttp_request.Prelude.{
  Bool, Bytes, Option, [], codes, false, if◌then◌else◌, none, some, true, ◌∷◌,
}
use xmlhttp_request.Message.Header.{HeaderValue, Fields, emplace, find_field}

pub record Request : Type 0 where
  pub scheme_ : Bytes
  pub host_ : Bytes
  pub method_ : Bytes
  pub header_ : Fields

pub empty_request : Request
empty_request = record { scheme_ = []; host_ = []; method_ = []; header_ = [] }

-- `scheme(value, len)`, `host(value, len)`, `method(value, len)`: each ignores its arguments.
pub set_scheme : Request → Bytes → Request
set_scheme r value = r

pub set_host : Request → Bytes → Request
set_host r value = r

pub set_method : Request → Bytes → Request
set_method r value = r

text_of : Option HeaderValue → Bytes
text_of none = []
text_of (some v) = v.value

-- `Request::find`: the value, or an empty text.
pub find : Request → Bytes → Bytes
unfolding text_of
find r name = text_of (find_field name r.header_)

abbrev is_empty : Bytes → Bool
is_empty [] = true
is_empty (c ∷ s) = false

-- The getters keep what they find: they return the request with the value.
pub scheme : Request → Request × Bytes
unfolding find
scheme r =
    let s = if is_empty r.scheme_ then find r (codes ":scheme") else r.scheme_ in
    (record r { scheme_ = s }, s)

pub host : Request → Request × Bytes
unfolding find
host r =
    let s = if is_empty r.host_ then find r (codes "host") else r.host_ in
    (record r { host_ = s }, s)

pub method : Request → Request × Bytes
unfolding find
method r =
    let s = if is_empty r.method_ then find r (codes ":method") else r.method_ in
    (record r { method_ = s }, s)

-- `header(name, value)`.
pub add_header : Request → Bytes → HeaderValue → Request
add_header r name value = record r { header_ = emplace name value r.header_ }
