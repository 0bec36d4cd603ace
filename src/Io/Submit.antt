-- ===== src/Io/Submit.antt =====
-- source/abstractsession.cpp: `submit`; include/sessionutil.h: `copy_url_component`, `make_nv_ls` and
-- `make_nv`. The parser of URLs, inet_pton and nghttp2_submit_request are parameters.
pub mod Laws
pub mod Tests
use xmlhttp_request.Prelude.{
  Bool, Bytes, List, Option, [], codes, drop, false, if◌then◌else◌, length, minus_one, negsuc, none,
  not, pos, some, take, true, ℕ, ℤ, ◌&&◌, ◌++◌, ◌/◌, ◌∷◌,
}
use xmlhttp_request.SessionUtil.Number.{utos}
use xmlhttp_request.Message.Header.{HeaderValue, Fields}
use xmlhttp_request.Stream.{Stream, new_stream}
use xmlhttp_request.Session.{add_stream}
use xmlhttp_request.Io.{Io, filed}

-- `http_parser_url`: for each field that is set, where it begins and how long it is.
pub record Url : Type 0 where
  pub schema : Option (ℕ × ℕ)
  pub host : Option (ℕ × ℕ)
  pub path : Option (ℕ × ℕ)
  pub query : Option (ℕ × ℕ)
  pub port : Option ℕ

-- `nghttp2_nv`. `value` is the text that the pointer leads to, and `none` where that text has been
-- destroyed when `nghttp2_submit_request` reads it; `valuelen` is its length at any rate.
pub record Nv : Type 0 where
  pub name : Bytes
  pub value : Option Bytes
  pub valuelen : ℕ
  pub flags : ℕ

-- The string that a pair is made from: a local variable of `submit` or a field of the header, which
-- is there until the request is submitted, or a temporary, which ends with the expression.
pub data Source : Type 0 where
  lasting temporary : Bytes → Source

-- Where `submit_request` meets a destroyed text, its result is what comes of reading that memory.
pub record Library (L : Type 0) : Type 0 where
  pub parse_url : Bytes → Option Url
  pub submit_request : L → List Nv → Option Bytes → L × ℤ

-- What `submit` is called with. `body` is the text that the data provider reads, if there is one.
pub record Order : Type 0 where
  pub url : Bytes
  pub method : Bytes
  pub header_ : Fields
  pub body : Option Bytes

-- The two error codes that `submit` returns.
pub data ErrorCode : Type 0 where
  success invalid_argument : ErrorCode

-- The end of a call: it returns, or it waits for a mutex that its own thread holds.
pub data Submitted (L : Type 0) : Type 0 where
  returned : Io L → ErrorCode → ℤ → Submitted L
  blocked : Submitted L

pub copy_url_component : Bytes → Option (ℕ × ℕ) → Bytes → Bytes
copy_url_component dest none url = dest
copy_url_component dest (some (off, len)) url = take len (drop off url)

-- NGHTTP2_NV_FLAG_NO_COPY_NAME; the pair keeps `value.c_str()`.
abbrev pub make_nv_ls : Bytes → Source → Nv
make_nv_ls name (lasting value) = record {
  name = name;
  value = some value;
  valuelen = length value;
  flags = 2;
}
make_nv_ls name (temporary value) = record {
  name = name;
  value = none;
  valuelen = length value;
  flags = 2;
}

-- NGHTTP2_NV_FLAG_NO_INDEX for a sensitive value.
abbrev pub make_nv : Bytes → Bytes → Bool → Nv
make_nv name value no_index = record {
  name = name;
  value = some value;
  valuelen = length value;
  flags = if no_index then 1 else 0;
}

abbrev slash_if_empty : Bytes → Bytes
slash_if_empty [] = codes "/"
slash_if_empty (c ∷ s) = c ∷ s

abbrev query_part : Option (ℕ × ℕ) → Bytes → Bytes
query_part none url = []
query_part (some q) url = b'?' ∷ copy_url_component [] (some q) url

-- The value of `:path`; the decoded path is computed and thrown away.
pub path_of : Url → Bytes → Bytes
unfolding copy_url_component
path_of u url = slash_if_empty (copy_url_component [] u.path url) ++ query_part u.query url

-- The loop over the header.
pub header_nvs : Fields → List Nv
header_nvs [] = []
header_nvs ((name, v) ∷ header) = make_nv name v.value v.sensitive ∷ header_nvs header

-- The method is passed as `method.data()`, from which the call makes a temporary string.
pub request_nva : Url → Bytes → Bytes → Fields → List Nv
unfolding path_of header_nvs copy_url_component
request_nva u url method header =
    make_nv_ls (codes ":method") (temporary method)
    ∷ make_nv_ls (codes ":scheme") (lasting (copy_url_component [] u.schema url))
    ∷ make_nv_ls (codes ":path") (lasting (path_of u url))
    ∷ header_nvs header

abbrev pub is_set : {A : Type 0} → Option A → Bool
is_set none = false
is_set (some a) = true

module _ {L : Type 0} where
  -- `try_lock` on `insideCb`, which another thread may hold, and `write()`, which locks it again
  -- where it does not return before; `true` is the wait for the own lock.
  pub waits : Bool → Io L → Bool
  waits held s = if held then false else if s.stopped then false else not s.writing

  -- What comes behind `nghttp2_submit_request`.
  pub after_request : Bool → Io L → ℤ → Submitted L
  unfolding waits add_stream new_stream
  after_request held s (negsuc k) = returned s ErrorCode.success (pos 0)
  after_request held s (pos id) =
      if waits held s
      then blocked
      else returned
          (record s { app = (add_stream s.app (new_stream id)).0; log = s.log ++ filed id ∷ [] })
          ErrorCode.success (pos id)

  pub submit_url : Library L → Bool → Order → Io L → Option Url → Submitted L
  unfolding after_request request_nva
  submit_url lib held o s none = returned s ErrorCode.invalid_argument minus_one
  submit_url lib held o s (some u) =
      let (session', id) =
        lib.submit_request s.session (request_nva u o.url o.method o.header_) o.body in
      if is_set u.schema && is_set u.host
      then after_request held (record s { session = session' }) id
      else returned s ErrorCode.invalid_argument minus_one

  unfoldable pub submit : Library L → Bool → Order → Io L → Submitted L
  unfolding submit_url
  submit lib held o s =
      if s.stopped
      then returned s ErrorCode.success (pos 0)
      else submit_url lib held o s (lib.parse_url o.url)
