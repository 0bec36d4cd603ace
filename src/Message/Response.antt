-- ===== src/Message/Response.antt =====
-- source/httpresponse.cpp: `Response`.
pub mod Laws
pub mod Tests
use xmlhttp_request.Prelude.{
  Bool, Bytes, List, [], codes, false, if◌then◌else◌, length, ltb, minus_one, negsuc, none, pos,
  some, true, ℕ, ℤ, ◌%◌, ◌&&◌, ◌++◌, ◌+◌, ◌-◌, ◌==◌, ◌^◌, ◌||◌, ◌∷◌, Option,
}
use xmlhttp_request.Message.Header.{HeaderValue, Fields, find_field, assign_field}

-- `contentLength_` is a size_t, `statusCode_` an int; `data_` is a vector of chunks.
pub record Response : Type 0 where
  pub content_length_ : ℕ
  pub header_buffer_size_ : ℕ
  pub status_code_ : ℤ
  pub header_ : Fields
  pub data_ : List Bytes

unfoldable pub empty_response : Response
empty_response = record {
  content_length_ = 0;
  header_buffer_size_ = 0;
  status_code_ = minus_one;
  header_ = [];
  data_ = [];
}

-- The conversions between int64_t and size_t.
abbrev pub to_size : ℤ → ℕ
to_size (pos n) = n % 2 ^ 64
to_size (negsuc n) = (2 ^ 64 - 1 - n % 2 ^ 64) % 2 ^ 64

abbrev pub to_int64 : ℕ → ℤ
to_int64 w = if ltb w (2 ^ 63) then pos w else negsuc (2 ^ 64 - w - 1)

-- The conversion of an int64_t to an int of 32 bits.
abbrev pub to_int : ℤ → ℤ
to_int n = let w = to_size n % 2 ^ 32 in if ltb w (2 ^ 31) then pos w else negsuc (2 ^ 32 - w - 1)

unfoldable pub set_status_code : Response → ℤ → Response
set_status_code r sc = record r { status_code_ = sc }

unfoldable pub set_content_length : Response → ℤ → Response
set_content_length r n = record r { content_length_ = to_size n }

sum_sizes : ℕ → List Bytes → ℕ
sum_sizes acc [] = acc
sum_sizes acc (chunk ∷ chunks) = sum_sizes ((acc + length chunk) % 2 ^ 64) chunks

-- `contentLength()`: a length of 0 is replaced by the size of the data, and kept.
pub content_length : Response → Response × ℤ
unfolding sum_sizes
content_length r =
    let n = if r.content_length_ == 0 then sum_sizes 0 r.data_ else r.content_length_ in
    (record r { content_length_ = n }, to_int64 n)

pub update_header_buffer_size : Response → ℕ → Response
update_header_buffer_size r len = record r { header_buffer_size_ = len }

-- `data(data, len)`: the chunk is copied behind the others.
unfoldable pub add_data : Response → Bytes → Response
add_data r chunk = record r { data_ = r.data_ ++ chunk ∷ [] }

starts_with : Bytes → Bytes → Bool
starts_with [] s = true
starts_with (c ∷ k) [] = false
starts_with (c ∷ k) (d ∷ s) = c == d && starts_with k s

-- `find(key) != npos`.
has_substring : Bytes → Bytes → Bool
unfolding starts_with
has_substring key [] = starts_with key []
has_substring key (c ∷ s) = starts_with key (c ∷ s) || has_substring key s

pub has_charset : Fields → Bool
unfolding has_substring
has_charset [] = false
has_charset ((k, v) ∷ fields) = has_substring (codes "charset=") v.value || has_charset fields

pub concat : List Bytes → Bytes
concat [] = []
concat (chunk ∷ chunks) = chunk ++ concat chunks

-- What `std::string` answers: whether `reserve` of a size succeeds, which throws where the size
-- passes `max_size` or there is no memory, and whether the appends of some chunks to a string that
-- has reserved a size do.
pub record Strings : Type 0 where
  pub reserves : ℕ → Bool
  pub appends : ℕ → List Bytes → Bool

-- Whether a string has room for the chunks behind `reserve(n)`; n becomes a size_t.
abbrev pub has_room : Strings → ℤ → List Bytes → Bool
has_room strings n chunks = strings.reserves (to_size n) && strings.appends (to_size n) chunks

-- `text()`: the data, if a header field has a value that names a charset. It reserves
-- `contentLength()` bytes, which sets the length; `none` is an exception of the string.
pub text : Strings → Response → Option (Response × Bytes)
unfolding content_length concat has_charset
text strings r =
    let (r', n) = content_length r in
    if has_charset r.header_
    then (if has_room strings n r'.data_ then some (r', concat r'.data_) else none)
    else some (r, [])

pub get_type : Response → Bytes
get_type r = elim (find_field (codes "content-encoding") r.header_) [ none ↦ [] | some v ↦ v.value ]

pub set_type : Response → Bytes → Response × Bool
set_type r type = elim (find_field (codes "content-encoding") r.header_) [
  | none ↦ (r, false)
  | some v ↦ (record r { header_ = assign_field (codes "content-encoding") type r.header_ }, true)
]
