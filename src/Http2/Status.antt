-- ===== src/Http2/Status.antt =====
-- source/http2.cpp: status codes as text. `-1` is `minus_one`; a `switch` is a table of its labels.
pub mod Laws
pub mod Tests
use xmlhttp_request.Prelude.{
  ℕ, ◌+◌, ◌-◌, ◌*◌, List, [], ◌∷◌, Bytes, codes, ℤ, pos, minus_one, length, ltb, ◌==◌, is_digit,
  if◌then◌else◌, switch_on,
}

pub reason_phrases : List (ℕ × Bytes)
reason_phrases =
    (100, codes "Continue")
    ∷ (101, codes "Switching Protocols")
    ∷ (103, codes "Early Hints")
    ∷ (200, codes "OK")
    ∷ (201, codes "Created")
    ∷ (202, codes "Accepted")
    ∷ (203, codes "Non-Authoritative Information")
    ∷ (204, codes "No Content")
    ∷ (205, codes "Reset Content")
    ∷ (206, codes "Partial Content")
    ∷ (300, codes "Multiple Choices")
    ∷ (301, codes "Moved Permanently")
    ∷ (302, codes "Found")
    ∷ (303, codes "See Other")
    ∷ (304, codes "Not Modified")
    ∷ (305, codes "Use Proxy")
    ∷ (307, codes "Temporary Redirect")
    ∷ (308, codes "Permanent Redirect")
    ∷ (400, codes "Bad Request")
    ∷ (401, codes "Unauthorized")
    ∷ (402, codes "Payment Required")
    ∷ (403, codes "Forbidden")
    ∷ (404, codes "Not Found")
    ∷ (405, codes "Method Not Allowed")
    ∷ (406, codes "Not Acceptable")
    ∷ (407, codes "Proxy Authentication Required")
    ∷ (408, codes "Request Timeout")
    ∷ (409, codes "Conflict")
    ∷ (410, codes "Gone")
    ∷ (411, codes "Length Required")
    ∷ (412, codes "Precondition Failed")
    ∷ (413, codes "Payload Too Large")
    ∷ (414, codes "URI Too Long")
    ∷ (415, codes "Unsupported Media Type")
    ∷ (416, codes "Requested Range Not Satisfiable")
    ∷ (417, codes "Expectation Failed")
    ∷ (421, codes "Misdirected Request")
    ∷ (425, codes "Too Early")
    ∷ (426, codes "Upgrade Required")
    ∷ (428, codes "Precondition Required")
    ∷ (429, codes "Too Many Requests")
    ∷ (431, codes "Request Header Fields Too Large")
    ∷ (451, codes "Unavailable For Legal Reasons")
    ∷ (500, codes "Internal Server Error")
    ∷ (501, codes "Not Implemented")
    ∷ (502, codes "Bad Gateway")
    ∷ (503, codes "Service Unavailable")
    ∷ (504, codes "Gateway Timeout")
    ∷ (505, codes "HTTP Version Not Supported")
    ∷ (511, codes "Network Authentication Required")
    ∷ []

pub get_reason_phrase : ℕ → Bytes
unfolding reason_phrases switch_on
get_reason_phrase status_code = switch_on status_code reason_phrases []

pub status_texts : List (ℕ × Bytes)
status_texts =
    (100, codes "100")
    ∷ (101, codes "101")
    ∷ (103, codes "103")
    ∷ (200, codes "200")
    ∷ (201, codes "201")
    ∷ (202, codes "202")
    ∷ (203, codes "203")
    ∷ (204, codes "204")
    ∷ (205, codes "205")
    ∷ (206, codes "206")
    ∷ (300, codes "300")
    ∷ (301, codes "301")
    ∷ (302, codes "302")
    ∷ (303, codes "303")
    ∷ (304, codes "304")
    ∷ (305, codes "305")
    ∷ (307, codes "307")
    ∷ (308, codes "308")
    ∷ (400, codes "400")
    ∷ (401, codes "401")
    ∷ (402, codes "402")
    ∷ (403, codes "403")
    ∷ (404, codes "404")
    ∷ (405, codes "405")
    ∷ (406, codes "406")
    ∷ (407, codes "407")
    ∷ (408, codes "408")
    ∷ (409, codes "409")
    ∷ (410, codes "410")
    ∷ (411, codes "411")
    ∷ (412, codes "412")
    ∷ (413, codes "413")
    ∷ (414, codes "414")
    ∷ (415, codes "415")
    ∷ (416, codes "416")
    ∷ (417, codes "417")
    ∷ (421, codes "421")
    ∷ (426, codes "426")
    ∷ (428, codes "428")
    ∷ (429, codes "429")
    ∷ (431, codes "431")
    ∷ (451, codes "451")
    ∷ (500, codes "500")
    ∷ (501, codes "501")
    ∷ (502, codes "502")
    ∷ (503, codes "503")
    ∷ (504, codes "504")
    ∷ (505, codes "505")
    ∷ (511, codes "511")
    ∷ []

pub stringify_status : ℕ → Bytes
unfolding status_texts switch_on
stringify_status status_code = switch_on status_code status_texts (codes "Unknown")

-- The loop over the three characters and the test behind it.
status_loop : Bytes → ℕ → ℤ
status_loop [] status = if ltb status 100 then minus_one else pos status
status_loop (c ∷ src) status =
    let rest = status_loop src (status * 10 + (c - b'0')) in if is_digit c then rest else minus_one

pub parse_http_status_code : Bytes → ℤ
unfolding status_loop
parse_http_status_code src = if length src == 3 then status_loop src 0 else minus_one
