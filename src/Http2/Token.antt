-- ===== src/Http2/Token.antt =====
-- source/http2.cpp and include/http2.h: header tokens (`lookup_token`) and the header index.
-- A token is the enumerator; the -1 of `lookup_token` is `none`.
pub mod Laws
pub mod Index
pub mod Tests
use xmlhttp_request.Prelude.{
  ℕ, zero, suc, ◌-◌, List, [], ◌∷◌, Option, none, some, Bytes, codes, length, get_or, take, str_eq,
  if◌then◌else◌, switch_on,
}

-- The enumeration of include/http2.h, without its sentinel HD_MAXIDX.
pub data Token : Type 0 where
  hd__authority hd__host hd__method hd__path hd__protocol hd__scheme hd__status : Token
  hd_accept_encoding hd_accept_language hd_alt_svc hd_cache_control hd_connection : Token
  hd_content_length hd_content_type hd_cookie hd_date hd_early_data hd_expect : Token
  hd_forwarded hd_host hd_http2_settings hd_if_modified_since hd_keep_alive : Token
  hd_link hd_location hd_proxy_connection hd_sec_websocket_accept hd_sec_websocket_key : Token
  hd_server hd_te hd_trailer hd_transfer_encoding hd_upgrade hd_user_agent : Token
  hd_via hd_x_forwarded_for hd_x_forwarded_proto : Token

-- The value of an enumerator.
pub token_index : Token → ℕ
token_index hd__authority = 0
token_index hd__host = 1
token_index hd__method = 2
token_index hd__path = 3
token_index hd__protocol = 4
token_index hd__scheme = 5
token_index hd__status = 6
token_index hd_accept_encoding = 7
token_index hd_accept_language = 8
token_index hd_alt_svc = 9
token_index hd_cache_control = 10
token_index hd_connection = 11
token_index hd_content_length = 12
token_index hd_content_type = 13
token_index hd_cookie = 14
token_index hd_date = 15
token_index hd_early_data = 16
token_index hd_expect = 17
token_index hd_forwarded = 18
token_index hd_host = 19
token_index hd_http2_settings = 20
token_index hd_if_modified_since = 21
token_index hd_keep_alive = 22
token_index hd_link = 23
token_index hd_location = 24
token_index hd_proxy_connection = 25
token_index hd_sec_websocket_accept = 26
token_index hd_sec_websocket_key = 27
token_index hd_server = 28
token_index hd_te = 29
token_index hd_trailer = 30
token_index hd_transfer_encoding = 31
token_index hd_upgrade = 32
token_index hd_user_agent = 33
token_index hd_via = 34
token_index hd_x_forwarded_for = 35
token_index hd_x_forwarded_proto = 36

-- `HD_MAXIDX`.
abbrev pub hd_maxidx : ℕ
hd_maxidx = 37

-- One `case` label of the inner switch: the literals that `streq_l` compares with, in order.
abbrev pub Rows : Type 0
Rows = List (Bytes × Token)

-- The cases of the nested switch for names of 10 bytes or more.
abbrev pub long_cases : List (ℕ × List (ℕ × Rows))
long_cases =
    (
      10,
      (b'a', (codes "early-dat", hd_early_data) ∷ [])
          ∷ (b'e', (codes "keep-aliv", hd_keep_alive) ∷ [])
          ∷ (b'n', (codes "connectio", hd_connection) ∷ [])
          ∷ (b't', (codes "user-agen", hd_user_agent) ∷ [])
          ∷ (b'y', (codes ":authorit", hd__authority) ∷ [])
          ∷ [],
    )
    ∷ (12, (b'e', (codes "content-typ", hd_content_type) ∷ []) ∷ [])
    ∷ (13, (b'l', (codes "cache-contro", hd_cache_control) ∷ []) ∷ [])
    ∷ (
      14,
      (b'h', (codes "content-lengt", hd_content_length) ∷ [])
          ∷ (b's', (codes "http2-setting", hd_http2_settings) ∷ [])
          ∷ [],
    )
    ∷ (
      15,
      (b'e', (codes "accept-languag", hd_accept_language) ∷ [])
          ∷ (b'g', (codes "accept-encodin", hd_accept_encoding) ∷ [])
          ∷ (b'r', (codes "x-forwarded-fo", hd_x_forwarded_for) ∷ [])
          ∷ [],
    )
    ∷ (16, (b'n', (codes "proxy-connectio", hd_proxy_connection) ∷ []) ∷ [])
    ∷ (
      17,
      (b'e', (codes "if-modified-sinc", hd_if_modified_since) ∷ [])
          ∷ (b'g', (codes "transfer-encodin", hd_transfer_encoding) ∷ [])
          ∷ (b'o', (codes "x-forwarded-prot", hd_x_forwarded_proto) ∷ [])
          ∷ (b'y', (codes "sec-websocket-ke", hd_sec_websocket_key) ∷ [])
          ∷ [],
    )
    ∷ (20, (b't', (codes "sec-websocket-accep", hd_sec_websocket_accept) ∷ []) ∷ [])
    ∷ []

-- The nested switch: on the length of the name, then on its last byte.
pub token_cases : List (ℕ × List (ℕ × Rows))
token_cases =
    (2, (b'e', (codes "t", hd_te) ∷ []) ∷ [])
    ∷ (3, (b'a', (codes "vi", hd_via) ∷ []) ∷ [])
    ∷ (
      4,
      (b'e', (codes "dat", hd_date) ∷ [])
          ∷ (b'k', (codes "lin", hd_link) ∷ [])
          ∷ (b't', (codes "hos", hd_host) ∷ [])
          ∷ [],
    )
    ∷ (5, (b'h', (codes ":pat", hd__path) ∷ []) ∷ (b't', (codes ":hos", hd__host) ∷ []) ∷ [])
    ∷ (
      6,
      (b'e', (codes "cooki", hd_cookie) ∷ [])
          ∷ (b'r', (codes "serve", hd_server) ∷ [])
          ∷ (b't', (codes "expec", hd_expect) ∷ [])
          ∷ [],
    )
    ∷ (
      7,
      (b'c', (codes "alt-sv", hd_alt_svc) ∷ [])
          ∷ (b'd', (codes ":metho", hd__method) ∷ [])
          ∷ (b'e', (codes ":schem", hd__scheme) ∷ (codes "upgrad", hd_upgrade) ∷ [])
          ∷ (b'r', (codes "traile", hd_trailer) ∷ [])
          ∷ (b's', (codes ":statu", hd__status) ∷ [])
          ∷ [],
    )
    ∷ (8, (b'n', (codes "locatio", hd_location) ∷ []) ∷ [])
    ∷ (
      9,
      (b'd', (codes "forwarde", hd_forwarded) ∷ [])
          ∷ (b'l', (codes ":protoco", hd__protocol) ∷ [])
          ∷ [],
    )
    ∷ long_cases

-- `if (streq_l("...", name, namelen - 1)) return ...;`, one after the other, then `break`.
pub first_match : Bytes → Rows → Option Token
first_match p [] = none
first_match p ((lit, t) ∷ rows) = if str_eq lit p then some t else first_match p rows

-- `name[namelen - 1]`, read only where the length is one of the cases.
abbrev pub last_byte : Bytes → ℕ
last_byte name = get_or name (length name - 1) 0

pub lookup_token : Bytes → Option Token
unfolding first_match token_cases switch_on str_eq
lookup_token name =
    first_match (take (length name - 1) name)
      (switch_on (last_byte name) (switch_on (length name) token_cases []) [])
