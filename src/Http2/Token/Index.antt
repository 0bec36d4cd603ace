-- ===== src/Http2/Token/Index.antt =====
-- source/http2.cpp: `init_hdidx` and `index_header` on `HeaderIndex`, an array of int16_t.
use xmlhttp_request.Prelude.{
  List, Option, [], ap, arith, get_or, if◌then◌else◌, length, length-replicate, length-set, ltb,
  minus_one, negsuc, none, pos, refl, replicate, set, some, suc, sym, zero, ℕ, ℤ, ◌%◌, ◌-◌, ◌<◌,
  ◌^◌, ◌∙◌, ◌∷◌, ◌≡◌, ◌≢◌,
}
use xmlhttp_request.Http2.Token.{
  Token, token_index, hd_maxidx, hd__authority, hd__host, hd__method, hd__path, hd__protocol,
  hd__scheme, hd__status, hd_accept_encoding, hd_accept_language, hd_alt_svc, hd_cache_control,
  hd_connection, hd_content_length, hd_content_type, hd_cookie, hd_date, hd_early_data, hd_expect,
  hd_forwarded, hd_host, hd_http2_settings, hd_if_modified_since, hd_keep_alive, hd_link,
  hd_location, hd_proxy_connection, hd_sec_websocket_accept, hd_sec_websocket_key, hd_server, hd_te,
  hd_trailer, hd_transfer_encoding, hd_upgrade, hd_user_agent, hd_via, hd_x_forwarded_for,
  hd_x_forwarded_proto,
}

-- `static_cast<int16_t>(idx)` of a size_t.
to_int16 : ℕ → ℤ
to_int16 n = let w = n % 2 ^ 16 in if ltb w (2 ^ 15) then pos w else negsuc (2 ^ 16 - w - 1)

abbrev pub HeaderIndex : Type 0
HeaderIndex = List ℤ

-- `std::fill(begin, end, -1)` over the HD_MAXIDX entries.
pub init_hdidx : HeaderIndex
init_hdidx = replicate hd_maxidx minus_one

pub index_header : HeaderIndex → Option Token → ℕ → HeaderIndex
unfolding to_int16 token_index
index_header hdidx none idx = hdidx
index_header hdidx (some token) idx = set hdidx (token_index token) (to_int16 idx)

-- `hdidx[token]`.
pub header_at : HeaderIndex → Token → ℤ
unfolding token_index
header_at hdidx token = get_or hdidx (token_index token) minus_one

-- A `HeaderIndex` has one entry for each token.
abbrev pub IsHeaderIndex : HeaderIndex → Type 0
IsHeaderIndex h = length h ≡ hd_maxidx

token_index-lt : (t : Token) → token_index t < hd_maxidx
unfolding token_index
token_index-lt t = ground arith

all_tokens : List Token
all_tokens =
    hd__authority ∷ hd__host ∷ hd__method ∷ hd__path ∷ hd__protocol ∷ hd__scheme ∷ hd__status
    ∷ hd_accept_encoding ∷ hd_accept_language ∷ hd_alt_svc ∷ hd_cache_control ∷ hd_connection
    ∷ hd_content_length ∷ hd_content_type ∷ hd_cookie ∷ hd_date ∷ hd_early_data ∷ hd_expect
    ∷ hd_forwarded ∷ hd_host ∷ hd_http2_settings ∷ hd_if_modified_since ∷ hd_keep_alive ∷ hd_link
    ∷ hd_location ∷ hd_proxy_connection ∷ hd_sec_websocket_accept ∷ hd_sec_websocket_key ∷ hd_server
    ∷ hd_te ∷ hd_trailer ∷ hd_transfer_encoding ∷ hd_upgrade ∷ hd_user_agent ∷ hd_via
    ∷ hd_x_forwarded_for ∷ hd_x_forwarded_proto ∷ []

token_at : ℕ → Token
unfolding all_tokens
token_at i = get_or all_tokens i hd__authority

token_at-token_index : (t : Token) → token_at (token_index t) ≡ t
unfolding token_at token_index
token_at-token_index hd__authority = refl
token_at-token_index hd__host = refl
token_at-token_index hd__method = refl
token_at-token_index hd__path = refl
token_at-token_index hd__protocol = refl
token_at-token_index hd__scheme = refl
token_at-token_index hd__status = refl
token_at-token_index hd_accept_encoding = refl
token_at-token_index hd_accept_language = refl
token_at-token_index hd_alt_svc = refl
token_at-token_index hd_cache_control = refl
token_at-token_index hd_connection = refl
token_at-token_index hd_content_length = refl
token_at-token_index hd_content_type = refl
token_at-token_index hd_cookie = refl
token_at-token_index hd_date = refl
token_at-token_index hd_early_data = refl
token_at-token_index hd_expect = refl
token_at-token_index hd_forwarded = refl
token_at-token_index hd_host = refl
token_at-token_index hd_http2_settings = refl
token_at-token_index hd_if_modified_since = refl
token_at-token_index hd_keep_alive = refl
token_at-token_index hd_link = refl
token_at-token_index hd_location = refl
token_at-token_index hd_proxy_connection = refl
token_at-token_index hd_sec_websocket_accept = refl
token_at-token_index hd_sec_websocket_key = refl
token_at-token_index hd_server = refl
token_at-token_index hd_te = refl
token_at-token_index hd_trailer = refl
token_at-token_index hd_transfer_encoding = refl
token_at-token_index hd_upgrade = refl
token_at-token_index hd_user_agent = refl
token_at-token_index hd_via = refl
token_at-token_index hd_x_forwarded_for = refl
token_at-token_index hd_x_forwarded_proto = refl

token_index-injective : (t u : Token) → token_index t ≡ token_index u → t ≡ u
token_index-injective t u e = sym (token_at-token_index t) ∙ ap token_at e ∙ token_at-token_index u

get_or-set_self : (xs : List ℤ) (i : ℕ) (v d : ℤ) → i < length xs → get_or (set xs i v) i d ≡ v
get_or-set_self [] i v d h = absurd (omega arith)
get_or-set_self (x ∷ xs) zero v d h = refl
get_or-set_self (x ∷ xs) (suc i) v d h = get_or-set_self xs i v d (omega arith)

get_or-set_ne : (xs : List ℤ) (i j : ℕ) (v d : ℤ) → i ≢ j → get_or (set xs i v) j d ≡ get_or xs j d
get_or-set_ne [] i j v d h = refl
get_or-set_ne (x ∷ xs) zero zero v d h = absurd (h refl)
get_or-set_ne (x ∷ xs) zero (suc j) v d h = refl
get_or-set_ne (x ∷ xs) (suc i) zero v d h = refl
get_or-set_ne (x ∷ xs) (suc i) (suc j) v d h = get_or-set_ne xs i j v d (λ e. h (ap suc e))

get_or-replicate : (n i : ℕ) (d : ℤ) → get_or (replicate n d) i d ≡ d
get_or-replicate zero i d = refl
get_or-replicate (suc n) zero d = refl
get_or-replicate (suc n) (suc i) d = get_or-replicate n i d

to_int16_small : (n : ℕ) → n < 2 ^ 15 → to_int16 n ≡ pos n
unfolding to_int16
to_int16_small n h = ground arith

pub init_hdidx-IsHeaderIndex : IsHeaderIndex init_hdidx
unfolding init_hdidx
init_hdidx-IsHeaderIndex = length-replicate hd_maxidx minus_one

-- The fresh index finds nothing. A token's entry is the position stored last for it, if that fits
-- an int16_t; the other entries keep their values, and -1 as the token stores nothing.
pub index_header_lem :
    (h : HeaderIndex) (t u : Token) (idx : ℕ)
    → IsHeaderIndex h
    → idx < 2 ^ 15
    → u ≢ t
    → IsHeaderIndex init_hdidx
      × (header_at init_hdidx u ≡ minus_one)
      × IsHeaderIndex (index_header h (some t) idx)
      × (header_at (index_header h (some t) idx) t ≡ pos idx)
      × (header_at (index_header h (some t) idx) u ≡ header_at h u)
      × (index_header h none idx ≡ h)
index_header_lem h t u idx len fits ne = (
  init_hdidx-IsHeaderIndex,
  unfold init_hdidx header_at in get_or-replicate hd_maxidx (token_index u) minus_one,
  unfold index_header in (length-set h (token_index t) (to_int16 idx) ∙ len),
  unfold index_header header_at in
      (get_or-set_self h (token_index t) (to_int16 idx) minus_one (rw len (token_index-lt t))
        ∙ to_int16_small idx fits),
  unfold index_header header_at in
      get_or-set_ne h (token_index t) (token_index u) (to_int16 idx) minus_one
        (λ e. ne (sym (token_index-injective t u e))),
  unfold index_header in refl,
)
