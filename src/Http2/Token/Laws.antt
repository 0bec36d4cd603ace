-- ===== src/Http2/Token/Laws.antt =====
-- `lookup_token` against the table of header names.
use xmlhttp_request.Prelude.{
  ℕ, suc, ◌-◌, ◌≡◌, refl, sym, ap, ◌∙◌, ◌↔◌, List, [], ◌∷◌, ◌++◌, some, Bytes, codes, length,
  get_or, take, All, str_eq_sound, switch_on, switch_on-All, arith,
}
use xmlhttp_request.Http2.Token.{
  Token, Rows, token_cases, first_match, lookup_token, hd__authority, hd__host, hd__method,
  hd__path, hd__protocol, hd__scheme, hd__status, hd_accept_encoding, hd_accept_language,
  hd_alt_svc, hd_cache_control, hd_connection, hd_content_length, hd_content_type, hd_cookie,
  hd_date, hd_early_data, hd_expect, hd_forwarded, hd_host, hd_http2_settings, hd_if_modified_since,
  hd_keep_alive, hd_link, hd_location, hd_proxy_connection, hd_sec_websocket_accept,
  hd_sec_websocket_key, hd_server, hd_te, hd_trailer, hd_transfer_encoding, hd_upgrade,
  hd_user_agent, hd_via, hd_x_forwarded_for, hd_x_forwarded_proto,
}

-- The header that a token stands for.
abbrev pub header_name : Token → Bytes
header_name hd__authority = codes ":authority"
header_name hd__host = codes ":host"
header_name hd__method = codes ":method"
header_name hd__path = codes ":path"
header_name hd__protocol = codes ":protocol"
header_name hd__scheme = codes ":scheme"
header_name hd__status = codes ":status"
header_name hd_accept_encoding = codes "accept-encoding"
header_name hd_accept_language = codes "accept-language"
header_name hd_alt_svc = codes "alt-svc"
header_name hd_cache_control = codes "cache-control"
header_name hd_connection = codes "connection"
header_name hd_content_length = codes "content-length"
header_name hd_content_type = codes "content-type"
header_name hd_cookie = codes "cookie"
header_name hd_date = codes "date"
header_name hd_early_data = codes "early-data"
header_name hd_expect = codes "expect"
header_name hd_forwarded = codes "forwarded"
header_name hd_host = codes "host"
header_name hd_http2_settings = codes "http2-settings"
header_name hd_if_modified_since = codes "if-modified-since"
header_name hd_keep_alive = codes "keep-alive"
header_name hd_link = codes "link"
header_name hd_location = codes "location"
header_name hd_proxy_connection = codes "proxy-connection"
header_name hd_sec_websocket_accept = codes "sec-websocket-accept"
header_name hd_sec_websocket_key = codes "sec-websocket-key"
header_name hd_server = codes "server"
header_name hd_te = codes "te"
header_name hd_trailer = codes "trailer"
header_name hd_transfer_encoding = codes "transfer-encoding"
header_name hd_upgrade = codes "upgrade"
header_name hd_user_agent = codes "user-agent"
header_name hd_via = codes "via"
header_name hd_x_forwarded_for = codes "x-forwarded-for"
header_name hd_x_forwarded_proto = codes "x-forwarded-proto"

-- What a literal and the last byte spell is the name of the token beside them.
abbrev Spells : ℕ → Rows → Type 0
Spells c = All (λ r. r.0 ++ c ∷ [] ≡ header_name r.1)

abbrev SpellsAt : ℕ → List (ℕ × Rows) → Type 0
SpellsAt n = All (λ r. Spells r.0 r.1)

token_cases_spell : All (λ r. SpellsAt r.0 r.1) token_cases
unfolding token_cases
token_cases_spell = grind arith

first_match-Spells :
    (p : Bytes) (c : ℕ) (rows : Rows) (t : Token)
    → Spells c rows
    → first_match p rows ≡ some t
    → p ++ c ∷ [] ≡ header_name t
unfolding first_match
first_match-Spells p c [] t h e = cc
first_match-Spells p c ((lit, u) ∷ rows) t h e =
    ground (arith, h.0, str_eq_sound lit p, first_match-Spells p c rows t h.1)

take-last :
    (x : ℕ) (xs : Bytes) → take (length xs) (x ∷ xs) ++ get_or (x ∷ xs) (length xs) 0 ∷ [] ≡ x ∷ xs
take-last x [] = refl
take-last x (y ∷ xs) = ap (◌∷◌ x) (take-last y xs)

-- What the two inner switches find spells the name.
lookup_spells :
    (p : Bytes) (c : ℕ) (n : ℕ) (t : Token)
    → first_match p (switch_on c (switch_on n token_cases []) []) ≡ some t
    → p ++ c ∷ [] ≡ header_name t
lookup_spells p c n t e =
    first_match-Spells p c (switch_on c (switch_on n token_cases []) []) t
      (switch_on-All Spells c (switch_on n token_cases []) []
        (switch_on-All SpellsAt n token_cases [] token_cases_spell tt) tt)
      e

lookup_token_sound : (name : Bytes) (t : Token) → lookup_token name ≡ some t → name ≡ header_name t
unfolding lookup_token
lookup_token_sound [] t e = cc
lookup_token_sound (x ∷ xs) t e =
    let q : suc (length xs) - 1 ≡ length xs = omega arith in
    sym (take-last x xs)
    ∙ lookup_spells (take (length xs) (x ∷ xs)) (get_or (x ∷ xs) (length xs) 0) (suc (length xs)) t
        (rw q at e)

lookup_token_complete : (t : Token) → lookup_token (header_name t) ≡ some t
unfolding lookup_token
lookup_token_complete hd__authority = refl
lookup_token_complete hd__host = refl
lookup_token_complete hd__method = refl
lookup_token_complete hd__path = refl
lookup_token_complete hd__protocol = refl
lookup_token_complete hd__scheme = refl
lookup_token_complete hd__status = refl
lookup_token_complete hd_accept_encoding = refl
lookup_token_complete hd_accept_language = refl
lookup_token_complete hd_alt_svc = refl
lookup_token_complete hd_cache_control = refl
lookup_token_complete hd_connection = refl
lookup_token_complete hd_content_length = refl
lookup_token_complete hd_content_type = refl
lookup_token_complete hd_cookie = refl
lookup_token_complete hd_date = refl
lookup_token_complete hd_early_data = refl
lookup_token_complete hd_expect = refl
lookup_token_complete hd_forwarded = refl
lookup_token_complete hd_host = refl
lookup_token_complete hd_http2_settings = refl
lookup_token_complete hd_if_modified_since = refl
lookup_token_complete hd_keep_alive = refl
lookup_token_complete hd_link = refl
lookup_token_complete hd_location = refl
lookup_token_complete hd_proxy_connection = refl
lookup_token_complete hd_sec_websocket_accept = refl
lookup_token_complete hd_sec_websocket_key = refl
lookup_token_complete hd_server = refl
lookup_token_complete hd_te = refl
lookup_token_complete hd_trailer = refl
lookup_token_complete hd_transfer_encoding = refl
lookup_token_complete hd_upgrade = refl
lookup_token_complete hd_user_agent = refl
lookup_token_complete hd_via = refl
lookup_token_complete hd_x_forwarded_for = refl
lookup_token_complete hd_x_forwarded_proto = refl

-- `lookup_token` returns a token exactly for the name of that token.
pub lookup_token-eq-some_iff :
    (name : Bytes) (t : Token) → (lookup_token name ≡ some t) ↔ (name ≡ header_name t)
lookup_token-eq-some_iff name t = (lookup_token_sound name t, λ e. rw e (lookup_token_complete t))
