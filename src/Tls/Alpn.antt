-- ===== src/Tls/Alpn.antt =====
-- include/utilities.h: `getDefaultAlpn`, `selectProto`, `selectH2` and `clientSelectNextProtoCb`;
-- include/sessionutil.h: `check_h2_is_selected` and `tls_h2_negotiated`.
pub mod Laws
pub mod Choice
pub mod Tests
use xmlhttp_request.Prelude.{
  Bool, Bytes, Option, [], codes, drop, false, if◌then◌else◌, leb, length, none, some, suc, take,
  true, zero, ℕ, ◌&&◌, ◌++◌, ◌==◌, ◌∷◌, str_eq, ◌||◌,
}

-- The three names, each behind a byte with its length.
abbrev pub h2_alpn : Bytes
h2_alpn = 2 ∷ codes "h2"

abbrev pub h2_16_alpn : Bytes
h2_16_alpn = 5 ∷ codes "h2-16"

abbrev pub h2_14_alpn : Bytes
h2_14_alpn = 5 ∷ codes "h2-14"

pub get_default_alpn : Bytes
get_default_alpn = h2_alpn ++ h2_16_alpn ++ h2_14_alpn

-- `std::equal` of the key with the bytes at the position.
pub equal_at : Bytes → Bytes → Bool
equal_at [] s = true
equal_at (k ∷ key) [] = false
equal_at (k ∷ key) (c ∷ s) = k == c && equal_at key s

-- `*out` and `*outlen`: the bytes behind the first one, as many as it says.
abbrev pub entry : Bytes → Bytes
entry [] = []
entry (n ∷ s) = take n s

-- `p += *p + 1`.
abbrev pub next : Bytes → Bytes
next [] = []
next (n ∷ s) = drop n s

-- The loop, where the list of bytes is what stands between `p` and `end`; each round drops a byte
-- at least, so that as many rounds as there are bytes are enough.
pub select_loop : ℕ → Bytes → Bytes → Option Bytes
unfolding equal_at
select_loop zero key p = none
select_loop (suc fuel) key p =
    let rest = select_loop fuel key (next p) in
    if leb (length key) (length p) then (if equal_at key p then some (entry p) else rest) else none

pub select_proto : Bytes → Bytes → Option Bytes
unfolding select_loop
select_proto input key = select_loop (suc (length input)) key input

abbrev or_else : Option Bytes → Option Bytes → Option Bytes
or_else (some a) b = some a
or_else none b = b

pub select_h2 : Bytes → Option Bytes
unfolding select_proto
select_h2 input =
    or_else (select_proto input h2_alpn)
      (or_else (select_proto input h2_16_alpn) (select_proto input h2_14_alpn))

-- SSL_TLSEXT_ERR_OK and SSL_TLSEXT_ERR_NOACK.
pub data Answer : Type 0 where
  ok noack : Answer

pub client_select_next_proto_cb : Bytes → Answer × Option Bytes
unfolding select_h2
client_select_next_proto_cb input = elim (select_h2 input) [
  | none ↦ (noack, none)
  | some name ↦ (ok, some name)
]

pub check_h2_is_selected : Bytes → Bool
unfolding str_eq
check_h2_is_selected proto =
    str_eq (codes "h2") proto || (str_eq (codes "h2-16") proto || str_eq (codes "h2-14") proto)

-- `tls_h2_negotiated`, with what SSL_get0_next_proto_negotiated gives, and, where that is nothing,
-- SSL_get0_alpn_selected.
unfoldable pub tls_h2_negotiated : Option Bytes → Option Bytes → Bool
unfolding check_h2_is_selected
tls_h2_negotiated (some proto) alpn = check_h2_is_selected proto
tls_h2_negotiated none (some proto) = check_h2_is_selected proto
tls_h2_negotiated none none = false
