-- ===== src/SessionUtil/Percent.antt =====
-- include/sessionutil.h: `is_digit`, `is_hex_digit`, `hex_to_uint` and `percent_decode`. A `char` is
-- its byte; where it is signed, the bytes from 128 stand for negative values.
pub mod Laws
pub mod Decodes
pub mod Tests
use xmlhttp_request.Prelude.{
  Bool, Bytes, [], if◌then◌else◌, is_digit, leb, ℕ, ◌%◌, ◌&&◌, ◌*◌, ◌+◌, ◌-◌, ◌==◌, ◌^◌, ◌||◌, ◌∷◌,
}

-- Comparisons of a signed `char` with an ASCII character agree with those of the byte, for
-- `'0' <= c && c <= '9'`, since a negative value fails the first test and a byte above 127 the second.
pub is_hex_digit : ℕ → Bool
is_hex_digit c = is_digit c || (leb b'A' c && leb c b'F') || (leb b'a' c && leb c b'f')

-- The result is a uint32_t; a negative `char` passes the first test and wraps around.
pub hex_to_uint : ℕ → ℕ
hex_to_uint c =
    if leb 128 c
    then 2 ^ 32 + c - 256 - b'0'
    else if leb c b'9'
    then (c + 2 ^ 32 - b'0') % 2 ^ 32
    else if leb c b'Z'
    then (c + 10 + 2 ^ 32 - b'A') % 2 ^ 32
    else if leb c b'z'
    then (c + 10 + 2 ^ 32 - b'a') % 2 ^ 32
    else 256

-- The byte `(hex_to_uint(h) << 4) + hex_to_uint(l)`, stored in a `char`.
abbrev hex_pair : ℕ → ℕ → ℕ
hex_pair h l = (hex_to_uint h * 16 + hex_to_uint l) % 256

-- The output is written from the front of a buffer as long as the input, and then cut.
pub percent_decode : Bytes → Bytes
percent_decode [] = []
percent_decode (c ∷ []) = c ∷ []
percent_decode (c ∷ d ∷ []) = c ∷ percent_decode (d ∷ [])
percent_decode (c ∷ h ∷ l ∷ s) =
    let escaped = hex_pair h l ∷ percent_decode s in
    let plain = c ∷ percent_decode (h ∷ l ∷ s) in
    if c == b'%' && (is_hex_digit h && is_hex_digit l) then escaped else plain
