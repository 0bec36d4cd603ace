-- ===== src/Js/Base64.antt =====
-- include/jsfunctions.h: `getVectorValue`, `encodeFromArray`, `encode` and `decode`. The shifts are of
-- promoted ints. A `uint16_t` or a byte never loses a bit before the cast that the code writes out.
pub mod Bits
pub mod Encode
pub mod Decode
pub mod Hash
pub mod Tests
use Prim.Native.Nat.{bit_and, bit_or}
use xmlhttp_request.Prelude.{
  Bool, Bytes, [], codes, false, get_or, if◌then◌else◌, length, ltb, take, ℕ, ◌%◌, ◌&&◌, ◌*◌, ◌++◌,
  ◌+◌, ◌-◌, ◌/◌, ◌==◌, ◌∷◌, suc, zero, ◌^◌,
}
use xmlhttp_request.Js.Uri.{Outcome, returns, throws, undefined, map_outcome}

-- The 64 characters of `uriCharset`, without the terminator of the literal.
abbrev pub uri_charset : Bytes
uri_charset = codes "ABCDEFGHIJKLMNOPQRSTUVWXYZabcdefghijklmnopqrstuvwxyz0123456789+/"

abbrev pub get_vector_value : Bytes → ℕ → ℕ
get_vector_value array at = get_or array at 0

-- `uriCharset[i]`; the entry 64 is the terminator.
pub char_of : ℕ → ℕ
char_of i = get_or uri_charset i 0

-- The four indices of one round, with `array` the bytes from `n` on.
pub indices : Bytes → ℕ × ℕ × ℕ × ℕ
indices array = (
  get_vector_value array 0 / 4,
  bit_or (bit_and 3 (get_vector_value array 0) * 16) (get_vector_value array 1 / 16),
  bit_or (bit_and 15 (get_vector_value array 1) * 4) (get_vector_value array 2 / 64),
  bit_and 63 (get_vector_value array 2),
)

pub group : Bytes → Bytes
unfolding indices char_of
group array = let (i, r, o, a) = indices array in char_of i ∷ char_of r ∷ char_of o ∷ char_of a ∷ []

-- `for (n = 0; n < size; n += 3)`, on the bytes from `n` on.
pub encode_loop : Bytes → Bytes
unfolding group
encode_loop [] = []
encode_loop (x ∷ []) = group (x ∷ [])
encode_loop (x ∷ y ∷ []) = group (x ∷ y ∷ [])
encode_loop (x ∷ y ∷ z ∷ rest) = group (x ∷ y ∷ z ∷ rest) ++ encode_loop rest

pub encode_from_array : Bytes → Bytes
unfolding encode_loop
encode_from_array array =
    let out = encode_loop array in
    if length array % 3 == 2
    then take (length out - 1) out ++ b'=' ∷ []
    else if length array % 3 == 1
    then take (length out - 2) out ++ b'=' ∷ b'=' ∷ []
    else out

-- `n.fill(0)` and then `n[utf16[i]] = i` for each i, from `i` on.
fill_table : Bytes → ℕ → (ℕ → ℕ) → ℕ → ℕ
fill_table [] i n c = n c
fill_table (u ∷ utf16) i n c = fill_table utf16 (i + 1) (λ k. if k == u then i else n k) c

pub index_table : Bytes → ℕ → ℕ
unfolding fill_table
index_table utf16 = fill_table utf16 0 (λ k. 0)

-- The three bytes of one round.
pub triple : ℕ → ℕ → ℕ → ℕ → Bytes
triple i r o a =
    bit_or (i * 4) (r / 16) % 256
    ∷ bit_or (bit_and 15 r * 16) (o / 4) % 256
    ∷ bit_or (bit_and 3 o * 64) (bit_and 63 a) % 256
    ∷ []

-- `n.at(uri.at(t))` throws for a byte from 128 on, which a signed `char` turns into a huge index.
module _ (n : ℕ → ℕ) where
  abbrev in_table : ℕ → Bool
  in_table c = ltb c 128

  -- The rounds write `d` from the front, three bytes each. A text that ends inside a round throws.
  decode_loop : Bytes → Outcome Bytes
  unfolding triple
  decode_loop [] = returns []
  decode_loop (p ∷ []) = throws
  decode_loop (p ∷ q ∷ []) = throws
  decode_loop (p ∷ q ∷ u ∷ []) = throws
  decode_loop (p ∷ q ∷ u ∷ v ∷ uri) =
      let rest = map_outcome (◌++◌ (triple (n p) (n q) (n u) (n v))) (decode_loop uri) in
      if (in_table p && in_table q) && (in_table u && in_table v) then rest else throws

-- The test on the last two characters reads before an empty text.
ends_padded : Bytes → Bool
ends_padded [] = false
ends_padded (c ∷ []) = false
ends_padded (c ∷ d ∷ []) = c == b'=' && d == b'='
ends_padded (c ∷ d ∷ e ∷ s) = ends_padded (d ∷ e ∷ s)

-- `utf16` is what iconv made of `uriCharset`, without the byte order mark.
pub decode : Bytes → Bytes → Outcome Bytes
unfolding decode_loop ends_padded index_table
decode utf16 [] = undefined
decode utf16 (c ∷ uri) =
    map_outcome (λ d. if ends_padded (c ∷ uri) then take (length d - 2) d else d)
      (decode_loop (index_table utf16) (c ∷ uri))

-- `floor(hash / pow(256, 5 - n))` for n from 0 to 5, with `k` the bytes that are left; the byte is
-- `255 & rn`, the lowest of `rn`. A power of two divides a double exactly.
pub hash_loop : ℕ → ℕ → Bytes
hash_loop hash zero = []
hash_loop hash (suc k) = hash / 256 ^ k % 256 ∷ hash_loop hash k

-- `encode(hash)`, for a hash that is not negative and less than 2^63, which counts by its integer
-- part.
pub encode : ℕ → Bytes
unfolding hash_loop encode_from_array
encode hash = encode_from_array (hash_loop hash 6)
