-- ===== src/Js/Uri.antt =====
-- include/jsfunctions.h: `hexToChar`, `stringToHex`, `encodeURIComponent`, `decodeURIComponent`.
pub mod Laws
pub mod Tests
use xmlhttp_request.Prelude.{
  Bool, Bytes, Option, [], if◌then◌else◌, leb, none, some, ℕ, ◌%◌, ◌&&◌, ◌*◌, ◌++◌, ◌+◌, ◌-◌, ◌/◌,
  ◌==◌, ◌||◌, ◌∷◌,
}

-- How a call ends: with a value, by an exception, or by a read or a step past the end of the text.
pub data Outcome (A : Type 0) : Type 0 where
  returns : A → Outcome A
  throws : Outcome A
  undefined : Outcome A

abbrev pub map_outcome : {A B : Type 0} → (A → B) → Outcome A → Outcome B
map_outcome f (returns a) = returns (f a)
map_outcome f throws = throws
map_outcome f undefined = undefined

-- `hex1 = c / 16` with `hex1 += hex1 <= 9 ? '0' : 'a' - 10`, in an unsigned char; so for `c % 16`.
hex_char : ℕ → ℕ
hex_char v = if leb v 9 then (v + b'0') % 256 else (v + (b'a' - 10)) % 256

pub hex_to_char : ℕ → ℕ × ℕ
unfolding hex_char
hex_to_char c = (hex_char (c / 16), hex_char (c % 16))

-- The characters that stand for themselves.
pub is_unreserved : ℕ → Bool
is_unreserved c =
    (leb b'0' c && leb c b'9')
    || (leb b'a' c && leb c b'z')
    || (leb b'A' c && leb c b'Z')
    || c == b'-'
    || c == b'_'
    || c == b'.'
    || c == b'!'
    || c == b'~'
    || c == b'*'
    || c == b'\''
    || c == b'('
    || c == b')'

-- What one round of the loop pushes.
encode_char : ℕ → Bytes
unfolding is_unreserved hex_to_char
encode_char c =
    if is_unreserved c
    then c ∷ []
    else if c == b' '
    then b'+' ∷ []
    else (let (d1, d2) = hex_to_char c in b'%' ∷ d1 ∷ d2 ∷ [])

pub encode_uri_component : Bytes → Bytes
unfolding encode_char
encode_uri_component [] = []
encode_uri_component (c ∷ s) = encode_char c ++ encode_uri_component s

-- The value of a hexadecimal digit, of either case.
pub hex_value : ℕ → Option ℕ
hex_value c =
    if leb b'0' c && leb c b'9'
    then some (c - b'0')
    else if leb b'a' c && leb c b'f'
    then some (c - b'a' + 10)
    else if leb b'A' c && leb c b'F'
    then some (c - b'A' + 10)
    else none

-- `isspace` of the C locale.
abbrev pub is_space : ℕ → Bool
is_space c = c == b' ' || (leb 9 c && leb c 13)

or_throw : Option ℕ → (ℕ → ℕ) → Outcome ℕ
or_throw none f = throws
or_throw (some v) f = returns (f v)

-- `std::stoi` in base 16 on a text of two characters: white space and a sign are skipped, reading
-- stops at the first character that is no digit, and without a digit an exception is thrown. The
-- result is cast to an int8_t, here its byte.
pub string_to_hex : ℕ → ℕ → Outcome ℕ
unfolding hex_value or_throw
string_to_hex a b =
    if is_space a || a == b'+'
    then or_throw (hex_value b) (λ v. v)
    else if a == b'-'
    then or_throw (hex_value b) (λ v. (256 - v) % 256)
    else or_throw (hex_value a) (λ v. elim (hex_value b) [ none ↦ v | some w ↦ (v * 16 + w) % 256 ])

push_outcome : Outcome ℕ → Outcome Bytes → Outcome Bytes
push_outcome (returns v) rest = map_outcome (◌∷◌ v) rest
push_outcome throws rest = throws
push_outcome undefined rest = undefined

-- Behind a `%` two characters are read and skipped, also where the text ends before them.
pub decode_uri_component : Bytes → Outcome Bytes
unfolding string_to_hex push_outcome
decode_uri_component [] = returns []
decode_uri_component (c ∷ []) =
    if c == b'%' then undefined else if c == b'+' then returns (b' ' ∷ []) else returns (c ∷ [])
decode_uri_component (c ∷ a ∷ []) =
    let rest = decode_uri_component (a ∷ []) in
    if c == b'%'
    then (elim (string_to_hex a 0) [ throws ↦ throws | _ ↦ undefined ])
    else if c == b'+'
    then map_outcome (◌∷◌ b' ') rest
    else map_outcome (◌∷◌ c) rest
decode_uri_component (c ∷ a ∷ b ∷ s) =
    let escaped = push_outcome (string_to_hex a b) (decode_uri_component s) in
    let rest = decode_uri_component (a ∷ b ∷ s) in
    if c == b'%'
    then escaped
    else if c == b'+'
    then map_outcome (◌∷◌ b' ') rest
    else map_outcome (◌∷◌ c) rest
