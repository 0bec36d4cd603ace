-- ===== src/Js/Base64/Encode.antt =====
-- `encodeFromArray` against RFC 4648.
use xmlhttp_request.Prelude.{
  ==_iff, All, Bytes, ltb, passes_below, passes_below_sound, true, IsByte, [], ap, arith,
  if◌then◌else◌, length, refl, suc, take, ℕ, ◌%◌, ◌*◌, ◌++◌, ◌+◌, ◌-◌, ◌/◌, ◌<◌, ◌==◌, ◌∙◌, ◌∷◌,
  ◌≡◌, ◌≤◌,
}
use Prim.Native.Nat.{bit_and, bit_or}
use xmlhttp_request.Js.Base64.{char_of, group, encode_loop, encode_from_array}
use xmlhttp_request.Js.Base64.Bits.{bit_and_3, bit_and_15, bit_and_63, bit_or_16, bit_or_4}

-- The four indices of three bytes, as sums.
abbrev pub second : ℕ → ℕ → ℕ
second x y = x % 4 * 16 + y / 16

abbrev pub third : ℕ → ℕ → ℕ
third y z = y % 16 * 4 + z / 64

pub second_lem : (x y : ℕ) → x < 256 → y < 256 → bit_or (bit_and 3 x * 16) (y / 16) ≡ second x y
second_lem x y h k = rw (bit_and_3 x h) (bit_or_16 (x % 4) (y / 16) (omega arith) (omega arith))

pub third_lem : (y z : ℕ) → y < 256 → z < 256 → bit_or (bit_and 15 y * 4) (z / 64) ≡ third y z
third_lem y z h k = rw (bit_and_15 y h) (bit_or_4 (y % 16) (z / 64) (omega arith) (omega arith))

pub cons3 :
    {a b c x y z : ℕ} → a ≡ x → b ≡ y → c ≡ z → ◌≡◌ {A = Bytes} (a ∷ b ∷ c ∷ []) (x ∷ y ∷ z ∷ [])
cons3 p q r = cc

-- The alphabet of RFC 4648, table 1, by its ranges.
abbrev pub rfc4648 : ℕ → ℕ
rfc4648 i =
    if ltb i 26
    then i + b'A'
    else if ltb i 52
    then i - 26 + b'a'
    else if ltb i 62
    then i - 52 + b'0'
    else if i == 62
    then b'+'
    else b'/'

alphabet : passes_below (λ i. char_of i == rfc4648 i) 64 ≡ true
unfolding passes_below char_of
alphabet = refl

-- The table of the code is that alphabet.
pub char_of-rfc4648 : (i : ℕ) → i < 64 → char_of i ≡ rfc4648 i
char_of-rfc4648 i h = (==_iff _ _).0 (passes_below_sound _ 64 alphabet i h)

cons4 :
    {a b c d x y z w : ℕ} {s t : Bytes}
    → a ≡ x
    → b ≡ y
    → c ≡ z
    → d ≡ w
    → s ≡ t
    → ◌≡◌ {A = Bytes} (a ∷ b ∷ c ∷ d ∷ s) (x ∷ y ∷ z ∷ w ∷ t)
cons4 p q r e h = cc

-- RFC 4648: three bytes give four characters, and a shorter last group is padded with `=`.
abbrev pub base64_by : (ℕ → ℕ) → Bytes → Bytes
base64_by char [] = []
base64_by char (x ∷ []) = char (x / 4) ∷ char (second x 0) ∷ b'=' ∷ b'=' ∷ []
base64_by char (x ∷ y ∷ []) = char (x / 4) ∷ char (second x y) ∷ char (third y 0) ∷ b'=' ∷ []
base64_by char (x ∷ y ∷ z ∷ rest) =
    char (x / 4) ∷ char (second x y) ∷ char (third y z) ∷ char (z % 64) ∷ base64_by char rest

abbrev pub base64 : Bytes → Bytes
base64 xs = base64_by rfc4648 xs

-- What the code cuts off and puts at the end, for `k` bytes over.
abbrev pub pad : ℕ → Bytes → Bytes
pad k out =
    if k == 2
    then take (length out - 1) out ++ b'=' ∷ []
    else if k == 1
    then take (length out - 2) out ++ b'=' ∷ b'=' ∷ []
    else out

-- Padding reaches only the last round.
pub pad-cons4 :
    (k a b c d : ℕ) (out : Bytes)
    → 2 ≤ length out
    → pad k (a ∷ b ∷ c ∷ d ∷ out) ≡ a ∷ b ∷ c ∷ d ∷ pad k out
pad-cons4 k a b c d out h =
    let L = length out in
    let e1 : suc (suc (suc (suc L))) - 1 ≡ suc (suc (suc (suc (L - 1)))) = omega arith in
    let e2 : suc (suc (suc (suc L))) - 2 ≡ suc (suc (suc (suc (L - 2)))) = omega arith in
    rw (e1, e2) (ground arith)

pub encode_loop-length : (x : ℕ) (xs : Bytes) → 4 ≤ length (encode_loop (x ∷ xs))
unfolding encode_loop
encode_loop-length x [] = omega arith
encode_loop-length x (y ∷ []) = omega arith
encode_loop-length x (y ∷ z ∷ r) = omega arith

pub group_lem :
    (x y z : ℕ) (r : Bytes)
    → x < 256
    → y < 256
    → z < 256
    → group (x ∷ y ∷ z ∷ r)
      ≡ char_of (x / 4) ∷ char_of (second x y) ∷ char_of (third y z) ∷ char_of (z % 64) ∷ []
unfolding group
group_lem x y z r hx hy hz = rw (second_lem x y hx hy, third_lem y z hy hz, bit_and_63 z hz)

pub group_one :
    (x : ℕ) → x < 256 → take 2 (group (x ∷ [])) ≡ char_of (x / 4) ∷ char_of (second x 0) ∷ []
unfolding group
group_one x hx = rw (second_lem x 0 hx (omega arith))

pub group_two :
    (x y : ℕ)
    → x < 256
    → y < 256
    → take 3 (group (x ∷ y ∷ []))
      ≡ char_of (x / 4) ∷ char_of (second x y) ∷ char_of (third y 0) ∷ []
unfolding group
group_two x y hx hy = rw (second_lem x y hx hy, third_lem y 0 hy (omega arith))

pub length_mod : (n : ℕ) → suc (suc (suc n)) % 3 ≡ n % 3
length_mod n = omega arith

pub pad-encode_loop :
    (xs : Bytes) → All IsByte xs → pad (length xs % 3) (encode_loop xs) ≡ base64_by char_of xs
unfolding encode_loop
pad-encode_loop [] h = refl
pad-encode_loop (x ∷ []) (hx, _) = ap (λ s. s ++ b'=' ∷ b'=' ∷ []) (group_one x hx)
pad-encode_loop (x ∷ y ∷ []) (hx, (hy, _)) = ap (λ s. s ++ b'=' ∷ []) (group_two x y hx hy)
pad-encode_loop (x ∷ y ∷ z ∷ []) (hx, (hy, (hz, _))) =
    rw (second_lem x y hx hy, third_lem y z hy hz, bit_and_63 z hz)
pad-encode_loop (x ∷ y ∷ z ∷ w ∷ r) (hx, (hy, (hz, hr))) =
    rw (length_mod (suc (length r)), second_lem x y hx hy, third_lem y z hy hz, bit_and_63 z hz)
      (pad-cons4 (suc (length r) % 3) _ _ _ _ (encode_loop (w ∷ r))
          (omega (arith, encode_loop-length w r))
        ∙ ap
            (λ s.
              char_of (x / 4) ∷ char_of (second x y) ∷ char_of (third y z) ∷ char_of (z % 64) ∷ s)
            (pad-encode_loop (w ∷ r) hr))

pub encode_from_array-base64_by :
    (xs : Bytes) → All IsByte xs → encode_from_array xs ≡ base64_by char_of xs
unfolding encode_from_array
encode_from_array-base64_by xs h = pad-encode_loop xs h

-- One group in both alphabets.
same_group :
    (x y z : ℕ)
    → x < 256
    → y < 256
    → z < 256
    → (char_of (x / 4) ≡ rfc4648 (x / 4))
      × (char_of (second x y) ≡ rfc4648 (second x y))
      × (char_of (third y z) ≡ rfc4648 (third y z))
      × (char_of (z % 64) ≡ rfc4648 (z % 64))
same_group x y z hx hy hz = (
  char_of-rfc4648 (x / 4) (omega arith),
  char_of-rfc4648 (second x y) (omega arith),
  char_of-rfc4648 (third y z) (omega arith),
  char_of-rfc4648 (z % 64) (omega arith),
)

base64_by-char_of : (xs : Bytes) → All IsByte xs → base64_by char_of xs ≡ base64 xs
base64_by-char_of [] h = refl
base64_by-char_of (x ∷ []) (hx, _) =
    let (p, q, _, _) = same_group x 0 0 hx (omega arith) (omega arith) in
    ap (λ c. c ∷ char_of (second x 0) ∷ b'=' ∷ b'=' ∷ []) p
    ∙ ap (λ c. rfc4648 (x / 4) ∷ c ∷ b'=' ∷ b'=' ∷ []) q
base64_by-char_of (x ∷ y ∷ []) (hx, (hy, _)) =
    let (p, q, r, _) = same_group x y 0 hx hy (omega arith) in
    ap (λ c. c ∷ char_of (second x y) ∷ char_of (third y 0) ∷ b'=' ∷ []) p
    ∙ ap (λ c. rfc4648 (x / 4) ∷ c ∷ char_of (third y 0) ∷ b'=' ∷ []) q
    ∙ ap (λ c. rfc4648 (x / 4) ∷ rfc4648 (second x y) ∷ c ∷ b'=' ∷ []) r
base64_by-char_of (x ∷ y ∷ z ∷ rest) (hx, (hy, (hz, hr))) =
    let (p, q, r, s) = same_group x y z hx hy hz in cons4 p q r s (base64_by-char_of rest hr)

-- `encodeFromArray` is base64 in the alphabet of RFC 4648, with padding.
pub encode_from_array-base64 : (xs : Bytes) → All IsByte xs → encode_from_array xs ≡ base64 xs
encode_from_array-base64 xs h = encode_from_array-base64_by xs h ∙ base64_by-char_of xs h
