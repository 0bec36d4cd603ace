-- ===== src/Js/Base64/Decode.antt =====
-- `decode` against `encodeFromArray`.
use xmlhttp_request.Prelude.{
  All, Bool, Bool-cases, Bytes, IsByte, [], ap, append-nil, arith, false, if◌then◌else◌, inl, inr,
  length, ltb, not, passes_below, passes_below_sound, refl, suc, sym, take, true, ℕ, ◌%◌, ◌&&◌,
  ◌++◌, ◌-◌, ◌/◌, ◌<◌, ◌==◌, ◌∙◌, ◌∷◌, ◌≡◌, ◌≢◌, ◌≤◌,
}
use xmlhttp_request.Js.Uri.{returns, map_outcome}
use xmlhttp_request.Js.Base64.{
  uri_charset, char_of, encode_from_array, index_table, triple, decode_loop, ends_padded, decode,
}
use xmlhttp_request.Js.Base64.Bits.{
  bit_and_3, bit_and_15, bit_and_63, bit_or_16, bit_or_4, bit_or_64,
}
use xmlhttp_request.Js.Base64.Encode.{
  second, third, cons3, base64_by, length_mod, encode_from_array-base64_by,
}

-- The table that the documented iconv gives.
abbrev table : ℕ → ℕ
table = index_table uri_charset

reads_char : ℕ → Bool
reads_char i = (table (char_of i) == i) && (ltb (char_of i) 128 && not (char_of i == b'='))

chars_read : passes_below reads_char 64 ≡ true
unfolding passes_below reads_char index_table char_of
chars_read = refl

-- Each of the 64 characters is ASCII, is not `=`, and is read as its index.
char_of_lem :
    (i : ℕ)
    → i < 64
    → (table (char_of i) ≡ i) × (ltb (char_of i) 128 ≡ true) × ((char_of i == b'=') ≡ false)
unfolding reads_char
char_of_lem i h =
    let t = passes_below_sound reads_char 64 chars_read i h in
    (ground arith, ground arith, ground arith)

table_pad : table b'=' ≡ 0
unfolding index_table
table_pad = refl

-- One round back: the indices of three bytes give the bytes.
triple_lem :
    (x y z : ℕ)
    → x < 256
    → y < 256
    → z < 256
    → triple (x / 4) (second x y) (third y z) (z % 64) ≡ x ∷ y ∷ z ∷ []
unfolding triple
triple_lem x y z hx hy hz =
    let first = bit_or_4 (x / 4) (second x y / 16) (omega arith) (omega arith) in
    let m = bit_and_15 (second x y) (omega arith) in
    let mid = bit_or_16 (second x y % 16) (third y z / 4) (omega arith) (omega arith) in
    let k = bit_and_3 (third y z) (omega arith) in
    let w = bit_and_63 (z % 64) (omega arith) in
    let last = bit_or_64 (third y z % 4) (z % 64 % 64) (omega arith) (omega arith) in
    rw (first, m, mid, k, w, last) (cons3 (omega arith) (omega arith) (omega arith))

-- The bytes with zeros up to a multiple of three.
abbrev filled : Bytes → Bytes
filled [] = []
filled (x ∷ []) = x ∷ 0 ∷ 0 ∷ []
filled (x ∷ y ∷ []) = x ∷ y ∷ 0 ∷ []
filled (x ∷ y ∷ z ∷ r) = x ∷ y ∷ z ∷ filled r

-- One round of the decoder on characters that stand for given indices.
decode_round :
    (p q u v i r o a : ℕ) (s : Bytes)
    → table p ≡ i
    → table q ≡ r
    → table u ≡ o
    → table v ≡ a
    → ltb p 128 ≡ true
    → ltb q 128 ≡ true
    → ltb u 128 ≡ true
    → ltb v 128 ≡ true
    → decode_loop table (p ∷ q ∷ u ∷ v ∷ s)
      ≡ map_outcome (◌++◌ (triple i r o a)) (decode_loop table s)
unfolding decode_loop
decode_round p q u v i r o a s ei er eo ea bp bq bu bv = rw (ei, er, eo, ea, bp, bq, bu, bv)

decode_loop-base64_by :
    (xs : Bytes) → All IsByte xs → decode_loop table (base64_by char_of xs) ≡ returns (filled xs)
decode_loop-base64_by [] h = unfold decode_loop in refl
decode_loop-base64_by (x ∷ []) (hx, _) =
    let (ex, bx, _) = char_of_lem (x / 4) (omega arith) in
    let (er, br, _) = char_of_lem (second x 0) (omega arith) in
    decode_round _ _ b'=' b'=' _ _ 0 0 [] ex er table_pad table_pad bx br refl refl
    ∙ ap (λ t. map_outcome (◌++◌ t) (decode_loop table []))
        (triple_lem x 0 0 hx (omega arith) (omega arith))
    ∙ (unfold decode_loop in refl)
decode_loop-base64_by (x ∷ y ∷ []) (hx, (hy, _)) =
    let (ex, bx, _) = char_of_lem (x / 4) (omega arith) in
    let (er, br, _) = char_of_lem (second x y) (omega arith) in
    let (eo, bo, _) = char_of_lem (third y 0) (omega arith) in
    decode_round _ _ _ b'=' _ _ _ 0 [] ex er eo table_pad bx br bo refl
    ∙ ap (λ t. map_outcome (◌++◌ t) (decode_loop table [])) (triple_lem x y 0 hx hy (omega arith))
    ∙ (unfold decode_loop in refl)
decode_loop-base64_by (x ∷ y ∷ z ∷ r) (hx, (hy, (hz, hr))) =
    let (ex, bx, _) = char_of_lem (x / 4) (omega arith) in
    let (er, br, _) = char_of_lem (second x y) (omega arith) in
    let (eo, bo, _) = char_of_lem (third y z) (omega arith) in
    let (ea, ba, _) = char_of_lem (z % 64) (omega arith) in
    decode_round _ _ _ _ _ _ _ _ (base64_by char_of r) ex er eo ea bx br bo ba
    ∙ rw (triple_lem x y z hx hy hz, decode_loop-base64_by r hr)

ends_padded_skip : (a b : ℕ) (s : Bytes) → 2 ≤ length s → ends_padded (a ∷ b ∷ s) ≡ ends_padded s
unfolding ends_padded
ends_padded_skip a b [] h = absurd (omega arith)
ends_padded_skip a b (c ∷ []) h = absurd (omega arith)
ends_padded_skip a b (c ∷ d ∷ s) h = refl

length-base64_by : (x : ℕ) (xs : Bytes) → 4 ≤ length (base64_by char_of (x ∷ xs))
length-base64_by x [] = omega arith
length-base64_by x (y ∷ []) = omega arith
length-base64_by x (y ∷ z ∷ r) = omega arith

-- The text ends in two `=` exactly where one byte was left over.
ends_padded-base64_by :
    (xs : Bytes) → All IsByte xs → ends_padded (base64_by char_of xs) ≡ (length xs % 3 == 1)
unfolding ends_padded
ends_padded-base64_by [] h = refl
ends_padded-base64_by (x ∷ []) h = refl
ends_padded-base64_by (x ∷ y ∷ []) (hx, (hy, _)) = rw (char_of_lem (third y 0) (omega arith)).2
ends_padded-base64_by (x ∷ y ∷ z ∷ []) (hx, (hy, (hz, _))) =
    rw (char_of_lem (third y z) (omega arith)).2
ends_padded-base64_by (x ∷ y ∷ z ∷ w ∷ r) (hx, (hy, (hz, hr))) = rw (length_mod (suc (length r))) (
    ends_padded_skip (char_of (third y z)) (char_of (z % 64)) (base64_by char_of (w ∷ r))
      (omega (arith, length-base64_by w r))
    ∙ ends_padded-base64_by (w ∷ r) hr)

length-filled : (x : ℕ) (xs : Bytes) → 3 ≤ length (filled (x ∷ xs))
length-filled x [] = omega arith
length-filled x (y ∷ []) = omega arith
length-filled x (y ∷ z ∷ r) = omega arith

take-filled :
    (xs : Bytes) → (length xs % 3 == 1) ≡ true → take (length (filled xs) - 2) (filled xs) ≡ xs
take-filled [] h = cc
take-filled (x ∷ []) h = refl
take-filled (x ∷ y ∷ []) h = cc
take-filled (x ∷ y ∷ z ∷ []) h = cc
take-filled (x ∷ y ∷ z ∷ w ∷ r) h =
    let L = length (filled (w ∷ r)) in
    let three = length-filled w r in
    let e : suc (suc (suc L)) - 2 ≡ suc (suc (suc (L - 2))) = omega arith in
    rw e (ap (λ s. x ∷ y ∷ z ∷ s) (take-filled (w ∷ r) (rw (length_mod (suc (length r))) at h)))

filled_lem :
    (xs : Bytes)
    → (length xs % 3 == 1) ≡ false
    → filled xs ≡ xs ++ (if length xs % 3 == 2 then 0 ∷ [] else [])
filled_lem [] h = refl
filled_lem (x ∷ []) h = cc
filled_lem (x ∷ y ∷ []) h = refl
filled_lem (x ∷ y ∷ z ∷ r) h =
    rw (length_mod (length r))
      (ap (λ s. x ∷ y ∷ z ∷ s) (filled_lem r (rw (length_mod (length r)) at h)))

one_not_two : (n : ℕ) → (n == 1) ≡ true → (n == 2) ≡ false
one_not_two n h = ground arith

decode_nonempty :
    (utf16 s : Bytes)
    → 1 ≤ length s
    → decode utf16 s
      ≡ map_outcome
          (λ d. if ends_padded s then take (length d - 2) d else d)
          (decode_loop (index_table utf16) s)
unfolding decode
decode_nonempty utf16 [] h = absurd (omega arith)
decode_nonempty utf16 (c ∷ s) h = refl

-- Decoding an encoded array gives its bytes back, with a zero byte behind them where two bytes were
-- left over: `decode` drops the padding of two `=` and not that of one. The iconv library is assumed
-- to convert the ASCII characters of `uriCharset` to their own code units.
pub decode-encode_from_array :
    (utf16 xs : Bytes)
    → utf16 ≡ uri_charset
    → xs ≢ []
    → All IsByte xs
    → decode utf16 (encode_from_array xs)
      ≡ returns (xs ++ (if length xs % 3 == 2 then 0 ∷ [] else []))
decode-encode_from_array utf16 [] e ne h = absurd (ne refl)
decode-encode_from_array utf16 (x ∷ xs) e ne h =
    rw (e, encode_from_array-base64_by (x ∷ xs) h)
      (decode_nonempty uri_charset (base64_by char_of (x ∷ xs))
          (omega (arith, length-base64_by x xs))
        ∙ rw (decode_loop-base64_by (x ∷ xs) h, ends_padded-base64_by (x ∷ xs) h)
            (elim (Bool-cases (length (x ∷ xs) % 3 == 1)) [
              | inl e1 ↦
                  rw (e1, one_not_two (length (x ∷ xs) % 3) e1)
                    (ap returns (take-filled (x ∷ xs) e1 ∙ sym (append-nil (x ∷ xs))))
              | inr e2 ↦ rw e2 (ap returns (filled_lem (x ∷ xs) e2))
            ]))
