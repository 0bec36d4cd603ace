-- ===== src/SessionUtil/Percent/Laws.antt =====
-- `percent_decode` undoes percent encoding.
use xmlhttp_request.Prelude.{
  All, Bool, Bytes, IsByte, [], arith, false, if◌then◌else◌, ltb, not, refl, true, ℕ, ◌%◌, ◌&&◌,
  ◌*◌, ◌+◌, ◌-◌, ◌/◌, ◌<◌, ◌==◌, ◌∷◌, ◌≡◌, Bool-cases, ap, inl, inr, ◌∙◌,
}
use xmlhttp_request.SessionUtil.Percent.{is_hex_digit, hex_to_uint, percent_decode}

-- The hexadecimal digit of a number below 16, in upper or lower case.
unfoldable pub hex_digit : Bool → ℕ → ℕ
hex_digit upper n = if ltb n 10 then n + b'0' else if upper then n - 10 + b'A' else n - 10 + b'a'

pub hex_to_uint-hex_digit :
    (upper : Bool) (n : ℕ)
    → n < 16
    → (hex_to_uint (hex_digit upper n) ≡ n) × (is_hex_digit (hex_digit upper n) ≡ true)
unfolding hex_to_uint is_hex_digit hex_digit
hex_to_uint-hex_digit upper n h = ground arith

-- A reference encoder: `keep` says which bytes may stand for themselves.
abbrev pub percent_encode : (ℕ → Bool) → Bool → Bytes → Bytes
percent_encode keep upper [] = []
percent_encode keep upper (c ∷ s) =
    if keep c && not (c == b'%')
    then c ∷ percent_encode keep upper s
    else b'%' ∷ hex_digit upper (c / 16) ∷ hex_digit upper (c % 16) ∷ percent_encode keep upper s

pub percent_decode_plain :
    (c : ℕ) (s : Bytes) → (c == b'%') ≡ false → percent_decode (c ∷ s) ≡ c ∷ percent_decode s
unfolding percent_decode
percent_decode_plain c [] h = refl
percent_decode_plain c (d ∷ []) h = refl
percent_decode_plain c (d ∷ e ∷ s) h = rw h

pub percent_decode_hex :
    (h l : ℕ) (s : Bytes)
    → is_hex_digit h ≡ true
    → is_hex_digit l ≡ true
    → percent_decode (b'%' ∷ h ∷ l ∷ s)
      ≡ ((hex_to_uint h * 16 + hex_to_uint l) % 256) ∷ percent_decode s
unfolding percent_decode
percent_decode_hex h l s p q = rw (p, q)

-- Whatever an encoder escapes, decoding gives the bytes back.
pub percent_decode-percent_encode :
    (keep : ℕ → Bool) (upper : Bool) (s : Bytes)
    → All IsByte s
    → percent_decode (percent_encode keep upper s) ≡ s
percent_decode-percent_encode keep upper [] h = unfold percent_decode in refl
percent_decode-percent_encode keep upper (c ∷ s) h =
    let high = hex_to_uint-hex_digit upper (c / 16) (omega arith) in
    let low = hex_to_uint-hex_digit upper (c % 16) (omega arith) in
    let rest = percent_encode keep upper s in
    let hex =
      percent_decode_hex (hex_digit upper (c / 16)) (hex_digit upper (c % 16)) rest high.1 low.1 in
    elim (Bool-cases (keep c && not (c == b'%'))) [
      | inl e ↦ rw e (
          percent_decode_plain c rest (ground arith)
          ∙ ap (◌∷◌ c) (percent_decode-percent_encode keep upper s h.1))
      | inr e ↦ rw e (hex ∙ ground (arith, percent_decode-percent_encode keep upper s h.1))
    ]
