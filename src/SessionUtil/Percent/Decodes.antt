-- ===== src/SessionUtil/Percent/Decodes.antt =====
-- `percent_decode` against RFC 3986, section 2.1.
use xmlhttp_request.Prelude.{
  Bool, Bytes, [], arith, false, length, ltb, refl, true, ℕ, ◌%◌, ◌&&◌, ◌*◌, ◌+◌, ◌/◌, ◌<◌, ◌==◌,
  ◌∷◌, ◌≡◌, Bool-cases, ap, inl, inr, ◌∙◌, subst, get_or, ◌↔◌,
}
use xmlhttp_request.SessionUtil.Percent.{is_hex_digit, hex_to_uint, percent_decode}
use xmlhttp_request.SessionUtil.Percent.Laws.{hex_digit, hex_to_uint-hex_digit, percent_decode_hex}

-- A percent sign with the two hexadecimal digits of a byte, each in either case, and what follows.
abbrev pub escape : ℕ → Bool → Bool → Bytes → Bytes
escape n high low s = b'%' ∷ hex_digit high (n / 16) ∷ hex_digit low (n % 16) ∷ s

abbrev pub StartsEscape : Bytes → Type 0
StartsEscape s =
    (n : ℕ) × (high : Bool) × (low : Bool) × (rest : Bytes) × (n < 256)
    × (s ≡ escape n high low rest)

-- What a text stands for: each escape is its byte, and any other byte is itself.
pub data Decodes : Bytes → Bytes → Type 0 where
  at_end : Decodes [] []
  escaped :
      (n : ℕ) (high low : Bool) (s t : Bytes)
      → n < 256
      → Decodes s t
      → Decodes (escape n high low s) (n ∷ t)
  kept : (c : ℕ) (s t : Bytes) → ¬ StartsEscape (c ∷ s) → Decodes s t → Decodes (c ∷ s) (c ∷ t)

hex_digit-hex_to_uint :
    (c : ℕ)
    → is_hex_digit c ≡ true
    → (hex_digit (ltb c b'a') (hex_to_uint c) ≡ c) × (hex_to_uint c < 16)
unfolding hex_to_uint is_hex_digit hex_digit
hex_digit-hex_to_uint c h = (ground arith, ground arith)

-- The test of the code.
abbrev tests_escape : ℕ → ℕ → ℕ → Bool
tests_escape c h l = c == b'%' && (is_hex_digit h && is_hex_digit l)

escape-tests :
    (n : ℕ) (high low : Bool)
    → n < 256
    → (is_hex_digit (hex_digit high (n / 16)) ≡ true)
      × (is_hex_digit (hex_digit low (n % 16)) ≡ true)
escape-tests n high low h = (
  (hex_to_uint-hex_digit high (n / 16) (omega arith)).1,
  (hex_to_uint-hex_digit low (n % 16) (omega arith)).1,
)

passed : (c h l : ℕ) (s : Bytes) → StartsEscape (c ∷ h ∷ l ∷ s) → tests_escape c h l ≡ true
passed c h l s (n, high, low, rest, small, e) =
    let (p, q) = escape-tests n high low small in
    let ec : c ≡ b'%' = ap (λ x. get_or x 0 0) e in
    let eh : h ≡ hex_digit high (n / 16) = ap (λ x. get_or x 1 0) e in
    let el : l ≡ hex_digit low (n % 16) = ap (λ x. get_or x 2 0) e in rw (ec, eh, el, p, q) refl

-- Where the test fails no escape starts, and where it passes the three characters are one.
not_passed : (c h l : ℕ) (s : Bytes) → tests_escape c h l ≡ false → ¬ StartsEscape (c ∷ h ∷ l ∷ s)
not_passed c h l s bare e = ground (arith, passed c h l s e)

too_short : (s : Bytes) → length s < 3 → ¬ StartsEscape s
too_short s short (n, high, low, rest, small, e) =
    let same : length s ≡ length (escape n high low rest) = ap length e in omega arith

-- The byte of two digits, and the digits of that byte.
record IsPair (h l : ℕ) : Type 0 where
  byte : (hex_to_uint h * 16 + hex_to_uint l) % 256 < 256
  first : hex_digit (ltb h b'a') ((hex_to_uint h * 16 + hex_to_uint l) % 256 / 16) ≡ h
  second : hex_digit (ltb l b'a') ((hex_to_uint h * 16 + hex_to_uint l) % 256 % 16) ≡ l

pair_lem : (h l : ℕ) → is_hex_digit h ≡ true → is_hex_digit l ≡ true → IsPair h l
pair_lem h l p q =
    let (eh, sh) = hex_digit-hex_to_uint h p in
    let (el, sl) = hex_digit-hex_to_uint l q in
    let high : (hex_to_uint h * 16 + hex_to_uint l) % 256 / 16 ≡ hex_to_uint h = omega arith in
    let low : (hex_to_uint h * 16 + hex_to_uint l) % 256 % 16 ≡ hex_to_uint l = omega arith in
    record { byte = omega arith; first = rw high eh; second = rw low el }

Decodes-pair :
    (c h l : ℕ) (s t : Bytes)
    → tests_escape c h l ≡ true
    → Decodes s t
    → Decodes (c ∷ h ∷ l ∷ s) ((hex_to_uint h * 16 + hex_to_uint l) % 256 ∷ t)
Decodes-pair c h l s t test d =
    let n = (hex_to_uint h * 16 + hex_to_uint l) % 256 in
    let p : is_hex_digit h ≡ true = ground arith in
    let q : is_hex_digit l ≡ true = ground arith in
    let percent : c ≡ b'%' = ground arith in
    let k = pair_lem h l p q in
    let same : escape n (ltb h b'a') (ltb l b'a') s ≡ c ∷ h ∷ l ∷ s =
      rw (k.first, k.second, percent) refl in
    subst (λ x. Decodes x (n ∷ t)) same (escaped n (ltb h b'a') (ltb l b'a') s t k.byte d)

percent_decode-Decodes : (s : Bytes) → Decodes s (percent_decode s)
unfolding percent_decode
percent_decode-Decodes [] = at_end
percent_decode-Decodes (c ∷ []) = kept c [] [] (too_short (c ∷ []) (omega arith)) at_end
percent_decode-Decodes (c ∷ d ∷ []) =
    kept c (d ∷ []) (d ∷ []) (too_short (c ∷ d ∷ []) (omega arith))
      (percent_decode-Decodes (d ∷ []))
percent_decode-Decodes (c ∷ h ∷ l ∷ s) = elim (Bool-cases (tests_escape c h l)) [
  | inl e ↦ rw e (Decodes-pair c h l s (percent_decode s) e (percent_decode-Decodes s))
  | inr e ↦ rw e (kept c (h ∷ l ∷ s) _ (not_passed c h l s e) (percent_decode-Decodes (h ∷ l ∷ s)))
]

starts_here : (c h l : ℕ) (s : Bytes) → tests_escape c h l ≡ true → StartsEscape (c ∷ h ∷ l ∷ s)
starts_here c h l s test =
    let p : is_hex_digit h ≡ true = ground arith in
    let q : is_hex_digit l ≡ true = ground arith in
    let percent : c ≡ b'%' = ground arith in
    let k = pair_lem h l p q in
    (
      (hex_to_uint h * 16 + hex_to_uint l) % 256,
      ltb h b'a',
      ltb l b'a',
      s,
      k.byte,
      rw (k.first, k.second, percent) refl,
    )

percent_decode-kept :
    (c : ℕ) (s : Bytes) → ¬ StartsEscape (c ∷ s) → percent_decode (c ∷ s) ≡ c ∷ percent_decode s
unfolding percent_decode
percent_decode-kept c [] bare = refl
percent_decode-kept c (d ∷ []) bare = refl
percent_decode-kept c (h ∷ l ∷ s) bare = elim (Bool-cases (tests_escape c h l)) [
  | inl e ↦ absurd (bare (starts_here c h l s e))
  | inr e ↦ rw e refl
]

percent_decode-escape :
    (n : ℕ) (high low : Bool) (s : Bytes)
    → n < 256
    → percent_decode (escape n high low s) ≡ n ∷ percent_decode s
percent_decode-escape n high low s small =
    let (eh, p) = hex_to_uint-hex_digit high (n / 16) (omega arith) in
    let (el, q) = hex_to_uint-hex_digit low (n % 16) (omega arith) in
    percent_decode_hex (hex_digit high (n / 16)) (hex_digit low (n % 16)) s p q
    ∙ ap (λ b. b ∷ percent_decode s) (rw (eh, el) (omega arith))

Decodes-percent_decode : (s t : Bytes) → Decodes s t → percent_decode s ≡ t
Decodes-percent_decode s t at_end = unfold percent_decode in refl
Decodes-percent_decode s t (escaped n high low s' t' small d) =
    percent_decode-escape n high low s' small ∙ ap (◌∷◌ n) (Decodes-percent_decode s' t' d)
Decodes-percent_decode s t (kept c s' t' bare d) =
    percent_decode-kept c s' bare ∙ ap (◌∷◌ c) (Decodes-percent_decode s' t' d)

-- Percent decoding yields exactly what a text stands for: each percent sign that two hexadecimal
-- digits follow gives their byte, read from the front, and any other character stays as it is.
pub percent_decode-eq_iff : (s t : Bytes) → (percent_decode s ≡ t) ↔ Decodes s t
percent_decode-eq_iff s t =
    (λ e. subst (Decodes s) e (percent_decode-Decodes s), Decodes-percent_decode s t)
