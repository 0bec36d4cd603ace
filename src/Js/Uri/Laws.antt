-- ===== src/Js/Uri/Laws.antt =====
-- `decodeURIComponent` undoes `encodeURIComponent`.
use xmlhttp_request.Prelude.{
  All, Bytes, IsByte, [], ap, arith, false, refl, some, ℕ, ◌%◌, ◌++◌, ◌/◌, ◌<◌, ◌==◌, ◌∙◌, ◌∷◌, ◌≡◌,
  ==_iff, Bool-cases, inl, inr, true, All-append, ◌||◌,
}
use xmlhttp_request.Js.Uri.{
  returns, map_outcome, hex_char, is_unreserved, encode_char, encode_uri_component, hex_value,
  string_to_hex, decode_uri_component,
}

hex_value-hex_char : (v : ℕ) → v < 16 → hex_value (hex_char v) ≡ some v
unfolding hex_value hex_char
hex_value-hex_char v h = ground arith

string_to_hex-hex_char :
    (c : ℕ) → c < 256 → string_to_hex (hex_char (c / 16)) (hex_char (c % 16)) ≡ returns c
unfolding string_to_hex hex_char
string_to_hex-hex_char c h = ground arith

decode_plain :
    (c : ℕ) (s : Bytes)
    → (c == b'%') ≡ false
    → (c == b'+') ≡ false
    → decode_uri_component (c ∷ s) ≡ map_outcome (◌∷◌ c) (decode_uri_component s)
unfolding decode_uri_component
decode_plain c [] p q = rw (p, q)
decode_plain c (a ∷ []) p q = rw (p, q)
decode_plain c (a ∷ b ∷ s) p q = rw (p, q)

decode_plus :
    (s : Bytes) → decode_uri_component (b'+' ∷ s) ≡ map_outcome (◌∷◌ b' ') (decode_uri_component s)
unfolding decode_uri_component
decode_plus [] = refl
decode_plus (a ∷ []) = refl
decode_plus (a ∷ b ∷ s) = refl

decode_hex :
    (a b v : ℕ) (s : Bytes)
    → string_to_hex a b ≡ returns v
    → decode_uri_component (b'%' ∷ a ∷ b ∷ s) ≡ map_outcome (◌∷◌ v) (decode_uri_component s)
unfolding decode_uri_component
decode_hex a b v s e = rw e

unreserved-ne : (c : ℕ) → is_unreserved c ≡ true → ((c == b'%') ≡ false) × ((c == b'+') ≡ false)
unfolding is_unreserved
unreserved-ne c e = (ground arith, ground arith)

-- One encoded byte is decoded to that byte, whatever follows it.
decode-encode_char :
    (c : ℕ) (s : Bytes)
    → IsByte c
    → decode_uri_component (encode_char c ++ s) ≡ map_outcome (◌∷◌ c) (decode_uri_component s)
unfolding encode_char
decode-encode_char c s h = elim (Bool-cases (is_unreserved c)) [
  | inl e ↦ rw e (decode_plain c s (unreserved-ne c e).0 (unreserved-ne c e).1)
  | inr e ↦ rw e (elim (Bool-cases (c == b' ')) [
    | inl sp ↦ rw (sp, (==_iff c b' ').0 sp) (decode_plus s)
    | inr other ↦
        rw other
          (decode_hex (hex_char (c / 16)) (hex_char (c % 16)) c s (string_to_hex-hex_char c h))
  ])
]

-- Every byte string is read back from its encoding, and decoding ends without a fault.
pub decode_uri_component-encode_uri_component :
    (s : Bytes) → All IsByte s → decode_uri_component (encode_uri_component s) ≡ returns s
unfolding decode_uri_component encode_uri_component
decode_uri_component-encode_uri_component [] h = refl
decode_uri_component-encode_uri_component (c ∷ s) h =
    decode-encode_char c (encode_uri_component s) h.0
    ∙ ap (map_outcome (◌∷◌ c)) (decode_uri_component-encode_uri_component s h.1)

abbrev pub IsSafe : ℕ → Type 0
IsSafe d = (is_unreserved d || d == b'%' || d == b'+') ≡ true

hex_char-IsSafe : (v : ℕ) → v < 16 → IsSafe (hex_char v)
unfolding hex_char is_unreserved
hex_char-IsSafe v h = ground arith

encode_char-IsSafe : (c : ℕ) → IsByte c → All IsSafe (encode_char c)
unfolding encode_char
encode_char-IsSafe c h = elim (Bool-cases (is_unreserved c)) [
  | inl e ↦ rw e (ground arith, tt)
  | inr e ↦ rw e (elim (Bool-cases (c == b' ')) [
    | inl sp ↦ rw sp (refl, tt)
    | inr other ↦ rw other (
      refl,
      (hex_char-IsSafe (c / 16) (omega arith), (hex_char-IsSafe (c % 16) (omega arith), tt)),
    )
  ])
]

-- An encoded text holds no byte but the unreserved ones, `%` and `+`.
pub encode_uri_component-IsSafe : (s : Bytes) → All IsByte s → All IsSafe (encode_uri_component s)
unfolding encode_uri_component
encode_uri_component-IsSafe [] h = tt
encode_uri_component-IsSafe (c ∷ s) h =
    All-append IsSafe (encode_char c) (encode_uri_component s) (encode_char-IsSafe c h.0)
      (encode_uri_component-IsSafe s h.1)
