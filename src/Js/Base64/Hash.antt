-- ===== src/Js/Base64/Hash.antt =====
-- The text of a hash against its six bytes.
use xmlhttp_request.Prelude.{
  All, Bytes, IsByte, [], arith, length, refl, suc, zero, ℕ, ◌*◌, ◌+◌, ◌<◌, ◌^◌, ◌∷◌, ◌≡◌,
}
use xmlhttp_request.Js.Uri.{returns}
use xmlhttp_request.Js.Base64.{uri_charset, hash_loop, encode, decode}
use xmlhttp_request.Js.Base64.Decode.{decode-encode_from_array}

-- The number that bytes stand for, the highest byte first, behind the bytes of `high`.
abbrev pub value_from : ℕ → Bytes → ℕ
value_from high [] = high
value_from high (b ∷ bytes) = value_from (high * 256 + b) bytes

value_from-hash_loop : (hash : ℕ) → hash < 2 ^ 48 → value_from 0 (hash_loop hash 6) ≡ hash
unfolding hash_loop
value_from-hash_loop hash h = omega arith

hash_loop-AreBytes : (hash k : ℕ) → All IsByte (hash_loop hash k)
unfolding hash_loop
hash_loop-AreBytes hash zero = tt
hash_loop-AreBytes hash (suc k) = (omega arith, hash_loop-AreBytes hash k)

-- The text of a hash of at most 48 bits decodes to six bytes, which hold the hash, the highest byte
-- first. The iconv library is assumed to convert the ASCII characters of `uriCharset` to their own
-- code units.
pub decode-encode :
    (utf16 : Bytes) (hash : ℕ)
    → utf16 ≡ uri_charset
    → hash < 2 ^ 48
    → (bytes : Bytes) × (decode utf16 (encode hash) ≡ returns bytes)
      × (length bytes ≡ 6)
      × All IsByte bytes
      × (value_from 0 bytes ≡ hash)
unfolding encode hash_loop
decode-encode utf16 hash e h = (
  hash_loop hash 6,
  decode-encode_from_array utf16 (hash_loop hash 6) e (λ q. cc) (hash_loop-AreBytes hash 6),
  refl,
  hash_loop-AreBytes hash 6,
  value_from-hash_loop hash h,
)
