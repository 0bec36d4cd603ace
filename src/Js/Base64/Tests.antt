-- ===== src/Js/Base64/Tests.antt =====
-- Base64 on concrete texts.
use xmlhttp_request.Prelude.{
  [], arith, codes, if◌then◌else◌, length, refl, ◌%◌, ◌++◌, ◌==◌, ◌∷◌, ◌≡◌, All, Bytes, IsByte,
}
use xmlhttp_request.Js.Uri.{returns}
use xmlhttp_request.Js.Base64.{uri_charset, encode, encode_from_array, decode}
use xmlhttp_request.Js.Base64.Hash.{value_from, decode-encode}
use xmlhttp_request.Js.Base64.Encode.{base64, encode_from_array-base64}
use xmlhttp_request.Js.Base64.Decode.{decode-encode_from_array}

encode-user : encode_from_array (codes "user:pw") ≡ codes "dXNlcjpwdw=="
unfolding encode_from_array
encode-user = refl

encode_from_array-base64_example : encode_from_array (codes "ab") ≡ base64 (codes "ab")
encode_from_array-base64_example =
    encode_from_array-base64 (codes "ab") (omega arith, (omega arith, tt))

decode-encode_from_array_example :
    decode uri_charset (encode_from_array (codes "ab"))
    ≡ returns (codes "ab" ++ (if length (codes "ab") % 3 == 2 then 0 ∷ [] else []))
decode-encode_from_array_example =
    decode-encode_from_array uri_charset (codes "ab") refl (λ e. cc)
      (omega arith, (omega arith, tt))

encode-hash : encode 0x0102030405ff ≡ codes "AQIDBAX/"
unfolding encode
encode-hash = refl

decode-encode_example :
    (bytes : Bytes) × (decode uri_charset (encode 0x0102030405ff) ≡ returns bytes)
    × (length bytes ≡ 6)
    × All IsByte bytes
    × (value_from 0 bytes ≡ 0x0102030405ff)
decode-encode_example = decode-encode uri_charset 0x0102030405ff refl (omega arith)
