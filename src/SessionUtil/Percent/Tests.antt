-- ===== src/SessionUtil/Percent/Tests.antt =====
-- The percent codes on concrete texts.
use xmlhttp_request.Prelude.{◌↔◌, arith, codes, refl, true, ◌==◌, ◌≡◌}
use xmlhttp_request.SessionUtil.Percent.{percent_decode, is_hex_digit, hex_to_uint}
use xmlhttp_request.SessionUtil.Percent.Decodes.{Decodes, percent_decode-eq_iff}
use xmlhttp_request.SessionUtil.Percent.Laws.{percent_encode, percent_decode-percent_encode}

decode-space : percent_decode (codes "a%20b%2") ≡ codes "a b%2"
unfolding percent_decode is_hex_digit hex_to_uint
decode-space = refl

percent_decode-percent_encode_example :
    percent_decode (percent_encode (λ c. c == b'/') true (codes "/a%")) ≡ codes "/a%"
percent_decode-percent_encode_example =
    percent_decode-percent_encode (λ c. c == b'/') true (codes "/a%")
      (omega arith, (omega arith, (omega arith, tt)))

percent_decode-eq_iff_example :
    (percent_decode (codes "a%20%zz") ≡ codes "a %zz") ↔ Decodes (codes "a%20%zz") (codes "a %zz")
percent_decode-eq_iff_example = percent_decode-eq_iff (codes "a%20%zz") (codes "a %zz")
