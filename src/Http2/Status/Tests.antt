-- ===== src/Http2/Status/Tests.antt =====
-- The status codes on concrete numbers and texts.
use xmlhttp_request.Prelude.{
  All, IsDigit, codes, decimal_from, length, minus_one, pos, refl, ◌↔◌, ◌≡◌, ◌≤◌,
}
use xmlhttp_request.Http2.Status.{get_reason_phrase, stringify_status, parse_http_status_code}
use xmlhttp_request.Http2.Status.Laws.{Known, parse_http_status_code-eq-pos_iff}

parse-099 : parse_http_status_code (codes "099") ≡ minus_one
unfolding parse_http_status_code
parse-099 = refl

stringify-425 : stringify_status 425 ≡ codes "Unknown"
unfolding stringify_status
stringify-425 = refl

phrase-425 : get_reason_phrase 425 ≡ codes "Too Early"
unfolding get_reason_phrase
phrase-425 = refl

parse_http_status_code-eq-pos_iff_example : (parse_http_status_code (codes "404") ≡ pos 404) ↔ (
    (length (codes "404") ≡ 3)
    × All IsDigit (codes "404")
    × (decimal_from 0 (codes "404") ≡ 404)
    × (100 ≤ 404))
parse_http_status_code-eq-pos_iff_example = parse_http_status_code-eq-pos_iff (codes "404") 404

Known-200 : Known 200
unfolding stringify_status
Known-200 e = cc
