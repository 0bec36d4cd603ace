-- ===== src/SessionUtil/Number/Tests.antt =====
-- The numbers on concrete texts.
use xmlhttp_request.Prelude.{
  All, IsDigit, [], arith, codes, decimal_from, minus_one, pos, refl, ◌↔◌, ◌≡◌, ◌≢◌, ◌≤◌,
}
use xmlhttp_request.SessionUtil.Number.{int64_max, parse_uint, utos}
use xmlhttp_request.SessionUtil.Number.Laws.{parse_uint-eq-pos_iff}
use xmlhttp_request.SessionUtil.Number.Print.{parse_uint-utos}

parse-empty : parse_uint [] ≡ minus_one
unfolding parse_uint
parse-empty = refl

parse-trailing : parse_uint (codes "12a") ≡ minus_one
unfolding parse_uint
parse-trailing = refl

parse-overflow : parse_uint (codes "9223372036854775808") ≡ minus_one
unfolding parse_uint
parse-overflow = refl

utos-8080 : utos 8080 ≡ codes "8080"
unfolding utos
utos-8080 = refl

parse_uint-eq-pos_iff_example : (parse_uint (codes "042") ≡ pos 42) ↔ (
    (codes "042" ≢ [])
    × All IsDigit (codes "042")
    × (decimal_from 0 (codes "042") ≡ 42)
    × (42 ≤ int64_max))
parse_uint-eq-pos_iff_example = parse_uint-eq-pos_iff (codes "042") 42

parse_uint-utos_example : All IsDigit (utos 443) × (parse_uint (utos 443) ≡ pos 443)
parse_uint-utos_example = parse_uint-utos 443 (omega arith)
