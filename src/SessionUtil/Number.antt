-- ===== src/SessionUtil/Number.antt =====
-- include/sessionutil.h: `utos`, `parse_uint_digits` and `parse_uint`.
pub mod Laws
pub mod Print
pub mod Tests
use xmlhttp_request.Prelude.{
  Bool, Bytes, Option, [], false, if◌then◌else◌, is_digit, length, ltb, minus_one, negsuc, none,
  not, pos, replicate, set, some, suc, zero, ℕ, ℤ, ◌%◌, ◌*◌, ◌+◌, ◌-◌, ◌/◌, ◌==◌, ◌^◌, ◌||◌, ◌∷◌,
}

-- `std::numeric_limits<int64_t>::max()`.
abbrev pub int64_max : ℕ
int64_max = 2 ^ 63 - 1

-- The loop from position `i` with the value `n` so far; `none` is the early `return {-1, 0}`.
uint_loop : Bytes → ℕ → ℕ → Option (ℕ × ℕ)
uint_loop [] n i = some (n, i)
uint_loop (c ∷ s) n i =
    let d = c - b'0' in
    let rest = uint_loop s (n * 10 + d) (i + 1) in
    if is_digit c
    then (if ltb (int64_max / 10) n
        then none
        else if ltb (int64_max - d) (n * 10)
        then none
        else rest)
    else some (n, i)

-- What the loop leaves, with the test `i == 0` behind it.
digits_result : Option (ℕ × ℕ) → ℤ × ℕ
digits_result none = (minus_one, 0)
digits_result (some (n, i)) = if i == 0 then (minus_one, 0) else (pos n, i)

pub parse_uint_digits : Bytes → ℤ × ℕ
unfolding uint_loop digits_result
parse_uint_digits s = if length s == 0 then (minus_one, 0) else digits_result (uint_loop s 0 0)

-- `n == -1`.
abbrev is_minus_one : ℤ → Bool
is_minus_one (pos n) = false
is_minus_one (negsuc n) = n == 0

-- `if (n == -1 || i != len) return -1; return n;`.
finish : ℤ × ℕ → ℕ → ℤ
finish (n, i) len = if is_minus_one n || not (i == len) then minus_one else n

pub parse_uint : Bytes → ℤ
unfolding parse_uint_digits finish
parse_uint s = finish (parse_uint_digits s) (length s)

-- `for (auto t = n; t; t /= 10, ++nlen);`, with `n + 1` rounds allowed.
count_loop : ℕ → ℕ → ℕ → ℕ
count_loop zero t nlen = nlen
count_loop (suc fuel) t nlen =
    let rest = count_loop fuel (t / 10) (nlen + 1) in if t == 0 then nlen else rest

-- `for (; n; n /= 10) res[--nlen] = (n % 10) + '0';`.
fill_loop : ℕ → ℕ → ℕ → Bytes → Bytes
fill_loop zero n nlen res = res
fill_loop (suc fuel) n nlen res =
    let rest = fill_loop fuel (n / 10) (nlen - 1) (set res (nlen - 1) (n % 10 + b'0')) in
    if n == 0 then res else rest

-- `resize` fills with zero bytes.
pub utos : ℕ → Bytes
unfolding count_loop fill_loop
utos n =
    if n == 0
    then b'0' ∷ []
    else let nlen = count_loop (n + 1) n 0 in fill_loop (n + 1) n nlen (replicate nlen 0)
