-- ===== src/SessionUtil/Number/Laws.antt =====
-- What `parse_uint` accepts, and what it returns.
use xmlhttp_request.Prelude.{
  ◌<◌, sym, Option, All, Bytes, IsDigit, [], arith, decimal_from, length, pos, refl, some, ℕ, ◌*◌,
  ◌+◌, ◌-◌, ◌↔◌, ◌∷◌, ◌≡◌, ◌≢◌, ◌≤◌, false, none, suc, ◌==◌, ◌∙◌,
}
use mathlib.Core.List.{cons-ne-nil}
use xmlhttp_request.SessionUtil.Number.{finish, int64_max, uint_loop, digits_result, parse_uint}

le-decimal_from : (s : Bytes) (n : ℕ) → n ≤ decimal_from n s
le-decimal_from [] n = omega arith
le-decimal_from (c ∷ s) n = omega (arith, le-decimal_from s (n * 10 + (c - b'0')))

-- The loop never passes the end, and reaches it over digits alone, with their true value.
uint_loop_sound :
    (s : Bytes) (n i m j : ℕ)
    → n ≤ int64_max
    → uint_loop s n i ≡ some (m, j)
    → (i ≤ j)
      × (j ≤ i + length s)
      × (m ≤ int64_max)
      × (j ≡ i + length s → All IsDigit s × (m ≡ decimal_from n s))
unfolding uint_loop
uint_loop_sound [] n i m j fits h = ground arith
uint_loop_sound (c ∷ s) n i m j fits h =
    ground (arith, uint_loop_sound s (n * 10 + (c - b'0')) (i + 1) m j)

uint_loop_complete :
    (s : Bytes) (n i : ℕ)
    → All IsDigit s
    → decimal_from n s ≤ int64_max
    → uint_loop s n i ≡ some (decimal_from n s, i + length s)
unfolding uint_loop
uint_loop_complete [] n i h k = ground arith
uint_loop_complete (c ∷ s) n i h k = ground (
  arith,
  uint_loop_complete s (n * 10 + (c - b'0')) (i + 1) h.1,
  le-decimal_from s (n * 10 + (c - b'0')),
)

-- The two tests behind the loop pass a number only where the loop stopped at the end.
finish-some :
    (r : Option (ℕ × ℕ)) (len n : ℕ)
    → 0 < len
    → finish (digits_result r) len ≡ pos n
    → r ≡ some (n, len)
unfolding finish digits_result
finish-some none len n p h = cc
finish-some (some (m, i)) len n p h = ground arith

suc-==-zero : (n : ℕ) → (suc n == 0) ≡ false
suc-==-zero n = ground arith

parse_uint-cons :
    (c : ℕ) (s : Bytes)
    → parse_uint (c ∷ s) ≡ finish (digits_result (uint_loop (c ∷ s) 0 0)) (length (c ∷ s))
unfolding parse_uint
parse_uint-cons c s = rw (suc-==-zero (length s))

parse_uint_sound :
    (s : Bytes) (n : ℕ)
    → parse_uint s ≡ pos n
    → (s ≢ []) × All IsDigit s × (decimal_from 0 s ≡ n) × (n ≤ int64_max)
parse_uint_sound [] n h = unfold parse_uint in cc
parse_uint_sound (c ∷ s) n h =
    let stop =
      finish-some (uint_loop (c ∷ s) 0 0) (length (c ∷ s)) n (omega arith)
        (sym (parse_uint-cons c s) ∙ h) in
    let (_, _, fits, exact) = uint_loop_sound (c ∷ s) 0 0 n (length (c ∷ s)) (omega arith) stop in
    let (digits, value) = exact (omega arith) in (cons-ne-nil c s, digits, sym value, fits)

parse_uint_complete :
    (s : Bytes) (n : ℕ)
    → (s ≢ []) × All IsDigit s × (decimal_from 0 s ≡ n) × (n ≤ int64_max)
    → parse_uint s ≡ pos n
unfolding parse_uint digits_result
parse_uint_complete [] n h = absurd (h.0 refl)
parse_uint_complete (c ∷ s) n h = ground (arith, uint_loop_complete (c ∷ s) 0 0 h.1)

-- A text is read as the number exactly where it is one or more digits that spell it, and the number
-- is an int64_t.
pub parse_uint-eq-pos_iff :
    (s : Bytes) (n : ℕ)
    → (parse_uint s ≡ pos n) ↔ ((s ≢ []) × All IsDigit s × (decimal_from 0 s ≡ n) × (n ≤ int64_max))
parse_uint-eq-pos_iff s n = (parse_uint_sound s n, parse_uint_complete s n)
