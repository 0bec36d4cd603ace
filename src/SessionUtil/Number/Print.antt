-- ===== src/SessionUtil/Number/Print.antt =====
-- `utos` against the decimal form, and reading back what it prints.
use xmlhttp_request.Prelude.{
  Bytes, [], arith, drop, false, length, length-append, refl, set, suc, true, zero, ℕ, ◌%◌, ◌++◌,
  ◌+◌, ◌/◌, ◌<◌, ◌==◌, ◌∷◌, ◌≡◌, ◌≤◌, append_assoc, length-set, ◌-◌, All, All-append, IsDigit, ap,
  append-nil, decimal_from, length-replicate, pos, replicate, ◌*◌, ◌≢◌,
}
use xmlhttp_request.SessionUtil.Number.Laws.{parse_uint-eq-pos_iff}
use xmlhttp_request.SessionUtil.Number.{parse_uint, int64_max, utos, count_loop, fill_loop}

-- The decimal digits of a positive number, most significant first, and none for 0.
decimal : ℕ → ℕ → Bytes
decimal zero n = []
decimal (suc fuel) n = elim (n == 0) [
  | true ↦ []
  | false ↦ decimal fuel (n / 10) ++ (n % 10 + b'0') ∷ []
]

count_loop-length : (f n k : ℕ) → n < f → count_loop f n k ≡ k + length (decimal f n)
unfolding count_loop decimal
count_loop-length zero n k h = absurd (omega arith)
count_loop-length (suc f) n k h = ground (
  arith,
  count_loop-length f (n / 10) (k + 1),
  length-append (decimal f (n / 10)) ((n % 10 + b'0') ∷ []),
)

-- A write at `k` is what stands behind the first `k` bytes.
drop-set : (xs : Bytes) (k d : ℕ) → k < length xs → drop k (set xs k d) ≡ d ∷ drop (suc k) xs
drop-set [] k d h = absurd (omega arith)
drop-set (x ∷ xs) zero d h = refl
drop-set (x ∷ xs) (suc k) d h = drop-set xs k d (omega arith)

-- The second loop fills exactly the first `length (decimal n)` bytes of the buffer.
fill_loop-decimal :
    (f n k : ℕ) (res : Bytes)
    → n < f
    → k ≡ length (decimal f n)
    → k ≤ length res
    → fill_loop f n k res ≡ decimal f n ++ drop k res
unfolding fill_loop decimal
fill_loop-decimal zero n k res h e fits = absurd (omega arith)
fill_loop-decimal (suc f) n k res h e fits =
    let d = n % 10 + b'0' in
    ground (
      arith,
      length-append (decimal f (n / 10)) (d ∷ []),
      length-set res (k - 1) d,
      fill_loop-decimal f (n / 10) (k - 1) (set res (k - 1) d),
      drop-set res (k - 1) d,
      append_assoc (decimal f (n / 10)) (d ∷ []) (drop k res),
    )

decimal-IsDigit : (f n : ℕ) → All IsDigit (decimal f n)
unfolding decimal
decimal-IsDigit zero n = tt
decimal-IsDigit (suc f) n =
    elim (n == 0)
      as (λ b.
        All IsDigit (elim b [ true ↦ [] | false ↦ decimal f (n / 10) ++ (n % 10 + b'0') ∷ [] ])) [
          | true ↦ tt
          | false ↦
              All-append IsDigit (decimal f (n / 10)) _ (decimal-IsDigit f (n / 10))
                ((omega arith, omega arith), tt)
        ]

decimal_from-append :
    (n : ℕ) (xs ys : Bytes) → decimal_from n (xs ++ ys) ≡ decimal_from (decimal_from n xs) ys
decimal_from-append n [] ys = refl
decimal_from-append n (x ∷ xs) ys = decimal_from-append (n * 10 + (x - b'0')) xs ys

decimal_from-decimal : (f n : ℕ) → n < f → decimal_from 0 (decimal f n) ≡ n
unfolding decimal
decimal_from-decimal zero n h = absurd (omega arith)
decimal_from-decimal (suc f) n h =
    let d = n % 10 + b'0' in
    ground
      (arith, decimal_from-append 0 (decimal f (n / 10)) (d ∷ []), decimal_from-decimal f (n / 10))

drop_all : (xs : Bytes) → drop (length xs) xs ≡ []
drop_all [] = refl
drop_all (x ∷ xs) = drop_all xs

decimal-ne-nil : (n : ℕ) → 0 < n → decimal (n + 1) n ≢ []
decimal-ne-nil n h e =
    omega (arith, ap (decimal_from 0) e, decimal_from-decimal (n + 1) n (omega arith))

-- For a positive number the buffer is as long as the digits need, and is filled with them.
utos-decimal : (n : ℕ) → 0 < n → utos n ≡ decimal (n + 1) n
unfolding utos
utos-decimal n h =
    let k = count_loop (n + 1) n 0 in
    let res : Bytes = replicate k 0 in
    let count = count_loop-length (n + 1) n 0 in
    let size = length-replicate {A = ℕ} k 0 in
    ground (
      arith,
      count,
      size,
      fill_loop-decimal (n + 1) n k res,
      ap (λ j. drop j res) size,
      drop_all res,
      append-nil (decimal (n + 1) n),
    )

-- Every number up to the largest int64_t is printed as decimal digits that are read back as it.
pub parse_uint-utos : (n : ℕ) → n ≤ int64_max → All IsDigit (utos n) × (parse_uint (utos n) ≡ pos n)
parse_uint-utos zero h = unfold utos parse_uint in (((omega arith, omega arith), tt), refl)
parse_uint-utos (suc m) h =
    let n = suc m in
    let value = λ (k : ℕ). decimal_from-decimal (k + 1) k (omega arith) in
    rw (utos-decimal n (omega arith)) (
      decimal-IsDigit (n + 1) n,
      (parse_uint-eq-pos_iff (decimal (n + 1) n) n).1
          (decimal-ne-nil n (omega arith), decimal-IsDigit (n + 1) n, value n, h),
    )
