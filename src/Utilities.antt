-- ===== src/Utilities.antt =====
-- include/utilities.h: `split`, with `find_first_of` and `substr` of std::string.
pub mod Laws
pub mod Tests
use xmlhttp_request.Prelude.{
  Bytes, Option, [], drop, if◌then◌else◌, length, ltb, none, some, suc, take, ℕ, ◌%◌, ◌+◌, ◌-◌,
  ◌==◌, ◌^◌, ◌∷◌,
}

-- `std::string::npos`.
abbrev pub npos : ℕ
npos = 2 ^ 64 - 1

abbrev one_more : Option ℕ → Option ℕ
one_more none = none
one_more (some i) = some (suc i)

infixl 5 ◌>>=◌
abbrev ◌>>=◌ {ℓ κ} : {A : Type ℓ} {B : Type κ} → Option A → (A → Option B) → Option B
none >>= f = none
some a >>= f = f a

pub index_of : Bytes → ℕ → Option ℕ
index_of [] c = none
index_of (x ∷ s) c = let rest = index_of s c in if x == c then some 0 else one_more rest

pub find_first_of : Bytes → ℕ → ℕ → ℕ
unfolding index_of
find_first_of s c first = elim (index_of (drop first s) c) [ none ↦ npos | some i ↦ first + i ]

-- `substr`, which throws `out_of_range` where the position is behind the end.
abbrev pub substr : Bytes → ℕ → ℕ → Option Bytes
substr s first n = if ltb (length s) first then none else some (take n (drop first s))

-- The two `substr`, where `p` is a true value; none is the exception.
pub split_at : Bytes → ℕ → ℕ → Option (Bytes × Bytes)
split_at input first p = if p == 0 then some (input, []) else do
  left ← substr input first p
  right ← substr input ((p + 1) % 2 ^ 64) (length input)
  some (left, right)

-- Where there is no splitter `p` is npos, which is a true value too.
pub split : Bytes → ℕ → ℕ → Option (Bytes × Bytes)
unfolding find_first_of split_at
split [] splitter first = some ([], [])
split (x ∷ s) splitter first = split_at (x ∷ s) first (find_first_of (x ∷ s) splitter first)
