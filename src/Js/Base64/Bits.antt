-- ===== src/Js/Base64/Bits.antt =====
-- The bit fields of one round of base64, as sums.
use Prim.Native.Nat.{bit_and, bit_or}
use xmlhttp_request.Prelude.{
  ==_iff, Bool, passes_below, passes_below_sound, refl, true, ℕ, ◌%◌, ◌*◌, ◌+◌, ◌<◌, ◌==◌, ◌≡◌,
}

-- A test on each pair of numbers below two bounds.
all_pairs : ℕ → ℕ → (ℕ → ℕ → Bool) → Bool
all_pairs m n p = passes_below (λ x. passes_below (p x) n) m

all_pairs_sound :
    (m n : ℕ) (p : ℕ → ℕ → Bool) (x y : ℕ) → all_pairs m n p ≡ true → x < m → y < n → p x y ≡ true
unfolding all_pairs
all_pairs_sound m n p x y h hx hy =
    passes_below_sound (p x) n (passes_below_sound (λ z. passes_below (p z) n) m h x hx) y hy

and_3_table : passes_below (λ x. bit_and 3 x == x % 4) 256 ≡ true
unfolding passes_below
and_3_table = refl

and_15_table : passes_below (λ x. bit_and 15 x == x % 16) 256 ≡ true
unfolding passes_below
and_15_table = refl

and_63_table : passes_below (λ x. bit_and 63 x == x % 64) 256 ≡ true
unfolding passes_below
and_63_table = refl

or_4_table : all_pairs 64 4 (λ x y. bit_or (x * 4) y == x * 4 + y) ≡ true
unfolding all_pairs passes_below
or_4_table = refl

or_high_table : all_pairs 16 16 (λ x y. bit_or (x * 16) y == x * 16 + y) ≡ true
unfolding all_pairs passes_below
or_high_table = refl

or_64_table : all_pairs 4 64 (λ x y. bit_or (x * 64) y == x * 64 + y) ≡ true
unfolding all_pairs passes_below
or_64_table = refl

pub bit_and_3 : (x : ℕ) → x < 256 → bit_and 3 x ≡ x % 4
bit_and_3 x h = (==_iff _ _).0 (passes_below_sound _ 256 and_3_table x h)

pub bit_and_15 : (x : ℕ) → x < 256 → bit_and 15 x ≡ x % 16
bit_and_15 x h = (==_iff _ _).0 (passes_below_sound _ 256 and_15_table x h)

pub bit_and_63 : (x : ℕ) → x < 256 → bit_and 63 x ≡ x % 64
bit_and_63 x h = (==_iff _ _).0 (passes_below_sound _ 256 and_63_table x h)

pub bit_or_16 : (x y : ℕ) → x < 16 → y < 16 → bit_or (x * 16) y ≡ x * 16 + y
bit_or_16 x y h k = (==_iff _ _).0 (all_pairs_sound 16 16 _ x y or_high_table h k)

pub bit_or_4 : (x y : ℕ) → x < 64 → y < 4 → bit_or (x * 4) y ≡ x * 4 + y
bit_or_4 x y h k = (==_iff _ _).0 (all_pairs_sound 64 4 _ x y or_4_table h k)

pub bit_or_64 : (x y : ℕ) → x < 4 → y < 64 → bit_or (x * 64) y ≡ x * 64 + y
bit_or_64 x y h k = (==_iff _ _).0 (all_pairs_sound 4 64 _ x y or_64_table h k)
