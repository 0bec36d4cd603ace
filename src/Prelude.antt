-- ===== src/Prelude.antt =====
-- The names that the other modules share: the libraries', passed on, and those of the children.
-- A byte string (`std::string`, `std::string_view`, a pointer and a length) is a list of its bytes.
use Prim.Native.Char.{code}
use Prim.Native.String.{String}
mod Tests
mod Lists
unfoldable pub use Tests.*
pub use Lists.*
pub use Prim.Native.Nat.{ℕ, zero, suc, ◌+◌, ◌-◌, ◌*◌, ◌/◌, ◌%◌, ◌^◌, ◌≤◌, ◌<◌}
pub use mathlib.Core.Path.{◌≡◌, refl, sym, ap, ◌∙◌, subst}
pub use mathlib.Core.Logic.{◌≢◌, ◌↔◌, ◌⊎◌, inl, inr}
pub use mathlib.Core.Bool.{Bool, true, false, not, ◌&&◌, ◌||◌}
pub use mathlib.Core.Option.{Option, none, some}
pub use mathlib.Core.List.{List, [], ◌∷◌, ◌++◌, append-nil, append_assoc}
pub use native.Mathlib.Omega.{arith}

abbrev pub Bytes : Type 0
Bytes = List ℕ

-- The bytes of an ASCII literal.
abbrev pub codes : String → Bytes
codes String.[] = []
codes (String.◌∷◌ c s) = code c ∷ codes s

-- `int`, `int32_t` and `int64_t` values that may be negative; `negsuc n` is -(n + 1).
pub data ℤ : Type 0 where
  pos : ℕ → ℤ
  negsuc : ℕ → ℤ

-- The value -1, by which the code reports a failure.
abbrev pub minus_one : ℤ
minus_one = negsuc 0

abbrev pub IsByte : ℕ → Type 0
IsByte c = c < 256

-- The decimal digits, `isdigit` of the C locale.
abbrev pub is_digit : ℕ → Bool
is_digit c = leb b'0' c && leb c b'9'

abbrev pub IsDigit : ℕ → Type 0
IsDigit c = (b'0' ≤ c) × (c ≤ b'9')

-- The number that decimal digits spell behind `n`, with no bound.
abbrev pub decimal_from : ℕ → Bytes → ℕ
decimal_from n [] = n
decimal_from n (c ∷ s) = decimal_from (n * 10 + (c - b'0')) s

-- A `switch` whose labels are distinct: the entry of the label, or the default.
unfoldable pub switch_on {ℓ} : {A : Type ℓ} → ℕ → List (ℕ × A) → A → A
switch_on c [] d = d
switch_on c ((k, v) ∷ rows) d = if c == k then v else switch_on c rows d

-- A property of the default and of each row, at its label, holds of the result.
pub switch_on-All {ℓ κ} :
    {A : Type ℓ} (P : ℕ → A → Type κ) (c : ℕ) (rows : List (ℕ × A)) (d : A)
    → All (λ r. P r.0 r.1) rows
    → P c d
    → P c (switch_on c rows d)
unfolding switch_on
switch_on-All P c [] d h p = p
switch_on-All P c ((k, v) ∷ rows) d h p = elim (Bool-cases (c == k)) [
  | inl e ↦ rw (e, (==_iff c k).0 e) (h.0)
  | inr e ↦ rw e (switch_on-All P c rows d h.1 p)
]

-- A Boolean test on each item of a list.
unfoldable pub all_of {ℓ} : {A : Type ℓ} → (A → Bool) → List A → Bool
all_of p [] = true
all_of p (x ∷ xs) = p x && all_of p xs

pub all_of_sound {ℓ} :
    {A : Type ℓ} (p : A → Bool) (xs : List A) → all_of p xs ≡ true → All (λ x. p x ≡ true) xs
unfolding all_of
all_of_sound p [] h = tt
all_of_sound p (x ∷ xs) h = (ground arith, all_of_sound p xs (ground arith))

-- The numbers `limit - 1` to 0, each of which the test has to pass.
unfoldable pub passes_below : (ℕ → Bool) → ℕ → Bool
passes_below test zero = true
passes_below test (suc top) = passes_below test top && test top

pub passes_below_sound :
    (test : ℕ → Bool) (limit : ℕ)
    → passes_below test limit ≡ true
    → (k : ℕ) → k < limit
    → test k ≡ true
unfolding passes_below
passes_below_sound test zero passed k small = absurd (omega arith)
passes_below_sound test (suc top) passed k small =
    ground (arith, passes_below_sound test top (ground arith) k)

-- A test that the default and each row pass, at its label, is passed by the result.
pub switch_on-test {ℓ} :
    {A : Type ℓ} (p : ℕ → A → Bool) (c : ℕ) (rows : List (ℕ × A)) (d : A)
    → all_of (λ r. p r.0 r.1) rows ≡ true
    → p c d ≡ true
    → p c (switch_on c rows d) ≡ true
unfolding switch_on all_of
switch_on-test p c [] d h q = q
switch_on-test p c ((k, v) ∷ rows) d h q = elim (Bool-cases (c == k)) [
  | inl e ↦ rw (e, (==_iff c k).0 e) (ground arith)
  | inr e ↦ rw e (switch_on-test p c rows d (ground arith) q)
]

pub false≢true : false ≢ true
false≢true e = cc
