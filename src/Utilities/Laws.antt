-- ===== src/Utilities/Laws.antt =====
-- What `split` makes of a text with a splitter, without one and with one at its start.
use xmlhttp_request.Prelude.{
  take-append, Option, ◌∙◌, length-append, ==_self, take, drop, ltb, ◌≤◌, ap, ◌+◌, ◌%◌, ◌^◌, All,
  Bytes, [], length, some, ℕ, ◌++◌, ◌<◌, ◌==◌, ◌∷◌, ◌≡◌, ◌≢◌, false, refl, arith, none, suc, zero,
}
use xmlhttp_request.Utilities.{npos, index_of, find_first_of, substr, split, split_at, ◌>>=◌}

index_of-none : (a : Bytes) (c : ℕ) → All (λ x. (x == c) ≡ false) a → index_of a c ≡ none
unfolding index_of
index_of-none [] c h = refl
index_of-none (x ∷ a) c (hx, h) = rw (hx, index_of-none a c h) refl

index_of-append :
    (a b : Bytes) (c : ℕ)
    → All (λ x. (x == c) ≡ false) a
    → index_of (a ++ c ∷ b) c ≡ some (length a)
unfolding index_of
index_of-append [] b c h = rw (==_self c) refl
index_of-append (x ∷ a) b c (hx, h) = rw (hx, index_of-append a b c h) refl

take-all : (n : ℕ) (s : Bytes) → length s ≤ n → take n s ≡ s
take-all zero [] h = refl
take-all zero (x ∷ s) h = absurd (omega arith)
take-all (suc n) [] h = refl
take-all (suc n) (x ∷ s) h = ap (◌∷◌ x) (take-all n s (omega arith))

drop-behind : (a b : Bytes) (c : ℕ) → drop (suc (length a)) (a ++ c ∷ b) ≡ b
drop-behind [] b c = refl
drop-behind (x ∷ a) b c = drop-behind a b c

-- The part in front of a position.
substr-front : (s : Bytes) (n : ℕ) → substr s 0 n ≡ some (take n s)
substr-front s n = let front : ltb (length s) 0 ≡ false = ground arith in rw front refl

-- The part behind a splitter.
substr-behind :
    (a b : Bytes) (c n : ℕ) → length b ≤ n → substr (a ++ c ∷ b) (suc (length a)) n ≡ some b
substr-behind a b c n h =
    let inside : ltb (length (a ++ c ∷ b)) (suc (length a)) ≡ false =
      ground (arith, length-append a (c ∷ b)) in
    rw (inside, drop-behind a b c, take-all n b h) refl

-- The two parts around a splitter at a position that is not 0.
split_at-apart :
    (x : ℕ) (a b : Bytes) (c : ℕ)
    → length (x ∷ a ++ c ∷ b) < npos
    → split_at (x ∷ a ++ c ∷ b) 0 (suc (length a)) ≡ some (x ∷ a, b)
unfolding split_at
split_at-apart x a b c small =
    let whole : length (a ++ c ∷ b) ≡ length a + suc (length b) = length-append a (c ∷ b) in
    let behind : (suc (length a) + 1) % 2 ^ 64 ≡ suc (length (x ∷ a)) = ground arith in
    let nonzero : (suc (length a) == 0) ≡ false = ground arith in
    rw
      (
        nonzero,
        substr-front (x ∷ a ++ c ∷ b) (suc (length a)),
        behind,
        substr-behind (x ∷ a) b c (length (x ∷ a ++ c ∷ b)) (omega arith),
        take-append (x ∷ a) (c ∷ b),
      )
      refl

-- All of a text, where at least as many bytes are asked for.
substr-all : (s : Bytes) (n : ℕ) → length s ≤ n → substr s 0 n ≡ some s
substr-all s n h = substr-front s n ∙ ap some (take-all n s h)

-- Behind npos `p + 1` is 0 again.
split_at-npos :
    (x : ℕ) (a : Bytes) → length (x ∷ a) < npos → split_at (x ∷ a) 0 npos ≡ some (x ∷ a, x ∷ a)
unfolding split_at
split_at-npos x a small =
    let s = x ∷ a in
    ap (λ o. o >>= λ left. substr s 0 (length s) >>= λ right. some (left, right))
      (substr-all s npos (omega arith))
    ∙ ap (λ o. o >>= λ right. some (s, right)) (substr-all s (length s) (omega arith))

abbrev position : Option ℕ → ℕ
position o = elim o [ none ↦ npos | some i ↦ 0 + i ]

split-apart :
    (x : ℕ) (a b : Bytes) (c : ℕ)
    → All (λ y. (y == c) ≡ false) (x ∷ a)
    → length (x ∷ a ++ c ∷ b) < npos
    → split (x ∷ a ++ c ∷ b) c 0 ≡ some (x ∷ a, b)
unfolding split find_first_of
split-apart x a b c h small =
    ap (λ o. split_at (x ∷ a ++ c ∷ b) 0 (position o)) (index_of-append (x ∷ a) b c h)
    ∙ ap (split_at (x ∷ a ++ c ∷ b) 0)
        (let n : 0 + length (x ∷ a) ≡ suc (length a) = omega arith in n)
    ∙ split_at-apart x a b c small

split-whole :
    (x : ℕ) (a : Bytes) (c : ℕ)
    → All (λ y. (y == c) ≡ false) (x ∷ a)
    → length (x ∷ a) < npos
    → split (x ∷ a) c 0 ≡ some (x ∷ a, x ∷ a)
unfolding split find_first_of
split-whole x a c h small =
    ap (λ o. split_at (x ∷ a) 0 (position o)) (index_of-none (x ∷ a) c h) ∙ split_at-npos x a small

split-start : (b : Bytes) (c : ℕ) → split (c ∷ b) c 0 ≡ some (c ∷ b, [])
unfolding split find_first_of split_at
split-start b c = ap (λ o. split_at (c ∷ b) 0 (position o)) (index_of-append [] b c tt)

-- Split at a character from the start, a text is cut in two around the first one, where that is not
-- at the start; a text that begins with the character is given whole with nothing behind it; and a
-- text without the character, if it is not empty, is given twice. For texts shorter than npos.
pub split_lem :
    (a b : Bytes) (c : ℕ)
    → All (λ y. (y == c) ≡ false) a
    → a ≢ []
    → length (a ++ c ∷ b) < npos
    → (split (a ++ c ∷ b) c 0 ≡ some (a, b))
      × (split (c ∷ b) c 0 ≡ some (c ∷ b, []))
      × (split a c 0 ≡ some (a, a))
split_lem [] b c h ne small = absurd (ne refl)
split_lem (x ∷ a) b c h ne small =
    let whole : length (a ++ c ∷ b) ≡ length a + suc (length b) = length-append a (c ∷ b) in
    (split-apart x a b c h small, split-start b c, split-whole x a c h (omega arith))
