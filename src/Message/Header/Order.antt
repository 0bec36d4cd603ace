-- ===== src/Message/Header/Order.antt =====
-- The order of names is a strict order, which the multimap keeps.
use xmlhttp_request.Prelude.{
  Bool-cases, Bytes, [], arith, false, false≢true, inl, inr, refl, sym, true, ◌∙◌, ◌∷◌, ◌≡◌,
}
use xmlhttp_request.Message.Header.{str_lt}

pub str_lt_irrefl : (s : Bytes) → str_lt s s ≡ false
unfolding str_lt
str_lt_irrefl [] = refl
str_lt_irrefl (c ∷ s) = ground (arith, str_lt_irrefl s)

pub str_lt_trans : (s t u : Bytes) → str_lt s t ≡ true → str_lt t u ≡ true → str_lt s u ≡ true
unfolding str_lt
str_lt_trans [] [] u h k = cc
str_lt_trans [] (d ∷ t) [] h k = cc
str_lt_trans [] (d ∷ t) (e ∷ u) h k = refl
str_lt_trans (c ∷ s) [] u h k = cc
str_lt_trans (c ∷ s) (d ∷ t) [] h k = cc
str_lt_trans (c ∷ s) (d ∷ t) (e ∷ u) h k = ground (arith, str_lt_trans s t u)

-- Of two names neither less than the other is equal to it.
pub str_lt_asym : (s t : Bytes) → str_lt s t ≡ true → str_lt t s ≡ false
str_lt_asym s t h = elim (Bool-cases (str_lt t s)) [
  | inl k ↦ absurd (false≢true (sym (str_lt_irrefl s) ∙ str_lt_trans s t s h k))
  | inr k ↦ k
]
