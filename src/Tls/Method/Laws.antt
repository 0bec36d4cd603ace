-- ===== src/Tls/Method/Laws.antt =====
-- Which texts are taken for a method.
use xmlhttp_request.Prelude.{Bytes, [], arith, codes, refl, ℕ, ◌++◌, ◌+◌, ◌∷◌, ◌≡◌, ◌≢◌, ◌⊎◌}
use xmlhttp_request.Tls.Method.{Method, string_from_enum, to_upper, equal, method_from_string}

cons-ne-nil : {c : ℕ} {s : Bytes} → c ∷ s ≢ []
cons-ne-nil e = cc

-- The text in either case, character by character.
abbrev pub IsCaseOf : Bytes → Bytes → Type 0
IsCaseOf [] s = s ≡ []
IsCaseOf (k ∷ key) [] = ⊥
IsCaseOf (k ∷ key) (c ∷ s) = ((c ≡ k) ⊎ (c ≡ k + 32)) × IsCaseOf key s

is_get : (s rest : Bytes) → IsCaseOf (codes "GET") s → method_from_string (s ++ rest) ≡ Method.get
unfolding method_from_string to_upper equal
is_get [] rest h = absurd h
is_get (a ∷ []) rest h = absurd h.1
is_get (a ∷ b ∷ []) rest h = absurd h.1.1
is_get (a ∷ b ∷ c ∷ []) rest (ha, (hb, (hc, e))) = ground arith
is_get (a ∷ b ∷ c ∷ d ∷ s) rest (ha, (hb, (hc, e))) = absurd (cons-ne-nil e)

is_post :
    (s rest : Bytes) → IsCaseOf (codes "POST") s → method_from_string (s ++ rest) ≡ Method.post
unfolding method_from_string to_upper equal
is_post [] rest h = absurd h
is_post (a ∷ []) rest h = absurd h.1
is_post (a ∷ b ∷ []) rest h = absurd h.1.1
is_post (a ∷ b ∷ c ∷ []) rest h = absurd h.1.1.1
is_post (a ∷ b ∷ c ∷ d ∷ []) rest (ha, (hb, (hc, (hd, e)))) = ground arith
is_post (a ∷ b ∷ c ∷ d ∷ x ∷ s) rest (ha, (hb, (hc, (hd, e)))) = absurd (cons-ne-nil e)

-- A text that begins with the text of a method, GET or POST, in any mixture of cases, is taken for
-- this method, whatever follows.
pub method_from_string_lem :
    (s rest : Bytes) (m : Method)
    → m ≢ Method.unknown
    → IsCaseOf (string_from_enum m) s
    → method_from_string (s ++ rest) ≡ m
unfolding string_from_enum
method_from_string_lem s rest Method.get ne h = is_get s rest h
method_from_string_lem s rest Method.post ne h = is_post s rest h
method_from_string_lem s rest Method.unknown ne h = absurd (ne refl)
