-- ===== src/Tls/Alpn/Laws.antt =====
-- The choice among the protocols that the peer offers.
use xmlhttp_request.Prelude.{
  ==_iff, Bool, Bool-cases, Bytes, List, [], ap, arith, false, false≢true, if◌then◌else◌, inl, inr,
  length, length-append, none, refl, some, str_eq, str_eq_sound, suc, true, zero, ℕ, ◌++◌, ◌<◌,
  ◌==◌, ◌||◌, ◌∷◌, ◌≡◌, ◌≢◌, drop-append, ◌∙◌, leb, sym, take-append,
}
use xmlhttp_request.Tls.Alpn.{equal_at, entry, next, select_loop, select_proto}

-- The offer on the wire: each name behind a byte with its length.
pub offer : List Bytes → Bytes
offer [] = []
offer (name ∷ names) = length name ∷ (name ++ offer names)

pub offers : Bytes → List Bytes → Bool
offers name [] = false
offers name (q ∷ names) = str_eq name q || offers name names

equal_at-entry :
    (name q rest : Bytes) → length name ≡ length q → equal_at name (q ++ rest) ≡ str_eq name q
unfolding equal_at str_eq
equal_at-entry [] [] rest h = refl
equal_at-entry (c ∷ name) [] rest h = absurd (omega arith)
equal_at-entry [] (d ∷ q) rest h = absurd (omega arith)
equal_at-entry (c ∷ name) (d ∷ q) rest h = ground (arith, equal_at-entry name q rest (omega arith))

str_eq-length : (name q : Bytes) → length name ≢ length q → str_eq name q ≡ false
str_eq-length name q ne = elim (Bool-cases (str_eq name q)) [
  | inl e ↦ absurd (ne (ap length (str_eq_sound name q e)))
  | inr e ↦ e
]

-- At the head of an offer the key is found exactly where the name is the first one.
equal_at-offer :
    (name q : Bytes) (names : List Bytes)
    → equal_at (length name ∷ name) (offer (q ∷ names)) ≡ str_eq name q
unfolding equal_at offer
equal_at-offer name q names = elim (Bool-cases (length name == length q)) [
  | inl e ↦ rw e (equal_at-entry name q (offer names) ((==_iff (length name) (length q)).0 e))
  | inr e ↦ rw (e, str_eq-length name q (λ p. ground arith)) refl
]

-- An offer that has the name is long enough for its key.
offers-length :
    (name : Bytes) (names : List Bytes)
    → offers name names ≡ true
    → length name < length (offer names)
unfolding offers offer
offers-length name [] h = absurd (false≢true h)
offers-length name (q ∷ names) h = elim (Bool-cases (str_eq name q)) [
  | inl e ↦ omega (arith, ap length (str_eq_sound name q e), length-append q (offer names))
  | inr e ↦ omega (arith, offers-length name names (rw e at h), length-append q (offer names))
]

next-offer : (q : Bytes) (names : List Bytes) → next (offer (q ∷ names)) ≡ offer names
unfolding offer
next-offer q names = drop-append q (offer names)

pick :
    (fits same others : Bool) (found name : Bytes)
    → ((same || others) ≡ true → fits ≡ true)
    → (same ≡ true → found ≡ name)
    → (if fits then (if same then some found else (if others then some name else none)) else none)
      ≡ (if same || others then some name else none)
pick true true others found name long right = ap some (right refl)
pick true false others found name long right = refl
pick false true others found name long right = absurd (false≢true (long refl))
pick false false true found name long right = absurd (false≢true (long refl))
pick false false false found name long right = refl

entry-offer : (q : Bytes) (names : List Bytes) → entry (offer (q ∷ names)) ≡ q
unfolding offer
entry-offer q names = take-append q (offer names)

long_enough :
    (name q : Bytes) (names : List Bytes)
    → length name < length (offer (q ∷ names))
    → leb (length (length name ∷ name)) (length (offer (q ∷ names))) ≡ true
long_enough name q names h = ground arith

shorter :
    (q : Bytes) (names : List Bytes) (fuel : ℕ)
    → length (offer (q ∷ names)) < suc fuel
    → length (offer names) < fuel
unfolding offer
shorter q names fuel h = omega (arith, length-append q (offer names))

select_loop-offer :
    (fuel : ℕ) (name : Bytes) (names : List Bytes)
    → length (offer names) < fuel
    → select_loop fuel (length name ∷ name) (offer names)
      ≡ (if offers name names then some name else none)
unfolding select_loop offers
select_loop-offer zero name names h = absurd (omega arith)
select_loop-offer (suc fuel) name [] h = unfold offer offers in ground arith
select_loop-offer (suc fuel) name (q ∷ names) h =
    let step : select_loop fuel (length name ∷ name) (next (offer (q ∷ names)))
        ≡ (if offers name names then some name else none) =
      ap (select_loop fuel (length name ∷ name)) (next-offer q names)
      ∙ select_loop-offer fuel name names (shorter q names fuel h) in
    rw (equal_at-offer name q names, step)
      (pick (leb (length (length name ∷ name)) (length (offer (q ∷ names)))) (str_eq name q)
        (offers name names) (entry (offer (q ∷ names))) name
        (λ e. long_enough name q names (offers-length name (q ∷ names) e))
        (λ e. entry-offer q names ∙ sym (str_eq_sound name q e)))

-- On the offer of any list of names, a protocol is chosen exactly where the peer offers it.
pub select_proto-offer :
    (name : Bytes) (names : List Bytes)
    → select_proto (offer names) (length name ∷ name)
      ≡ (if offers name names then some name else none)
unfolding select_proto
select_proto-offer name names =
    select_loop-offer (suc (length (offer names))) name names (omega arith)
