-- ===== src/Message/Header/Laws.antt =====
-- The multimap against its abstract view: for each name the values in the order of insertion.
use xmlhttp_request.Prelude.{
  All, Bool-cases, Bytes, List, [], ap, arith, false, false≢true, if◌then◌else◌, inl, inr, refl,
  str_eq, str_eq_refl, str_eq_sound, sym, true, ◌++◌, ◌∙◌, ◌∷◌, ◌≡◌, ◌≢◌, Option, none, some,
}
use xmlhttp_request.Message.Header.{HeaderValue, Fields, str_lt, emplace, find_field}
use xmlhttp_request.Message.Header.Order.{str_lt_irrefl}

-- The values of a name, in the order of iteration.
pub values_of : Bytes → Fields → List HeaderValue
values_of name [] = []
values_of name ((k, w) ∷ fields) =
    if str_eq k name then w ∷ values_of name fields else values_of name fields

-- No key is less than one before it.
abbrev pub NotBelow : Bytes → Fields → Type 0
NotBelow k = All (λ f. str_lt f.0 k ≡ false)

abbrev pub IsSorted : Fields → Type 0
IsSorted [] = Unit
IsSorted ((k, w) ∷ fields) = NotBelow k fields × IsSorted fields

lt-ne : (name k : Bytes) → str_lt name k ≡ true → str_eq k name ≡ false
lt-ne name k h = elim (Bool-cases (str_eq k name)) [
  | inl e ↦
      absurd
        (false≢true (sym (str_lt_irrefl name) ∙ ap (str_lt name) (sym (str_eq_sound k name e)) ∙ h))
  | inr e ↦ e
]

-- A name less than all keys has no value.
values_of_below :
    (k name : Bytes) (fields : Fields)
    → str_lt name k ≡ true
    → NotBelow k fields
    → values_of name fields ≡ []
unfolding values_of
values_of_below k name [] h b = refl
values_of_below k name ((j, w) ∷ fields) h (bj, bs) = elim (Bool-cases (str_eq j name)) [
  | inl e ↦ absurd (false≢true (sym bj ∙ ap (λ s. str_lt s k) (str_eq_sound j name e) ∙ h))
  | inr e ↦ rw e (values_of_below k name fields h bs)
]

pub values_of-emplace_self :
    (name : Bytes) (v : HeaderValue) (fields : Fields)
    → IsSorted fields
    → values_of name (emplace name v fields) ≡ values_of name fields ++ v ∷ []
unfolding emplace values_of
values_of-emplace_self name v [] h = rw (str_eq_refl name)
values_of-emplace_self name v ((k, w) ∷ fields) (b, s) = elim (Bool-cases (str_lt name k)) [
  | inl e ↦ rw (e, str_eq_refl name, lt-ne name k e, values_of_below k name fields e b)
  | inr e ↦ rw e (elim (Bool-cases (str_eq k name)) [
    | inl q ↦ rw q (ap (◌∷◌ w) (values_of-emplace_self name v fields s))
    | inr q ↦ rw q (values_of-emplace_self name v fields s)
  ])
]

values_of-emplace_ne :
    (name other : Bytes) (v : HeaderValue) (fields : Fields)
    → other ≢ name
    → values_of other (emplace name v fields) ≡ values_of other fields
unfolding emplace values_of
values_of-emplace_ne name other v [] ne = ground (arith, str_eq_sound name other)
values_of-emplace_ne name other v ((k, w) ∷ fields) ne =
    ground (arith, str_eq_sound name other, values_of-emplace_ne name other v fields ne)

abbrev first : List HeaderValue → Option HeaderValue
first [] = none
first (v ∷ vs) = some v

find_field-first :
    (name : Bytes) (fields : Fields) → find_field name fields ≡ first (values_of name fields)
unfolding find_field values_of
find_field-first name [] = refl
find_field-first name ((k, w) ∷ fields) = ground (arith, find_field-first name fields)

-- The first of what is there, or else the new value.
abbrev pub or_else : Option HeaderValue → HeaderValue → HeaderValue
or_else none v = v
or_else (some w) v = w

first-append :
    (vs : List HeaderValue) (v : HeaderValue) → first (vs ++ v ∷ []) ≡ some (or_else (first vs) v)
first-append [] v = refl
first-append (u ∷ vs) v = refl

-- A search by name finds the value that was inserted first, and later ones of that name do not
-- hide it; a name that had no value has the new one, and the search for another name is not changed.
pub find_field-emplace :
    (name other : Bytes) (v : HeaderValue) (fields : Fields)
    → IsSorted fields
    → other ≢ name
    → (find_field name (emplace name v fields) ≡ some (or_else (find_field name fields) v))
      × (find_field other (emplace name v fields) ≡ find_field other fields)
find_field-emplace name other v fields s ne = (
  find_field-first name (emplace name v fields)
      ∙ ap first (values_of-emplace_self name v fields s)
      ∙ first-append (values_of name fields) v
      ∙ ap (λ w. some (or_else w v)) (sym (find_field-first name fields)),
  find_field-first other (emplace name v fields)
      ∙ ap first (values_of-emplace_ne name other v fields ne)
      ∙ sym (find_field-first other fields),
)
