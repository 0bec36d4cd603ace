-- ===== src/Message/Header.antt =====
-- source/httpheader.cpp, include/httpheader.h and include/httpheadervalue.h: the header fields, a
-- `std::multimap` from names to values. Iteration is in the order of the list.
pub mod Order
pub mod Laws
pub mod Tests
use xmlhttp_request.Prelude.{
  Bool, Bytes, List, Option, [], false, if◌then◌else◌, ltb, none, some, str_eq, true, ◌&&◌, ◌==◌,
  ◌||◌, ◌∷◌,
}

pub record HeaderValue : Type 0 where
  pub value : Bytes
  pub sensitive : Bool

abbrev pub Fields : Type 0
Fields = List (Bytes × HeaderValue)

-- `operator<` of `std::string`: lexicographic, by unsigned bytes.
pub str_lt : Bytes → Bytes → Bool
str_lt [] [] = false
str_lt [] (d ∷ t) = true
str_lt (c ∷ s) [] = false
str_lt (c ∷ s) (d ∷ t) = ltb c d || (c == d && str_lt s t)

-- An equal key goes behind those that are there: before the first key that is greater.
pub emplace : Bytes → HeaderValue → Fields → Fields
unfolding str_lt
emplace name v [] = (name, v) ∷ []
emplace name v ((k, w) ∷ fields) =
    if str_lt name k then (name, v) ∷ (k, w) ∷ fields else (k, w) ∷ emplace name v fields

-- `std::find_if` by name, in the order of iteration.
pub find_field : Bytes → Fields → Option HeaderValue
unfolding str_eq
find_field name [] = none
find_field name ((k, w) ∷ fields) = if str_eq k name then some w else find_field name fields

-- The assignment through the iterator that `find_field` found.
pub assign_field : Bytes → Bytes → Fields → Fields
unfolding str_eq
assign_field name value [] = []
assign_field name value ((k, w) ∷ fields) =
    if str_eq k name
    then (k, record w { value = value }) ∷ fields
    else (k, w) ∷ assign_field name value fields
