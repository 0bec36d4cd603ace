-- ===== src/Tls/Method.antt =====
-- source/httptlssession.cpp: `stringFromEnum` and `methodFromString`; include/utilities.h: `to_upper`.
pub mod Laws
pub mod Tests
use xmlhttp_request.Prelude.{
  Bool, Bytes, [], codes, false, if◌then◌else◌, leb, true, ℕ, ◌&&◌, ◌-◌, ◌==◌, ◌∷◌,
}

pub data Method : Type 0 where
  get post unknown : Method

unfoldable pub string_from_enum : Method → Bytes
string_from_enum Method.get = codes "GET"
string_from_enum Method.post = codes "POST"
string_from_enum Method.unknown = []

-- `toupper` in the C locale.
abbrev pub upper : ℕ → ℕ
upper c = if leb b'a' c && leb c b'z' then c - 32 else c

unfoldable pub to_upper : Bytes → Bytes
to_upper [] = []
to_upper (c ∷ s) = upper c ∷ to_upper s

-- `std::equal(key.begin(), key.end(), s.begin())` on a text that ends with a zero byte, which is in
-- no key: the comparison stops there at the latest.
pub equal : Bytes → Bytes → Bool
equal [] s = true
equal (k ∷ key) [] = false
equal (k ∷ key) (c ∷ s) = k == c && equal key s

unfoldable pub method_from_string : Bytes → Method
unfolding to_upper equal
method_from_string method =
    let uppercase = to_upper method in
    if equal (codes "GET") uppercase
    then Method.get
    else if equal (codes "POST") uppercase
    then Method.post
    else Method.unknown
