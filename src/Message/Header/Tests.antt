-- ===== src/Message/Header/Tests.antt =====
-- The header fields on concrete names.
use xmlhttp_request.Prelude.{[], codes, false, refl, true, ◌∷◌, ◌≡◌}
use xmlhttp_request.Message.Header.{HeaderValue, Fields, emplace}

abbrev v1 : HeaderValue
v1 = record { value = codes "1"; sensitive = false }

abbrev v2 : HeaderValue
v2 = record { value = codes "2"; sensitive = true }

abbrev one_field : Fields
one_field = (codes "b", v1) ∷ []

two_fields : emplace (codes "a") v2 one_field ≡ (codes "a", v2) ∷ (codes "b", v1) ∷ []
unfolding emplace
two_fields = refl
