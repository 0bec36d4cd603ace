-- ===== src/Tls/Method/Tests.antt =====
-- The methods on concrete texts.
use xmlhttp_request.Prelude.{codes, refl, ◌≡◌}
use xmlhttp_request.Tls.Method.{Method, method_from_string}

method-getaway : method_from_string (codes "getaway") ≡ Method.get
unfolding method_from_string
method-getaway = refl

method-put : method_from_string (codes "PUT") ≡ Method.unknown
unfolding method_from_string
method-put = refl
