-- ===== src/Js/Uri/Tests.antt =====
-- The functions on URI components on concrete texts.
use xmlhttp_request.Prelude.{arith, codes, refl, ◌≡◌}
use xmlhttp_request.Js.Uri.{returns, encode_uri_component, decode_uri_component}
use xmlhttp_request.Js.Uri.Laws.{decode_uri_component-encode_uri_component}

encode-mixed : encode_uri_component (codes "a b/") ≡ codes "a+b%2f"
unfolding encode_uri_component
encode-mixed = refl

decode_uri_component-encode_uri_component_example :
    decode_uri_component (encode_uri_component (codes "a %")) ≡ returns (codes "a %")
decode_uri_component-encode_uri_component_example =
    decode_uri_component-encode_uri_component (codes "a %")
      (omega arith, (omega arith, (omega arith, tt)))
