-- ===== src/Tls/Alpn/Tests.antt =====
-- The protocols of a concrete offer.
use xmlhttp_request.Prelude.{[], codes, none, refl, some, ◌++◌, ◌∷◌, ◌≡◌, Bytes, List}
use xmlhttp_request.Tls.Alpn.{client_select_next_proto_cb, select_h2, tls_h2_negotiated}
use xmlhttp_request.Tls.Alpn.Laws.{offer}
use xmlhttp_request.Tls.Alpn.Choice.{answer, best, is_some, client_select-offer}

select-h2 : select_h2 (8 ∷ codes "http/1.1" ++ (2 ∷ codes "h2")) ≡ some (codes "h2")
unfolding select_h2
select-h2 = refl

abbrev two_names : List Bytes
two_names = codes "http/1.1" ∷ codes "h2-16" ∷ []

client_select-offer_example :
    (client_select_next_proto_cb (offer two_names) ≡ answer (best two_names))
    × (tls_h2_negotiated (client_select_next_proto_cb (offer two_names)).1 none
        ≡ is_some (best two_names))
client_select-offer_example = client_select-offer two_names
