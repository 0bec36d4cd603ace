-- ===== src/Http2/Token/Tests.antt =====
-- The header names on concrete texts.
use xmlhttp_request.Prelude.{codes, none, refl, some, ◌↔◌, ◌≡◌}
use xmlhttp_request.Http2.Token.{lookup_token, hd_host, hd_te}
use xmlhttp_request.Http2.Token.Laws.{header_name, lookup_token-eq-some_iff}

lookup-te : lookup_token (codes "te") ≡ some hd_te
unfolding lookup_token
lookup-te = refl

lookup-tf : lookup_token (codes "tf") ≡ none
unfolding lookup_token
lookup-tf = refl

lookup_token-eq-some_iff_example :
    (lookup_token (codes "host") ≡ some hd_host) ↔ (codes "host" ≡ header_name hd_host)
lookup_token-eq-some_iff_example = lookup_token-eq-some_iff (codes "host") hd_host
