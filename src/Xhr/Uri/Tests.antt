-- ===== src/Xhr/Uri/Tests.antt =====
-- An address with a port and one without.
use xmlhttp_request.Prelude.{arith, codes, false, refl, some, true, ◌++◌, ◌≡◌, str_eq}
use xmlhttp_request.Xhr.Uri.{Regex, Elements, proccess_uri, fetch_uri}
use xmlhttp_request.Xhr.Uri.Laws.{fetch_uri-proccess_uri}

abbrev found : Regex
found = record {
  search = λ uri. some (codes "https", codes "a.org:8443", codes "/x");
  check_host_port = λ s. true;
}

abbrev no_port : Regex
no_port = record {
  search = λ uri. some (codes "https", codes "a.org", codes "/x");
  check_host_port = λ s. false;
}

default-port :
    proccess_uri no_port (codes "https://a.org/x")
    ≡ some (record {
      addr = codes "a.org";
      port = codes "443";
      protocol = codes "https";
      urn = codes "/x";
    })
unfolding proccess_uri str_eq
default-port = refl

fetch_uri-proccess_uri_example :
    (e : Elements) × (proccess_uri found (codes "https://a.org:8443/x") ≡ some e)
    × (e.addr ≡ codes "a.org")
    × (e.port ≡ codes "8443")
    × (fetch_uri e
        ≡ codes "https"
          ++ (codes "://" ++ (codes "a.org" ++ (codes ":" ++ codes "8443") ++ codes "/x")))
fetch_uri-proccess_uri_example =
    fetch_uri-proccess_uri found (codes "https://a.org:8443/x") (codes "https") (codes "a.org")
      (codes "8443") (codes "/x") refl refl
      (
        (omega arith, omega arith),
        (
          (omega arith, omega arith),
          ((omega arith, omega arith), ((omega arith, omega arith), tt)),
        ),
      )
      (λ e. cc) (λ e. cc) (λ e. cc)
