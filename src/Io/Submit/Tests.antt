-- ===== src/Io/Submit/Tests.antt =====
-- A request for https://a.b/c?d.
use xmlhttp_request.Prelude.{
  Bytes, [], codes, none, pos, refl, some, suc, true, ℕ, ◌*◌, ◌+◌, ◌∷◌, ◌≡◌,
}
use xmlhttp_request.Message.Header.{Fields}
use xmlhttp_request.Io.Sample.{connected}
use xmlhttp_request.Io.{Io}
use xmlhttp_request.Io.Submit.{
  Url, Library, lasting, temporary, Order, make_nv, make_nv_ls, request_nva,
}

abbrev address : Bytes
address = codes "https://a.b/c?d"

abbrev parsed : Url
parsed = record {
  schema = some (0, 5);
  host = some (8, 3);
  path = some (11, 2);
  query = some (14, 1);
  port = none;
}

-- A session that counts its requests, with the odd ids of a client.
abbrev counter : Library ℕ
counter = record {
  parse_url = λ url. some parsed;
  submit_request = λ n nva body. (suc n, pos (2 * n + 1));
}

abbrev fields : Fields
fields = (codes "x", record { value = codes "y"; sensitive = true }) ∷ []

sent_fields :
    request_nva parsed address (codes "GET") fields
    ≡ make_nv_ls (codes ":method") (temporary (codes "GET"))
      ∷ make_nv_ls (codes ":scheme") (lasting (codes "https"))
      ∷ make_nv_ls (codes ":path") (lasting (codes "/c?d"))
      ∷ make_nv (codes "x") (codes "y") true
      ∷ []
unfolding request_nva
sent_fields = refl

abbrev busy : Io ℕ
busy = record connected { writing = true; session = 0 }

abbrev order : Order
order = record { url = address; method = codes "GET"; header_ = fields; body = none }
