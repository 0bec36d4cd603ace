-- ===== src/Xhr/Tests.antt =====
-- A request that is opened, and opened again.
use xmlhttp_request.Prelude.{
  List, [], arith, codes, false, none, refl, some, true, ◌++◌, ◌∷◌, ◌≡◌, str_eq,
}
use xmlhttp_request.Js.Base64.Encode.{base64}
use xmlhttp_request.Message.Header.Laws.{values_of}
use xmlhttp_request.Session.{ReadyState}
use xmlhttp_request.Xhr.Uri.{Regex, Elements, proccess_uri}
use xmlhttp_request.Xhr.{
  Xhr, is_opened, open_user, Op, opens, sets_timeout, sends, opens_as, state_comes, run,
}
use xmlhttp_request.Xhr.Laws.{run-opened, open_user-authorization}

abbrev regex : Regex
regex = record {
  search = λ uri. some (codes "https", codes "a.org", codes "/");
  check_host_port = λ s. false;
}

abbrev parts : Elements
parts = record {
  addr = codes "a.org";
  port = codes "443";
  protocol = codes "https";
  urn = codes "/";
}

parts-found : proccess_uri regex (codes "https://a.org/") ≡ some parts
unfolding proccess_uri str_eq
parts-found = refl

abbrev blank : Xhr
blank = record {
  has_session = false;
  has_state_callback = false;
  is_async = false;
  elements = record { addr = []; port = []; protocol = []; urn = [] };
  method = [];
  header_ = [];
  response = none;
  ready_state = ReadyState.unsent;
  timeout = 500;
  has_timer = false;
}

abbrev opened : Xhr
opened = record blank {
  has_session = true;
  has_state_callback = true;
  ready_state = ReadyState.opened;
  has_timer = true;
}

abbrev ops : List Op
ops =
    sets_timeout 9
    ∷ opens true (codes "get") (codes "https://a.org/") false
    ∷ state_comes ReadyState.done
    ∷ sets_timeout 7
    ∷ sends
    ∷ opens_as true (codes "get") (codes "https://a.org/") false (codes "u") (codes "p")
    ∷ []

run-opened_example :
    (is_opened (run regex opened ops).ready_state ≡ true)
    × ((run regex opened ops).timeout ≡ opened.timeout)
    × ((run regex opened ops).has_timer ≡ opened.has_timer)
run-opened_example = run-opened regex opened ops refl (tt, (tt, (refl, (tt, (tt, (tt, tt))))))

open_user-authorization_example :
    values_of
      (codes "Authorization")
      (open_user regex true
        (codes "get")
        (codes "https://a.org/")
        false
        (codes "u")
        (codes "p")
        blank).header_
    ≡ values_of (codes "Authorization") blank.header_
      ++ record {
        value = codes "Basic " ++ base64 (codes "u" ++ b':' ∷ codes "p");
        sensitive = false;
      }
        ∷ []
open_user-authorization_example =
    open_user-authorization regex true (codes "get") (codes "https://a.org/") false (codes "u")
      (codes "p") blank (omega arith, tt) (omega arith, tt) tt
