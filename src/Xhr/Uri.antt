-- ===== src/Xhr/Uri.antt =====
-- source/xmlhttprequest_impl.cpp: `proccessUri`, and the address that `fetch` of
-- source/xmlhttprequest.cpp asks for. The two regular expressions are parameters.
pub mod Laws
pub mod Tests
use xmlhttp_request.Prelude.{
  Bool, Bytes, Option, [], codes, false, if◌then◌else◌, none, some, str_eq, true, ℕ, ◌++◌, ◌==◌,
  ◌||◌, ◌∷◌,
}

-- `regex_search` with `protoIpPortUrlRegex`, by its three groups, and `regex_match` with
-- `checkHostPort`.
pub record Regex : Type 0 where
  pub search : Bytes → Option (Bytes × Bytes × Bytes)
  pub check_host_port : Bytes → Bool

-- `Elements`.
pub record Elements : Type 0 where
  pub addr : Bytes
  pub port : Bytes
  pub protocol : Bytes
  pub urn : Bytes

abbrev pub is_empty : Bytes → Bool
is_empty [] = true
is_empty (c ∷ s) = false

abbrev put_front : ℕ → Option (Bytes × Bytes) → Option (Bytes × Bytes)
put_front c none = none
put_front c (some (a, b)) = some (c ∷ a, b)

-- What stands before a colon that comes first, if the rest has none.
abbrev here_or : ℕ → Bytes → Option (Bytes × Bytes) → Option (Bytes × Bytes)
here_or c s (some (a, b)) = put_front c (some (a, b))
here_or c s none = if c == b':' then some ([], s) else none

-- `find_last_of(":")` with `substr` and `erase`: what stands before and behind the last colon.
pub split_last_colon : Bytes → Option (Bytes × Bytes)
split_last_colon [] = none
split_last_colon (c ∷ s) = here_or c s (split_last_colon s)

-- The address and the port, which is empty where none was found.
pub split_port : Regex → Bytes → Bytes × Bytes
unfolding split_last_colon
split_port regex url_addr =
    if regex.check_host_port url_addr
    then elim (split_last_colon url_addr) [ none ↦ (url_addr, []) | some (a, p) ↦ (a, p) ]
    else (url_addr, [])

pub port_or_default : Bytes → Bytes → Bytes
port_or_default protocol port =
    if is_empty port
    then (if str_eq protocol (codes "https") then codes "443" else codes "80")
    else port

pub elements_of : Regex → Option (Bytes × Bytes × Bytes) → Option Elements
unfolding split_port port_or_default
elements_of regex none = none
elements_of regex (some (protocol, url_addr, tail)) =
    let (a, p) = split_port regex url_addr in
    if is_empty protocol || is_empty url_addr
    then none
    else some
        (record { addr = a; port = port_or_default protocol p; protocol = protocol; urn = tail })

unfoldable pub proccess_uri : Regex → Bytes → Option Elements
unfolding elements_of
proccess_uri regex uri = if is_empty uri then none else elements_of regex (regex.search uri)

-- `proto + "://" + addr + ":" + port + urn`.
unfoldable pub fetch_uri : Elements → Bytes
fetch_uri e = e.protocol ++ (codes "://" ++ (e.addr ++ (codes ":" ++ (e.port ++ e.urn))))
