-- ===== src/Xhr/Uri/Laws.antt =====
-- The address that is asked for, against the one that was given.
use xmlhttp_request.Prelude.{
  All, Bytes, IsDigit, [], codes, some, true, ◌++◌, ◌≡◌, ◌≢◌, ap, append_assoc, arith, false, none,
  refl, sym, ℕ, ◌==◌, ◌∷◌,
}
use xmlhttp_request.Xhr.Uri.{
  Regex, Elements, is_empty, split_last_colon, split_port, port_or_default, elements_of,
  proccess_uri, fetch_uri,
}

digit-ne-colon : (c : ℕ) → IsDigit c → (c == b':') ≡ false
digit-ne-colon c h = ground arith

split_last_colon-digits : (port : Bytes) → All IsDigit port → split_last_colon port ≡ none
unfolding split_last_colon
split_last_colon-digits [] h = refl
split_last_colon-digits (c ∷ port) (hc, h) =
    rw (split_last_colon-digits port h, digit-ne-colon c hc) refl

split_last_colon-append :
    (host port : Bytes)
    → All IsDigit port
    → split_last_colon (host ++ b':' ∷ port) ≡ some (host, port)
unfolding split_last_colon
split_last_colon-append [] port h = rw (split_last_colon-digits port h) refl
split_last_colon-append (c ∷ host) port h = rw (split_last_colon-append host port h) refl

is_empty-cons : (s : Bytes) → s ≢ [] → is_empty s ≡ false
is_empty-cons [] ne = absurd (ne refl)
is_empty-cons (c ∷ s) ne = refl

is_empty-colon : (host port : Bytes) → is_empty (host ++ b':' ∷ port) ≡ false
is_empty-colon [] port = refl
is_empty-colon (c ∷ host) port = refl

-- An address with a port, as the regular expressions find it in the text, is asked for as it was
-- given.
pub fetch_uri-proccess_uri :
    (regex : Regex) (uri protocol host port tail : Bytes)
    → regex.search uri ≡ some (protocol, host ++ (codes ":" ++ port), tail)
    → regex.check_host_port (host ++ (codes ":" ++ port)) ≡ true
    → All IsDigit port
    → port ≢ []
    → protocol ≢ []
    → uri ≢ []
    → (e : Elements) × (proccess_uri regex uri ≡ some e)
      × (e.addr ≡ host)
      × (e.port ≡ port)
      × (fetch_uri e ≡ protocol ++ (codes "://" ++ (host ++ (codes ":" ++ port) ++ tail)))
unfolding proccess_uri elements_of split_port port_or_default fetch_uri
fetch_uri-proccess_uri regex uri protocol host port tail found checked digits some_port
      some_protocol some_uri =
    (
      record { addr = host; port = port; protocol = protocol; urn = tail },
      rw
          (
            is_empty-cons uri some_uri,
            found,
            is_empty-cons protocol some_protocol,
            is_empty-colon host port,
            checked,
            split_last_colon-append host port digits,
            is_empty-cons port some_port,
          )
          refl,
      refl,
      refl,
      ap (λ s. protocol ++ (codes "://" ++ s)) (sym (append_assoc host (b':' ∷ port) tail)),
    )

-- The address that is asked for is never empty.
pub is_empty-fetch_uri : (e : Elements) → is_empty (fetch_uri e) ≡ false
unfolding fetch_uri
is_empty-fetch_uri e =
    is_empty-colon e.protocol (b'/' ∷ b'/' ∷ (e.addr ++ (codes ":" ++ (e.port ++ e.urn))))
